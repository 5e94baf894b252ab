-- ===== src/Sync/Turn/Keys.antt =====
-- What the turns of objects in SyncFromS3 do to the keys that are tracked.
use s3_2_smb.Base.{Bytes, ◌≡◌, ◌∙◌, refl, inl, inr, none, List, [], ◌∷◌, ◌||◌, arith, Bool-cases}
use s3_2_smb.Metadata.Paths.{is_empty}
use s3_2_smb.Metadata.Entry.{FileEntry, XattrMap}
use s3_2_smb.Metadata.Database.{Database, Lawful}
use s3_2_smb.Metadata.Repository.{get_entry, update_entry}
use s3_2_smb.Metadata.Repository.Laws.{Outcome-cases}
use s3_2_smb.Sync.Objects.{SyncOptions, Object, Listing, Schedule, Work, object_path, entry_path}
use s3_2_smb.Sync.Parents.{ensure_parent_dirs}
use s3_2_smb.Sync.Parents.Ensure.{ensure_parent_dirs-Ensured}
use s3_2_smb.Sync.Turn.{
  is_fresher, track, count_one, report_progress, object_entry, store, drop_stale, merge, sync_path,
  sync_object, sync_objects,
}

module _ (d : Database) (s : Listing) (opts : SyncOptions) (r : Schedule) where
  report_progress_keys : (w : Work d) → (report_progress d s opts r w).s3_keys ≡ w.s3_keys
  unfolding report_progress
  report_progress_keys w = ground arith

  drop_stale_keys : (w : Work d) (e : FileEntry) → (drop_stale d s opts r w e).s3_keys ≡ w.s3_keys
  unfolding drop_stale
  drop_stale_keys w e = ground arith

  store_keys :
      (w : Work d) (o : Object) (path : Bytes) (xattrs : XattrMap)
      → (store d s opts r w o path xattrs).1.s3_keys ≡ w.s3_keys
  unfolding store
  store_keys w o path xattrs =
      elim (Outcome-cases (update_entry d w.db (object_entry d s opts r w o path xattrs))) [
        | inr c ↦ let (x, h) = c in rw (store, h) refl
        | inl c ↦
            let ((db, x), h) = c in
            rw (store, h) (report_progress_keys (count_one d s opts r (record w { db = db })))
      ]

  merge_keys :
      (w : Work d) (o : Object) (path : Bytes) → (merge d s opts r w o path).1.s3_keys ≡ w.s3_keys
  unfolding merge
  merge_keys w o path = elim (Outcome-cases (get_entry d w.db path)) [
    | inr c ↦ let (x, h) = c in rw (merge, h) (store_keys w o path none)
    | inl c ↦
        let (x, h) = c in
        elim (Bool-cases (is_fresher x o)) [
          | inl newer ↦ rw (merge, h, newer) refl
          | inr older ↦
              rw (merge, h, older)
                (store_keys (drop_stale d s opts r w x) o path x.xattrs ∙ drop_stale_keys w x)
        ]
  ]

  module _ (l : Lawful d) where
    track-none :
        (w : Work d) (path : Bytes) → w.s3_keys ≡ none → (track d s opts r w path).s3_keys ≡ none
    unfolding track
    track-none w path untracked = rw (track, untracked) untracked

    sync_path_keys :
        (w : Work d) (o : Object) (path : Bytes)
        → w.s3_keys ≡ none
        → (sync_path d s opts r w o path).1.s3_keys ≡ none
    unfolding sync_path
    sync_path_keys w o path untracked =
        let w0 = track d s opts r w path in
        let kept =
          (ensure_parent_dirs-Ensured d l r w0 path).s3_keys ∙ track-none w path untracked in
        let result = ensure_parent_dirs d r w0 path in
        elim (Outcome-cases result.0) [
          | inr c ↦ let (x, h) = c in rw (sync_path, h) kept
          | inl c ↦ let (u, h) = c in rw (sync_path, h) (merge_keys result.1 o path ∙ kept)
        ]

    sync_object_keys :
        (w : Work d) (o : Object) → w.s3_keys ≡ none → (sync_object d s opts r w o).1.s3_keys ≡ none
    unfolding sync_object
    sync_object_keys w o untracked =
        elim (Bool-cases (is_empty o.key || is_empty (object_path opts.prefix o.key))) [
          | inl nothing ↦ rw (sync_object, nothing) untracked
          | inr something ↦
              rw (sync_object, something)
                (sync_path_keys w o (entry_path opts.prefix o.key) untracked)
        ]

    -- Keys that are not tracked stay so.
    pub sync_objects_keys :
        (w : Work d) (os : List Object)
        → w.s3_keys ≡ none
        → (sync_objects d s opts r w os).1.s3_keys ≡ none
    unfolding sync_objects
    sync_objects_keys w [] untracked = untracked
    sync_objects_keys w (o ∷ os) untracked =
        let result = sync_object d s opts r w o in
        let one = sync_object_keys w o untracked in
        elim (Outcome-cases result.0) [
          | inr c ↦ let (x, h) = c in rw (sync_objects, h) one
          | inl c ↦ let (u, h) = c in rw (sync_objects, h) (sync_objects_keys result.1 os one)
        ]

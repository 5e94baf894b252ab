-- ===== src/Sync/Turn/Laws.antt =====
-- What an object's turn in SyncFromS3 does to the rows.
use s3_2_smb.Base.{
  Bytes, ◌≡◌, ◌≢◌, ◌∙◌, refl, ap, inl, inr, true, false, none, some, List, [], ◌∷◌, ◌||◌, eqb,
  eqb_iff, arith, Bool-cases, Option-cases,
}
use s3_2_smb.Metadata.Paths.{normalize_path, is_empty}
use s3_2_smb.Metadata.Entry.{FileEntry, XattrMap, done}
use s3_2_smb.Metadata.Database.{Database, Lawful, query_failed}
use s3_2_smb.Metadata.Repository.{get_entry, update_entry}
use s3_2_smb.Metadata.Repository.Laws.{Outcome-cases, get_entry_at, update_entry_row}
use s3_2_smb.Sync.Objects.{SyncOptions, Object, Listing, Schedule, Work, object_path, entry_path}
use s3_2_smb.Sync.Parents.{ensure_parent_dirs}
use s3_2_smb.Sync.Parents.Ensure.{ensure_parent_dirs-Ensured}
use s3_2_smb.Sync.Turn.{
  is_fresher, track, count_one, report_progress, object_entry, store, drop_stale, merge, sync_path,
  sync_object, sync_objects,
}

module _ (d : Database) (s : Listing) (opts : SyncOptions) (r : Schedule) where
  pub track_db : (w : Work d) (path : Bytes) → (track d s opts r w path).db ≡ w.db
  unfolding track
  track_db w path = elim (Option-cases w.s3_keys) [
    | inl h ↦ rw (track, h) refl
    | inr c ↦ let (keys, h) = c in rw (track, h) refl
  ]

  pub report_progress_db : (w : Work d) → (report_progress d s opts r w).db ≡ w.db
  unfolding report_progress
  report_progress_db w = ground arith

  pub drop_stale_db : (w : Work d) (e : FileEntry) → (drop_stale d s opts r w e).db ≡ w.db
  unfolding drop_stale
  drop_stale_db w e = ground arith

  module _ (l : Lawful d) where
    -- Storing an object writes the row of its path only.
    pub store_other :
        (w : Work d) (o : Object) (path : Bytes) (xattrs : XattrMap) (q : Bytes)
        → q ≢ normalize_path path
        → d.row (store d s opts r w o path xattrs).1.db q ≡ d.row w.db q
    unfolding store
    store_other w o path xattrs q other =
        let e = object_entry d s opts r w o path xattrs in
        elim (Outcome-cases (update_entry d w.db e)) [
          | inr c ↦ let (x, h) = c in rw (store, h) refl
          | inl c ↦
              let ((db, x), h) = c in
              let row = update_entry_row d l w.db db e x q h in
              let away : eqb (normalize_path path) q ≡ false =
                elim (Bool-cases (eqb (normalize_path path) q)) [
                  | inl same ↦ absurd (other (ground (arith, eqb_iff (normalize_path path) q)))
                  | inr h ↦ h
                ] in
              rw (store, h)
                (ap (λ t. d.row t q)
                    (report_progress_db (count_one d s opts r (record w { db = db })))
                  ∙ row
                  ∙ rw away refl)
        ]

    module _ (answers : (t : d.State) (p m : Bytes) → d.first t p ≢ query_failed m) (e : FileEntry)
        (q : Bytes) where
      -- The row of a path survives an object's turn, if it is fresher than the object.
      merge_keeps :
          (w : Work d) (o : Object) (path : Bytes)
          → d.row w.db q ≡ some e
          → is_fresher e o ≡ true
          → d.row (merge d s opts r w o path).1.db q ≡ some e
      unfolding merge
      merge_keeps w o path here fresh = elim (Bool-cases (eqb (normalize_path path) q)) [
        | inl same ↦
            let at : normalize_path path ≡ q = ground (arith, eqb_iff (normalize_path path) q) in
            let got : get_entry d w.db path ≡ done e =
              get_entry_at d l w.db path e (answers w.db (normalize_path path))
                (ap (d.row w.db) at ∙ here) in
            rw (merge, got, fresh) here
        | inr away ↦
            let other : q ≢ normalize_path path =
              λ h. ground (arith, eqb_iff (normalize_path path) q, h) in
            elim (Outcome-cases (get_entry d w.db path)) [
              | inr c ↦ let (x, h) = c in rw (merge, h) (store_other w o path none q other ∙ here)
              | inl c ↦
                  let (x, h) = c in
                  elim (Bool-cases (is_fresher x o)) [
                    | inl newer ↦ rw (merge, h, newer) here
                    | inr older ↦
                        rw (merge, h, older)
                          (store_other (drop_stale d s opts r w x) o path x.xattrs q other
                            ∙ ap (λ t. d.row t q) (drop_stale_db w x)
                            ∙ here)
                  ]
            ]
      ]

      sync_path_keeps :
          (w : Work d) (o : Object) (path : Bytes)
          → d.row w.db q ≡ some e
          → is_fresher e o ≡ true
          → d.row (sync_path d s opts r w o path).1.db q ≡ some e
      unfolding sync_path
      sync_path_keeps w o path here fresh =
          let w0 = track d s opts r w path in
          let ensured = ensure_parent_dirs-Ensured d l r w0 path in
          let kept = ensured.grows q e (ap (λ t. d.row t q) (track_db w path) ∙ here) in
          let result = ensure_parent_dirs d r w0 path in
          elim (Outcome-cases result.0) [
            | inr c ↦ let (x, h) = c in rw (sync_path, h) kept
            | inl c ↦ let (u, h) = c in rw (sync_path, h) (merge_keeps result.1 o path kept fresh)
          ]

      -- Over a database that keeps its promises and answers every query, the turn of an object,
      -- however it ends, leaves a row as it was that is newer than the object or waits for the
      -- writeback, whatever the object's path is.
      pub sync_object_keeps :
          (w : Work d) (o : Object)
          → d.row w.db q ≡ some e
          → is_fresher e o ≡ true
          → d.row (sync_object d s opts r w o).1.db q ≡ some e
      unfolding sync_object
      sync_object_keeps w o here fresh =
          elim (Bool-cases (is_empty o.key || is_empty (object_path opts.prefix o.key))) [
            | inl nothing ↦ rw (sync_object, nothing) here
            | inr something ↦
                rw (sync_object, something)
                  (sync_path_keeps w o (entry_path opts.prefix o.key) here fresh)
          ]

      dirty_fresher : (o : Object) → e.local_dirty ≡ true → is_fresher e o ≡ true
      dirty_fresher o dirty = ground (arith, dirty)

      pub sync_objects_keep :
          (w : Work d) (os : List Object)
          → d.row w.db q ≡ some e
          → e.local_dirty ≡ true
          → d.row (sync_objects d s opts r w os).1.db q ≡ some e
      unfolding sync_objects
      sync_objects_keep w [] here dirty = here
      sync_objects_keep w (o ∷ os) here dirty =
          let kept = sync_object_keeps w o here (dirty_fresher o dirty) in
          let result = sync_object d s opts r w o in
          elim (Outcome-cases result.0) [
            | inr c ↦ let (x, h) = c in rw (sync_objects, h) kept
            | inl c ↦
                let (u, h) = c in rw (sync_objects, h) (sync_objects_keep result.1 os kept dirty)
          ]

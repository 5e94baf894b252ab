-- ===== src/Sync/Turn/Stored.antt =====
-- Every object that SyncFromS3 took from a page has a row.
use mathlib.Core.Path.{subst}
use s3_2_smb.Base.{
  Bytes, ◌≡◌, ◌≢◌, ◌∙◌, sym, ap, ◌⊎◌, inl, inr, false, ◌||◌, none, List, [], ◌∷◌, eqb, eqb_iff,
  arith, Bool-cases,
}
use s3_2_smb.Metadata.Paths.{normalize_path, is_empty}
use s3_2_smb.Metadata.Entry.{XattrMap, done}
use s3_2_smb.Metadata.Database.{Database, Lawful}
use s3_2_smb.Metadata.Repository.{get_entry, update_entry}
use s3_2_smb.Metadata.Repository.Laws.{Outcome-cases, get_entry_row}
use s3_2_smb.Sync.Objects.{SyncOptions, Object, Listing, Schedule, Work, object_path, entry_path}
use s3_2_smb.Sync.Parents.{ensure_parent_dirs}
use s3_2_smb.Sync.Parents.Laws.{HasRow, written_row}
use s3_2_smb.Sync.Parents.Ensure.{ensure_parent_dirs-Ensured}
use s3_2_smb.Sync.Turn.{
  is_fresher, track, count_one, report_progress, object_entry, store, drop_stale, merge, sync_path,
  sync_object, sync_objects,
}
use s3_2_smb.Sync.Turn.Laws.{track_db, drop_stale_db, report_progress_db, store_other}
use s3_2_smb.Sync.Turn.Refresh.{store_row}

-- An object is on a page.
abbrev pub On : Object → List Object → Type 0
On o [] = ⊥
On o (x ∷ xs) = (o ≡ x) ⊎ On o xs

module _ (d : Database) (s : Listing) (opts : SyncOptions) (r : Schedule) (l : Lawful d) where
  -- A path with a row keeps one when a turn ends.
  abbrev Stays : Bytes → Work d → Work d → Type 0
  Stays p w w' = HasRow d l r w.db p → HasRow d l r w'.db p

  same_db : (w w' : Work d) (p : Bytes) → w'.db ≡ w.db → Stays p w w'
  same_db w w' p same = subst (λ t. HasRow d l r t p) (sym same)

  store-Stays :
      (w : Work d) (o : Object) (path : Bytes) (xattrs : XattrMap) (p : Bytes)
      → Stays p w (store d s opts r w o path xattrs).1
  unfolding store
  store-Stays w o path xattrs p (e, here) =
      elim (Bool-cases (eqb (normalize_path p) (normalize_path path))) [
        | inr away ↦
            let other : normalize_path p ≢ normalize_path path =
              λ h. ground (arith, eqb_iff (normalize_path p) (normalize_path path), h) in
            (e, store_other d s opts r l w o path xattrs (normalize_path p) other ∙ here)
        | inl same ↦
            let at : normalize_path path ≡ normalize_path p =
              ground (arith, eqb_iff (normalize_path p) (normalize_path path)) in
            let x = object_entry d s opts r w o path xattrs in
            elim (Outcome-cases (update_entry d w.db x)) [
              | inr c ↦ let (m, h) = c in rw (store, h) (e, here)
              | inl c ↦
                  let ((db, y), h) = c in
                  let row = written_row d l r w.db db x y h in
                  let w1 = record w { db = db } in
                  let w2 = report_progress d s opts r (count_one d s opts r w1) in
                  rw (store, h)
                    (same_db w1 w2 p (report_progress_db d s opts r (count_one d s opts r w1))
                      (y, ap (d.row db) (sym at) ∙ row))
            ]
      ]

  merge-Stays : (w : Work d) (o : Object) (path p : Bytes) → Stays p w (merge d s opts r w o path).1
  unfolding merge
  merge-Stays w o path p there = elim (Outcome-cases (get_entry d w.db path)) [
    | inr c ↦ let (x, h) = c in rw (merge, h) (store-Stays w o path none p there)
    | inl c ↦
        let (x, h) = c in
        elim (Bool-cases (is_fresher x o)) [
          | inl newer ↦ rw (merge, h, newer) there
          | inr older ↦
              let w1 = drop_stale d s opts r w x in
              rw (merge, h, older)
                (store-Stays w1 o path x.xattrs p
                  (same_db w w1 p (drop_stale_db d s opts r w x) there))
        ]
  ]

  merge-HasRow :
      (w : Work d) (o : Object) (path : Bytes)
      → (merge d s opts r w o path).0 ≡ done tt
      → HasRow d l r (merge d s opts r w o path).1.db path
  unfolding merge
  merge-HasRow w o path = elim (Outcome-cases (get_entry d w.db path)) [
    | inr c ↦
        let (x, h) = c in
        rw (merge, h) (λ k. (let (y, row, a) = store_row d s opts r l w o path none k in (y, row)))
    | inl c ↦
        let (x, h) = c in
        elim (Bool-cases (is_fresher x o)) [
          | inl newer ↦ rw (merge, h, newer) (λ k. (x, get_entry_row d l w.db path x h))
          | inr older ↦
              rw (merge, h, older)
                (λ k.
                  (let (y, row, a) =
                      store_row d s opts r l (drop_stale d s opts r w x) o path x.xattrs k in
                    (y, row)))
        ]
  ]

  sync_path-Stays :
      (w : Work d) (o : Object) (path p : Bytes) → Stays p w (sync_path d s opts r w o path).1
  unfolding sync_path
  sync_path-Stays w o path p there =
      let w0 = track d s opts r w path in
      let (e, here) = same_db w w0 p (track_db d s opts r w path) there in
      let result = ensure_parent_dirs d r w0 path in
      let kept : HasRow d l r result.1.db p =
        (e, (ensure_parent_dirs-Ensured d l r w0 path).grows (normalize_path p) e here) in
      elim (Outcome-cases result.0) [
        | inr c ↦ let (x, h) = c in rw (sync_path, h) kept
        | inl c ↦ let (u, h) = c in rw (sync_path, h) (merge-Stays result.1 o path p kept)
      ]

  sync_path-HasRow :
      (w : Work d) (o : Object) (path : Bytes)
      → (sync_path d s opts r w o path).0 ≡ done tt
      → HasRow d l r (sync_path d s opts r w o path).1.db path
  unfolding sync_path
  sync_path-HasRow w o path =
      let result = ensure_parent_dirs d r (track d s opts r w path) path in
      elim (Outcome-cases result.0) [
        | inr c ↦ let (x, h) = c in rw (sync_path, h) (λ k. absurd (cc))
        | inl c ↦ let (u, h) = c in rw (sync_path, h) (merge-HasRow result.1 o path)
      ]

  sync_object-Stays :
      (w : Work d) (o : Object) (p : Bytes) → Stays p w (sync_object d s opts r w o).1
  unfolding sync_object
  sync_object-Stays w o p there =
      elim (Bool-cases (is_empty o.key || is_empty (object_path opts.prefix o.key))) [
        | inl nothing ↦ rw (sync_object, nothing) there
        | inr something ↦
            rw (sync_object, something) (sync_path-Stays w o (entry_path opts.prefix o.key) p there)
      ]

  sync_objects_stay :
      (w : Work d) (os : List Object) (p : Bytes) → Stays p w (sync_objects d s opts r w os).1
  unfolding sync_objects
  sync_objects_stay w [] p there = there
  sync_objects_stay w (o ∷ os) p there =
      let result = sync_object d s opts r w o in
      let kept = sync_object-Stays w o p there in
      elim (Outcome-cases result.0) [
        | inr c ↦ let (x, h) = c in rw (sync_objects, h) kept
        | inl c ↦ let (u, h) = c in rw (sync_objects, h) (sync_objects_stay result.1 os p kept)
      ]

  sync_object-HasRow :
      (w : Work d) (o : Object)
      → (is_empty o.key || is_empty (object_path opts.prefix o.key)) ≡ false
      → (sync_object d s opts r w o).0 ≡ done tt
      → HasRow d l r (sync_object d s opts r w o).1.db (entry_path opts.prefix o.key)
  unfolding sync_object
  sync_object-HasRow w o named =
      rw (sync_object, named) (sync_path-HasRow w o (entry_path opts.prefix o.key))

  -- Over a database that keeps its promises, where SyncFromS3 went through the objects of a page
  -- without an error, each of them whose key and path below the prefix are not empty has a row.
  pub sync_objects-HasRow :
      (w : Work d) (os : List Object) (o : Object)
      → On o os
      → (is_empty o.key || is_empty (object_path opts.prefix o.key)) ≡ false
      → (sync_objects d s opts r w os).0 ≡ done tt
      → HasRow d l r (sync_objects d s opts r w os).1.db (entry_path opts.prefix o.key)
  unfolding sync_objects
  sync_objects-HasRow w [] o on named = absurd on
  sync_objects-HasRow w (x ∷ os) o on named =
      let result = sync_object d s opts r w x in
      elim (Outcome-cases result.0) [
        | inr c ↦ let (m, h) = c in rw (sync_objects, h) (λ k. absurd (cc))
        | inl c ↦
            let (u, h) = c in
            rw (sync_objects, h)
              (λ k. (elim on [
                | inr later ↦ sync_objects-HasRow result.1 os o later named k
                | inl is ↦
                    let named' =
                      ap (λ z. is_empty z.key || is_empty (object_path opts.prefix z.key)) (sym is)
                      ∙ named in
                    let own = sync_object-HasRow w x named' h in
                    let kept = sync_objects_stay result.1 os (entry_path opts.prefix x.key) own in
                    subst
                      (λ z.
                        HasRow d l r (sync_objects d s opts r result.1 os).1.db
                          (entry_path opts.prefix z.key))
                      (sym is) kept
              ]))
      ]

-- ===== src/Fuse/Dir/Laws.antt =====
-- What Remove and Mkdir leave in the database.
use s3_2_smb.Base.{
  Bytes, ◌≡◌, refl, Bool, true, false, none, [], ◌∷◌, if◌then◌else◌, eqb, ◌&&◌, Bool-cases, inl,
  inr, Option-cases,
}
use mathlib.Core.Path.{subst}
use s3_2_smb.Metadata.Paths.{normalize_path, join_path}
use s3_2_smb.Metadata.Entry.{Status, done, failed}
use s3_2_smb.Metadata.Database.{Lawful}
use s3_2_smb.Metadata.Repository.{get_entry, list_entries, delete_entry}
use s3_2_smb.Metadata.Repository.Laws.{Outcome-cases, delete_entry_row}
use s3_2_smb.S3client.{delete_object}
use s3_2_smb.Fuse.World.{Environment, World, invalidate, is_gone}
use s3_2_smb.Fuse.World.Laws.{invalidate_keeps}
use s3_2_smb.Fuse.Dir.{forget, remove_object, remove_found, remove, full}

module _ (v : Environment) (l : Lawful v.database) where
  -- What a removal of a path does to the rows: a success deletes that row only, and an error
  -- changes nothing.
  abbrev pub Removes : v.database.State → Bytes → Status → v.database.State → Type 0
  Removes before path (done _) after =
      (q : Bytes)
      → v.database.row after q
        ≡ (if eqb (normalize_path path) q then none else v.database.row before q)
  Removes before path (failed _) after = after ≡ before

  forget-Removes :
      (w : World v) (path : Bytes) → Removes w.db path (forget v w path).0 (forget v w path).1.db
  unfolding forget
  forget-Removes w path = elim (Outcome-cases (delete_entry v.database w.db path)) [
    | inl c ↦
        let (db, h) = c in rw (forget, h) (λ q. delete_entry_row v.database l w.db db path q h)
    | inr c ↦ let (e, h) = c in rw (forget, h) refl
  ]

  forget_invalidated :
      (w : World v) (path : Bytes)
      → let r = forget v (invalidate v w path) path in Removes w.db path r.0 r.1.db
  forget_invalidated w path =
      let same = (invalidate_keeps v w path).0 in
      subst
        (λ s.
          Removes s path (forget v (invalidate v w path) path).0
            (forget v (invalidate v w path) path).1.db)
        same (forget-Removes (invalidate v w path) path)

  remove_object-Removes :
      (w : World v) (path : Bytes)
      → Removes w.db path (remove_object v w path).0 (remove_object v w path).1.db
  unfolding remove_object
  remove_object-Removes w path =
      let d = delete_object v.bucket v.prefix w.objects path in
      let w1 : World v = record w { objects = d.1 } in
      elim (Option-cases d.0) [
        | inl h ↦ rw (remove_object, h) (forget_invalidated w1 path)
        | inr c ↦
            let (m, h) = c in
            elim (Bool-cases (is_gone m)) [
              | inl g ↦ rw (remove_object, h, g) (forget_invalidated w1 path)
              | inr g ↦ rw (remove_object, h, g) refl
            ]
      ]

  remove_found-Removes :
      (w : World v) (path : Bytes) (check_empty : Bool)
      → Removes w.db path
          (remove_found v w path check_empty).0
          (remove_found v w path check_empty).1.db
  unfolding remove_found
  remove_found-Removes w path false = remove_object-Removes w path
  remove_found-Removes w path true = elim (Outcome-cases (list_entries v.database w.db path)) [
    | inr c ↦ let (e, h) = c in rw (remove_found, h) refl
    | inl c ↦
        let (children, h) = c in
        elim (Bool-cases (full true children)) [
          | inl some_left ↦ rw (remove_found, h, some_left) refl
          | inr empty ↦ rw (remove_found, h, empty) (remove_object-Removes w path)
        ]
  ]

  -- Over a database that keeps its promises, Remove of a name in a directory: if it succeeds, the row of that path is gone and every other
  -- row is as it was; if it returns an error, from the bucket too, the database is as it was.
  pub remove_lem :
      (w : World v) (dir name : Bytes) (is_dir : Bool)
      → let r = remove v w dir name is_dir in Removes w.db (join_path (dir ∷ name ∷ [])) r.0 r.1.db
  unfolding remove
  remove_lem w dir name is_dir =
      let path = join_path (dir ∷ name ∷ []) in
      elim (Outcome-cases (get_entry v.database w.db path)) [
        | inr c ↦ let (e, h) = c in rw (remove, h) refl
        | inl c ↦
            let (entry, h) = c in
            rw (remove, h) (remove_found-Removes w path (is_dir && entry.is_dir))
      ]

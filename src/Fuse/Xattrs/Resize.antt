-- ===== src/Fuse/Xattrs/Resize.antt =====
-- What Setattr of a file changes: columns of its row, and nothing of what is uploaded.
use mathlib.Core.Path.{subst}
use s3_2_smb.Base.{
  Bytes, ◌≡◌, ◌≢◌, ◌∙◌, sym, refl, ap, ◌⊎◌, inl, inr, ◌||◌, some, List, [], ◌∷◌, ◌++◌, Bool-cases,
  Option-cases, Result-cases,
}
use s3_2_smb.Metadata.Paths.{normalize_path}
use s3_2_smb.Metadata.Entry.{FileEntry, XattrMap, done}
use s3_2_smb.Metadata.Database.{Lawful, Column, set_columns, set_xattrs}
use s3_2_smb.Metadata.Repository.{get_entry, update_entry_fields, stored}
use s3_2_smb.Metadata.Repository.Laws.{
  Outcome-cases, get_entry_row, update_entry_fields_own, update_entry_fields_other,
}
use s3_2_smb.Fuse.World.{Environment, World}
use s3_2_smb.Fuse.World.Laws.{invalidate_keeps}
use s3_2_smb.Fuse.Xattrs.{
  Setattr, or_else, given, change_owner, change_mode, plain_columns, owner_columns, write_columns,
  drop_resized, file_setattr,
}

-- The columns of the owner and the mode, if any.
abbrev Tail : List Column → Type 0
Tail cs = (cs ≡ []) ⊎ ((m : XattrMap) × (cs ≡ set_xattrs m ∷ []))

-- The second entry has the size and the time that were asked for, or else the first one's, and the
-- first one's mark and staging path.
pub record Resized (r : Setattr) (e x : FileEntry) : Type 0 where
  pub size : x.size ≡ or_else r.size e.size
  pub mod_time : x.mod_time ≡ or_else r.mod_time e.mod_time
  pub local_dirty : x.local_dirty ≡ e.local_dirty
  pub local_staging_path : x.local_staging_path ≡ e.local_staging_path

Tail-columns :
    (cs : List Column) (e : FileEntry)
    → Tail cs
    → ((set_columns cs e).size ≡ e.size)
      × ((set_columns cs e).mod_time ≡ e.mod_time)
      × ((set_columns cs e).local_dirty ≡ e.local_dirty)
      × ((set_columns cs e).local_staging_path ≡ e.local_staging_path)
unfolding set_columns
Tail-columns cs e (inl h) = rw h (refl, refl, refl, refl)
Tail-columns cs e (inr (m, h)) = rw h (refl, refl, refl, refl)

module _ (v : Environment) where
  columns-Resized :
      (r : Setattr) (cs : List Column) (e : FileEntry)
      → Tail cs
      → Resized r e (set_columns (plain_columns v r ++ cs) e)
  unfolding set_columns plain_columns
  columns-Resized r cs e tail = elim (Option-cases r.size) [
    | inl s ↦ elim (Option-cases r.mod_time) [
      | inl t ↦
          let (a, b, c, d) = Tail-columns cs e tail in
          rw (plain_columns, s, t)
            (record { size = a; mod_time = b; local_dirty = c; local_staging_path = d })
      | inr y ↦
          let (t, at) = y in
          let (a, b, c, d) = Tail-columns cs (record e { mod_time = t }) tail in
          rw (plain_columns, s, at)
            (record { size = a; mod_time = b; local_dirty = c; local_staging_path = d })
    ]
    | inr x ↦
        let (n, s) = x in
        elim (Option-cases r.mod_time) [
          | inl t ↦
              let (a, b, c, d) = Tail-columns cs (record e { size = n }) tail in
              rw (plain_columns, s, t)
                (record { size = a; mod_time = b; local_dirty = c; local_staging_path = d })
          | inr y ↦
              let (t, at) = y in
              let (a, b, c, d) = Tail-columns cs (record e { size = n; mod_time = t }) tail in
              rw (plain_columns, s, at)
                (record { size = a; mod_time = b; local_dirty = c; local_staging_path = d })
        ]
  ]

  module _ (l : Lawful v.database) (path : Bytes) where
    write_columns_row :
        (w w' : World v) (cs : List Column) (e : FileEntry)
        → write_columns v w path cs ≡ done w'
        → v.database.row w.db (normalize_path path) ≡ some e
        → (v.database.row w'.db (normalize_path path) ≡ some (set_columns cs e))
          × ((q : Bytes) → q ≢ normalize_path path → v.database.row w'.db q ≡ v.database.row w.db q)
          × (w'.objects ≡ w.objects)
    unfolding write_columns set_columns
    write_columns_row w w' [] e = λ h row.
        (let is : w ≡ w' = cc in
          (
            ap (λ z. v.database.row z.db (normalize_path path)) (sym is) ∙ row,
            λ q other. ap (λ z. v.database.row z.db q) (sym is),
            ap (λ z. z.objects) (sym is),
          ))
    write_columns_row w w' (c ∷ cs) e =
        elim (Outcome-cases (update_entry_fields v.database w.db path (c ∷ cs))) [
          | inr x ↦ let (m, g) = x in rw (write_columns, g) (λ h. absurd (cc))
          | inl x ↦
              let (db, g) = x in
              rw (write_columns, g)
                (λ h row.
                  (let is : record w { db = db } ≡ w' = cc in
                    (
                      ap (λ z. v.database.row z.db (normalize_path path)) (sym is)
                          ∙ update_entry_fields_own v.database l w.db db path (c ∷ cs) g e row,
                      λ q other.
                          ap (λ z. v.database.row z.db q) (sym is)
                          ∙ update_entry_fields_other v.database l w.db db path (c ∷ cs) g q other,
                      ap (λ z. z.objects) (sym is),
                    )))
        ]

    owner_columns-Tail :
        (db : v.database.State) (r : Setattr) (cs : List Column)
        → owner_columns v db path r ≡ done cs
        → Tail cs
    unfolding owner_columns
    owner_columns-Tail db r cs = elim (Bool-cases (given r.mode || (given r.uid || given r.gid))) [
      | inr unasked ↦ rw (owner_columns, unasked) (λ h. inl (cc))
      | inl asked ↦ elim (Outcome-cases (get_entry v.database db path)) [
        | inr c ↦ let (x, g) = c in rw (owner_columns, g, asked) (λ h. absurd (cc))
        | inl c ↦
            let (e, g) = c in
            let x = (change_owner (change_mode e r) r).xattrs in
            elim (Result-cases (stored v.database x)) [
              | inr k ↦ let (m, bad) = k in rw (owner_columns, g, asked, bad) (λ h. absurd (cc))
              | inl k ↦ let (m, good) = k in rw (owner_columns, g, asked, good) (λ h. inr (m, cc))
            ]
      ]
    ]

    drop_resized_keeps :
        (w : World v) (r : Setattr)
        → ((drop_resized v w path r).db ≡ w.db) × ((drop_resized v w path r).objects ≡ w.objects)
    unfolding drop_resized
    drop_resized_keeps w r = elim (Bool-cases (given r.size)) [
      | inl sized ↦ rw (drop_resized, sized) (invalidate_keeps v w path)
      | inr unsized ↦ rw (drop_resized, unsized) (refl, refl)
    ]

    -- Over a database that keeps its promises, where a file has a row, a Setattr of it that succeeds
    -- leaves a row there with the size and the time that were asked for, if they were, and returns it.
    -- The row's mark for the writeback and its staging path, the other rows and the bucket are as they
    -- were.
    pub file_setattr-Resized :
        (w : World v) (r : Setattr) (e x : FileEntry)
        → v.database.row w.db (normalize_path path) ≡ some e
        → (file_setattr v w path r).0 ≡ done x
        → (v.database.row (file_setattr v w path r).1.db (normalize_path path) ≡ some x)
          × Resized r e x
          × ((q : Bytes)
              → q ≢ normalize_path path
              → v.database.row (file_setattr v w path r).1.db q ≡ v.database.row w.db q)
          × ((file_setattr v w path r).1.objects ≡ w.objects)
    unfolding file_setattr
    file_setattr-Resized w r e x row =
        let w1 = drop_resized v w path r in
        let (db, objects) = drop_resized_keeps w r in
        elim (Outcome-cases (owner_columns v w1.db path r)) [
          | inr c ↦ let (m, g) = c in rw (file_setattr, g) (λ h. absurd (cc))
          | inl c ↦
              let (cs, g) = c in
              elim (Outcome-cases (write_columns v w1 path (plain_columns v r ++ cs))) [
                | inr y ↦ let (m, k) = y in rw (file_setattr, g, k) (λ h. absurd (cc))
                | inl y ↦
                    let (w2, k) = y in
                    let start = ap (λ s. v.database.row s (normalize_path path)) db ∙ row in
                    let (own, others, kept) =
                      write_columns_row w1 w2 (plain_columns v r ++ cs) e k start in
                    rw (file_setattr, g, k)
                      (λ h.
                        (let now = get_entry_row v.database l w2.db path x h in
                          let both : some (set_columns (plain_columns v r ++ cs) e) ≡ some x =
                            sym own ∙ now in
                          let is : set_columns (plain_columns v r ++ cs) e ≡ x = cc in
                          (
                            now,
                            subst (Resized r e) is
                                (columns-Resized r cs e (owner_columns-Tail w1.db r cs g)),
                            λ q other. others q other ∙ ap (λ s. v.database.row s q) db,
                            kept ∙ objects,
                          )))
              ]
        ]

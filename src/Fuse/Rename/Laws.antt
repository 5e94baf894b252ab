-- ===== src/Fuse/Rename/Laws.antt =====
-- What Rename does to the rows.
use s3_2_smb.Base.{
  ℕ, Bytes, ◌≡◌, ◌≢◌, ◌∙◌, refl, sym, none, some, if◌then◌else◌, eqb, eqb_iff, eqb_refl, arith, inl,
  inr,
}
use s3_2_smb.Metadata.Paths.{normalize_path}
use s3_2_smb.Metadata.Entry.{FileEntry, Error, done, failed, err_not_found}
use s3_2_smb.Metadata.Database.{Lawful, Found, found, record_not_found, query_failed}
use s3_2_smb.Metadata.Repository.{found_entry, get_entry, update_entry, delete_entry}
use s3_2_smb.Metadata.Repository.Laws.{
  Outcome-cases, delete_entry_row, update_entry_row, update_entry_created, get_entry_missing,
}
use s3_2_smb.Fuse.World.{Environment}
use s3_2_smb.Fuse.Rename.{clear_destination, replace_row, move_row, renamed}

found_failed :
    (f : Found) (e : Error)
    → ((m : Bytes) → f ≢ query_failed m)
    → found_entry f ≡ failed e
    → found_entry f ≡ failed err_not_found
unfolding found_entry
found_failed (found x) e answers h = cc
found_failed record_not_found e answers h = refl
found_failed (query_failed m) e answers h = absurd (answers m refl)

module _ (v : Environment) (l : Lawful v.database) where
  abbrev pub Answers : Type 0
  Answers = (s : v.database.State) (p m : Bytes) → v.database.first s p ≢ query_failed m

  missing_row :
      (db : v.database.State) (path : Bytes) (e : Error)
      → Answers
      → get_entry v.database db path ≡ failed e
      → v.database.row db (normalize_path path) ≡ none
  unfolding get_entry
  missing_row db path e answers h = get_entry_missing v.database l db path (
      found_failed (v.database.first db (normalize_path path)) e (answers db (normalize_path path))
        h)

  clear_destination_row :
      (db db1 : v.database.State) (path q : Bytes)
      → Answers
      → clear_destination v db path ≡ done db1
      → v.database.row db1 q ≡ (if eqb (normalize_path path) q then none else v.database.row db q)
  unfolding clear_destination
  clear_destination_row db db1 path q answers =
      elim (Outcome-cases (get_entry v.database db path)) [
        | inl c ↦
            let (e, g) = c in
            rw (clear_destination, g) (delete_entry_row v.database l db db1 path q)
        | inr c ↦
            let (e, g) = c in
            rw (clear_destination, g)
              (λ h.
                let gone = missing_row db path e answers g in
                let same : db ≡ db1 = cc in
                rw (sym same) (ground (arith, gone, eqb_iff (normalize_path path) q)))
      ]

  replace_row_lem :
      (db db2 : v.database.State) (e saved : FileEntry) (old_path : Bytes)
      → v.database.row db (normalize_path e.path) ≡ none
      → replace_row v db e old_path ≡ (done saved, db2)
      → (saved ≡ record e { path = normalize_path e.path })
        × ((q : Bytes)
            → v.database.row db2 q ≡ (
                if eqb (normalize_path old_path) q
                then none
                else if eqb (normalize_path e.path) q
                then some saved
                else v.database.row db q))
  unfolding replace_row
  replace_row_lem db db2 e saved old_path fresh =
      elim (Outcome-cases (update_entry v.database db e)) [
        | inr c ↦ let (x, g) = c in rw (replace_row, g) (λ h. cc)
        | inl c ↦
            let (r, g) = c in
            elim (Outcome-cases (delete_entry v.database r.0 old_path)) [
              | inr c ↦ let (x, k) = c in rw (replace_row, g, k) (λ h. cc)
              | inl c ↦
                  let (db3, k) = c in
                  rw (replace_row, g, k)
                    (λ h.
                      let new : r.1 ≡ saved = cc in
                      let left : db3 ≡ db2 = cc in
                      rw (sym new, sym left)
                        (
                          update_entry_created v.database l db r.0 e r.1 g fresh,
                          λ q.
                              delete_entry_row v.database l r.0 db3 old_path q k
                              ∙ rw (update_entry_row v.database l db r.0 e r.1 q g) refl,
                        ))
            ]
      ]

  moved_rows :
      (db db1 db2 : v.database.State) (e saved : FileEntry) (o n : Bytes)
      → o ≢ n
      → saved ≡ e
      → ((q : Bytes) → v.database.row db1 q ≡ (if eqb n q then none else v.database.row db q))
      → ((q : Bytes)
          → v.database.row db2 q
            ≡ (if eqb o q then none else if eqb n q then some saved else v.database.row db1 q))
      → (v.database.row db2 n ≡ some e)
        × (v.database.row db2 o ≡ none)
        × ((q : Bytes) → q ≢ o → q ≢ n → v.database.row db2 q ≡ v.database.row db q)
  moved_rows db db1 db2 e saved o n apart same cleared rows = (
    ground (arith, rows n, eqb_iff o n, eqb_refl n, same),
    ground (arith, rows o, eqb_refl o),
    λ q not_o not_n. ground (arith, rows q, cleared q, eqb_iff o q, eqb_iff n q),
  )

  -- Where every query is answered, if the rows are moved without an error, and the two paths have
  -- different normal forms, then the row of the new path holds the entry's size, kind, tag and
  -- attributes and nothing else of it, no row is left under the old path, and every other row is as it was.
  pub move_row_lem :
      (db db2 : v.database.State) (entry saved : FileEntry) (old_path new_path : Bytes) (now : ℕ)
      → Answers
      → normalize_path old_path ≢ normalize_path new_path
      → move_row v db entry old_path new_path now ≡ (done saved, db2)
      → (v.database.row db2 (normalize_path new_path)
          ≡ some (renamed entry (normalize_path new_path) now))
        × (v.database.row db2 (normalize_path old_path) ≡ none)
        × ((q : Bytes)
            → q ≢ normalize_path old_path
            → q ≢ normalize_path new_path
            → v.database.row db2 q ≡ v.database.row db q)
  unfolding move_row
  move_row_lem db db2 entry saved old_path new_path now answers apart =
      elim (Outcome-cases (clear_destination v db new_path)) [
        | inr c ↦ let (x, g) = c in rw (move_row, g) (λ h. cc)
        | inl c ↦
            let (db1, g) = c in
            rw (move_row, g)
              (λ h.
                let cleared : (q : Bytes)
                    → v.database.row db1 q
                      ≡ (if eqb (normalize_path new_path) q then none else v.database.row db q) =
                  λ q. clear_destination_row db db1 new_path q answers g in
                let (new, rows) =
                  replace_row_lem db1 db2 (renamed entry new_path now) saved old_path
                    (cleared (normalize_path new_path)
                      ∙ rw (eqb_refl (normalize_path new_path)) refl)
                    h in
                moved_rows db db1 db2 (renamed entry (normalize_path new_path) now) saved
                  (normalize_path old_path) (normalize_path new_path) apart new cleared rows)
      ]

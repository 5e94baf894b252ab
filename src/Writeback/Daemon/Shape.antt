-- ===== src/Writeback/Daemon/Shape.antt =====
-- The background job makes no rows, and changes no staging path but to nothing.
use mathlib.Core.Path.{subst}
use s3_2_smb.Base.{
  ℕ, ◌+◌, Bytes, ◌≡◌, ◌∙◌, sym, refl, ap, ◌⊎◌, inl, inr, true, false, Bool, Option, none, some,
  List, [], ◌∷◌, eqb, ltb, Bool-cases, Option-cases, if◌then◌else◌,
}
use s3_2_smb.Disk.{open_file, stat, file, unlink}
use s3_2_smb.Metadata.Paths.{is_empty, normalize_path}
use s3_2_smb.Metadata.Entry.{FileEntry}
use s3_2_smb.Metadata.Database.{
  Lawful, Column, set_columns, set_local_dirty, set_s3_verified_at, set_local_staging_path,
}
use s3_2_smb.Metadata.Repository.{update_entry_fields}
use s3_2_smb.Metadata.Repository.Laws.{Outcome-cases, update_entry_fields_row}
use s3_2_smb.S3client.{put_object_from_reader}
use s3_2_smb.Fuse.World.{Environment, World}
use s3_2_smb.Writeback.Upload.{Schedule, set_fields, upload, write_back, write_back_idle}
use s3_2_smb.Writeback.Eviction.{is_removed, forget_staging, remove_staging, evict_entry}

module _ (v : Environment) where
  -- A row of the second world is a row of the first one with the same staging path, or with none.
  abbrev pub Shape : World v → World v → Type 0
  Shape w w' =
      (q : Bytes) (z : FileEntry)
      → v.database.row w'.db q ≡ some z
      → (y : FileEntry) × (v.database.row w.db q ≡ some y)
        × ((z.local_staging_path ≡ y.local_staging_path) ⊎ (z.local_staging_path ≡ []))

  pub same_db-Shape : (w w' : World v) → w'.db ≡ w.db → Shape w w'
  same_db-Shape w w' same q z h = (z, ap (λ s. v.database.row s q) (sym same) ∙ h, inl refl)

  joined : (x y z : Bytes) → (z ≡ y) ⊎ (z ≡ []) → (y ≡ x) ⊎ (y ≡ []) → (z ≡ x) ⊎ (z ≡ [])
  joined x y z (inr h) g = inr h
  joined x y z (inl h) (inl g) = inl (h ∙ g)
  joined x y z (inl h) (inr g) = inr (h ∙ g)

  pub trans-Shape : (w w1 w2 : World v) → Shape w w1 → Shape w1 w2 → Shape w w2
  trans-Shape w w1 w2 f g q z h =
      let (y, row, k) = g q z h in
      let (x, row', k') = f q y row in
      (x, row', joined x.local_staging_path y.local_staging_path z.local_staging_path k k')

  -- Columns that change no staging path but to nothing.
  abbrev Mild : List Column → Type 0
  Mild cs =
      (y : FileEntry)
      → ((set_columns cs y).local_staging_path ≡ y.local_staging_path)
        ⊎ ((set_columns cs y).local_staging_path ≡ [])

  cleared_columns : Mild (set_local_dirty false ∷ [])
  unfolding set_columns
  cleared_columns y = inl refl

  uploaded_columns : (t : ℕ) → Mild (set_local_dirty false ∷ set_s3_verified_at t ∷ [])
  unfolding set_columns
  uploaded_columns t y = inl refl

  forgotten_columns : Mild (set_local_staging_path [] ∷ [])
  unfolding set_columns
  forgotten_columns y = inr refl

  changed_row :
      (b : Bool) (o : Option FileEntry) (cs : List Column) (z : FileEntry)
      → Mild cs
      → (if b then (elim o [ some e ↦ some (set_columns cs e) | none ↦ none ]) else o) ≡ some z
      → (y : FileEntry) × (o ≡ some y)
        × ((z.local_staging_path ≡ y.local_staging_path) ⊎ (z.local_staging_path ≡ []))
  changed_row false o cs z mild h = (z, h, inl refl)
  changed_row true none cs z mild h = absurd (cc)
  changed_row true (some y) cs z mild h =
      let is : set_columns cs y ≡ z = cc in
      (
        y,
        refl,
        subst (λ x. (x.local_staging_path ≡ y.local_staging_path) ⊎ (x.local_staging_path ≡ [])) is
            (mild y),
      )

  module _ (l : Lawful v.database) where
    set_fields-Shape :
        (w : World v) (p : Bytes) (cs : List Column) → Mild cs → Shape w (set_fields v w p cs)
    unfolding set_fields
    set_fields-Shape w p cs mild = elim (Outcome-cases (update_entry_fields v.database w.db p cs)) [
      | inr c ↦ let (x, h) = c in rw (set_fields, h) (same_db-Shape w w refl)
      | inl c ↦
          let (s, h) = c in
          let shape : Shape w (record w { db = s }) = λ q z k.
            changed_row (eqb (normalize_path p) q) (v.database.row w.db q) cs z mild
              (sym (update_entry_fields_row v.database l w.db s p cs q h) ∙ k) in
          rw (set_fields, h) shape
    ]

    upload-Shape :
        (w : World v) (e : FileEntry) (bytes : Bytes) (t : ℕ) → Shape w (upload v w e bytes t)
    unfolding upload
    upload-Shape w e bytes t =
        let r = put_object_from_reader v.bucket v.prefix w.objects e.path bytes e.size in
        let w1 : World v = record w { objects = r.1 } in
        let cs = set_local_dirty false ∷ set_s3_verified_at t ∷ [] in
        elim (Option-cases r.0) [
          | inr c ↦ let (m, h) = c in rw (upload, h) (same_db-Shape w w1 refl)
          | inl h ↦
              rw (upload, h)
                (trans-Shape w w1 (set_fields v w1 e.path cs) (same_db-Shape w w1 refl)
                  (set_fields-Shape w1 e.path cs (uploaded_columns t)))
        ]

    write_back-Shape : (w : World v) (e : FileEntry) (t : ℕ) → Shape w (write_back v w e t)
    unfolding write_back
    write_back-Shape w e t = elim (Bool-cases (is_empty e.local_staging_path)) [
      | inl unstaged ↦
          rw (write_back, unstaged)
            (set_fields-Shape w e.path (set_local_dirty false ∷ []) cleared_columns)
      | inr named ↦ elim (Option-cases (w.disk.fault open_file e.local_staging_path)) [
        | inr c ↦ let (m, h) = c in rw (write_back, named, h) (same_db-Shape w w refl)
        | inl opens ↦ elim (Option-cases (file w.disk e.local_staging_path)) [
          | inl missing ↦
              rw (write_back, named, opens, missing)
                (set_fields-Shape w e.path (set_local_dirty false ∷ []) cleared_columns)
          | inr c ↦
              let (bytes, h) = c in rw (write_back, named, opens, h) (upload-Shape w e bytes t)
        ]
      ]
    ]

    pub idle-Shape :
        (now idle : ℕ) (w : World v) (e : FileEntry) (t : ℕ)
        → Shape w (write_back_idle v now idle w e t)
    unfolding write_back_idle
    idle-Shape now idle w e t = elim (Bool-cases (ltb now (e.mod_time + idle))) [
      | inl fresh ↦ rw (write_back_idle, fresh) (same_db-Shape w w refl)
      | inr old ↦ rw (write_back_idle, old) (write_back-Shape w e t)
    ]

    forget_staging-Shape : (w : World v) (e : FileEntry) → Shape w (forget_staging v w e)
    unfolding forget_staging
    forget_staging-Shape w e =
        set_fields-Shape w e.path (set_local_staging_path [] ∷ []) forgotten_columns

    remove_staging-Shape : (w : World v) (e : FileEntry) → Shape w (remove_staging v w e)
    unfolding remove_staging
    remove_staging-Shape w e =
        let r = unlink w.disk e.local_staging_path in
        let w1 : World v = record w { disk = r.1 } in
        elim (Bool-cases (is_removed r.0)) [
          | inr stays ↦ rw (remove_staging, stays) (same_db-Shape w w1 refl)
          | inl gone ↦
              rw (remove_staging, gone)
                (trans-Shape w w1 (forget_staging v w1 e) (same_db-Shape w w1 refl)
                  (forget_staging-Shape w1 e))
        ]

    pub evict_entry-Shape :
        (r : Schedule) (now retention : ℕ) (w : World v) (e : FileEntry)
        → Shape w (evict_entry v r now retention w e)
    unfolding evict_entry
    evict_entry-Shape r now retention w e =
        elim (Option-cases (w.disk.fault stat e.local_staging_path)) [
          | inr c ↦ let (m, h) = c in rw (evict_entry, h) (same_db-Shape w w refl)
          | inl works ↦ elim (Option-cases (file w.disk e.local_staging_path)) [
            | inl missing ↦ rw (evict_entry, works, missing) (forget_staging-Shape w e)
            | inr c ↦
                let (bytes, there) = c in
                elim (Bool-cases (ltb (r.accessed e.local_staging_path + retention) now)) [
                  | inl idle ↦ rw (evict_entry, works, there, idle) (remove_staging-Shape w e)
                  | inr fresh ↦ rw (evict_entry, works, there, fresh) (same_db-Shape w w refl)
                ]
          ]
        ]

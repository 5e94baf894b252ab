-- ===== src/Writeback/Upload/Safety.antt =====
-- What one entry's turn of processWriteback leaves: the mark goes only when the bucket has the bytes
-- of the staging file, or when there is no staging file.
pub mod Apart
pub mod Progress
use s3_2_smb.Base.{
  ℕ, Bytes, ◌≡◌, ◌≢◌, ◌∙◌, refl, sym, ap, ◌⊎◌, inl, inr, true, false, Option, none, some, List, [],
  ◌∷◌, if◌then◌else◌, eqb, eqb_iff, eqb_refl, arith, Bool-cases, Option-cases,
}
use s3_2_smb.Disk.{open_file, file}
use s3_2_smb.Metadata.Paths.{normalize_path, is_empty}
use s3_2_smb.Metadata.Entry.{FileEntry, done, failed}
use s3_2_smb.Metadata.Database.{
  Lawful, Column, set_columns, set_column, set_local_dirty, set_s3_verified_at,
}
use s3_2_smb.Metadata.Repository.{update_entry_fields}
use s3_2_smb.Metadata.Repository.Laws.{
  Outcome-cases, update_entry_fields_own, update_entry_fields_other,
}
use s3_2_smb.S3client.{get_full_key, put_object_from_reader}
use s3_2_smb.S3client.Laws.{LawfulBucket, put_object_from_reader_stores}
use s3_2_smb.Fuse.World.{Environment, World}
use s3_2_smb.Writeback.Upload.{set_fields, upload, write_back}

-- The entry without its mark, verified at a time.
abbrev pub clean : FileEntry → ℕ → FileEntry
clean e t = record e { local_dirty = false; s3_verified_at = t }

module _ (v : Environment) where
  -- The bytes that wait for the upload of an entry, and those that the bucket has of it.
  abbrev pub staged : World v → FileEntry → Option Bytes
  staged w e = if is_empty e.local_staging_path then none else file w.disk e.local_staging_path

  abbrev pub stored : World v → FileEntry → Option Bytes
  stored w e = v.bucket.object w.objects (get_full_key v.prefix e.path)

  -- From one world to a later one: the disk is the same, and so is every row but the entry's. That is
  -- the same too, or it lost its mark and the bucket has what was staged, if anything was.
  pub record IsSafe (w w' : World v) (e : FileEntry) : Type 0 where
    pub disk : w'.disk ≡ w.disk
    pub others : (q : Bytes) → q ≢ e.path → v.database.row w'.db q ≡ v.database.row w.db q
    pub mark :
        (v.database.row w'.db e.path ≡ some e)
        ⊎ ((t : ℕ) × (v.database.row w'.db e.path ≡ some (clean e t))
            × ((staged w e ≡ none) ⊎ (stored w' e ≡ staged w e)))

  module _ (l : Lawful v.database) (w0 : World v) (e : FileEntry)
      (here : v.database.row w0.db e.path ≡ some e) (normal : normalize_path e.path ≡ e.path) where
    same-IsSafe : (w : World v) → w.disk ≡ w0.disk → w.db ≡ w0.db → IsSafe w0 w e
    same-IsSafe w disk db = record {
      disk = disk;
      others = λ q other. ap (λ s. v.database.row s q) db;
      mark = inl (ap (λ s. v.database.row s e.path) db ∙ here);
    }

    set_fields-IsSafe :
        (w : World v) (cs : List Column) (t : ℕ)
        → w.disk ≡ w0.disk
        → w.db ≡ w0.db
        → set_columns cs e ≡ clean e t
        → (staged w0 e ≡ none) ⊎ (stored w e ≡ staged w0 e)
        → IsSafe w0 (set_fields v w e.path cs) e
    unfolding set_fields
    set_fields-IsSafe w cs t disk db columns uploaded =
        elim (Outcome-cases (update_entry_fields v.database w.db e.path cs)) [
          | inr c ↦ let (x, h) = c in rw (set_fields, h) (same-IsSafe w disk db)
          | inl c ↦
              let (s, h) = c in
              let start : v.database.row w.db (normalize_path e.path) ≡ some e =
                rw normal (ap (λ d. v.database.row d e.path) db ∙ here) in
              let own = update_entry_fields_own v.database l w.db s e.path cs h e start in
              let safe : IsSafe w0 (record w { db = s }) e = record {
                disk = disk;
                others = λ q other.
                    update_entry_fields_other v.database l w.db s e.path cs h q
                      (λ k. other (k ∙ normal))
                    ∙ ap (λ d. v.database.row d q) db;
                mark =
                    inr (t, ap (v.database.row s) (sym normal) ∙ own ∙ ap some columns, uploaded);
              } in
              rw (set_fields, h) safe
        ]

    cleared_columns : set_columns (set_local_dirty false ∷ []) e ≡ clean e e.s3_verified_at
    unfolding set_columns
    cleared_columns = refl

    uploaded_columns :
        (t : ℕ) → set_columns (set_local_dirty false ∷ set_s3_verified_at t ∷ []) e ≡ clean e t
    unfolding set_columns
    uploaded_columns t = refl

    upload-IsSafe :
        LawfulBucket v.bucket
        → (bytes : Bytes) (t : ℕ) → staged w0 e ≡ some bytes
        → IsSafe w0 (upload v w0 e bytes t) e
    unfolding upload
    upload-IsSafe b bytes t waiting =
        let r = put_object_from_reader v.bucket v.prefix w0.objects e.path bytes e.size in
        let w1 : World v = record w0 { objects = r.1 } in
        elim (Option-cases r.0) [
          | inr c ↦ let (m, h) = c in rw (upload, h) (same-IsSafe w1 refl refl)
          | inl h ↦
              let stays : stored w1 e ≡ some bytes =
                put_object_from_reader_stores v.bucket v.prefix b w0.objects e.path bytes e.size
                  h in
              rw (upload, h)
                (set_fields-IsSafe w1 (set_local_dirty false ∷ set_s3_verified_at t ∷ []) t refl
                  refl (uploaded_columns t) (inr (stays ∙ sym waiting)))
        ]

    -- Over a database and a bucket that keep their promises, where the entry is the row of its path
    -- and that is normal, a turn of processWriteback leaves the disk and every other row alone. The
    -- entry's row keeps its mark, or it loses it and nothing else but the time of its verification,
    -- and then the bucket has the bytes of the staging file, or there is none.
    pub write_back-IsSafe : LawfulBucket v.bucket → (t : ℕ) → IsSafe w0 (write_back v w0 e t) e
    unfolding write_back
    write_back-IsSafe b t = elim (Bool-cases (is_empty e.local_staging_path)) [
      | inl unstaged ↦
          rw (write_back, unstaged)
            (set_fields-IsSafe w0 (set_local_dirty false ∷ []) e.s3_verified_at refl refl
              cleared_columns (inl (rw unstaged refl)))
      | inr named ↦ elim (Option-cases (w0.disk.fault open_file e.local_staging_path)) [
        | inr c ↦ let (m, h) = c in rw (write_back, named, h) (same-IsSafe w0 refl refl)
        | inl opens ↦ elim (Option-cases (file w0.disk e.local_staging_path)) [
          | inl missing ↦
              rw (write_back, named, opens, missing)
                (set_fields-IsSafe w0 (set_local_dirty false ∷ []) e.s3_verified_at refl refl
                  cleared_columns (inl (rw named missing)))
          | inr c ↦
              let (bytes, h) = c in
              rw (write_back, named, opens, h) (upload-IsSafe b bytes t (rw named h))
        ]
      ]
    ]

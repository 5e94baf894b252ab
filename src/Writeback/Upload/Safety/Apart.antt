-- ===== src/Writeback/Upload/Safety/Apart.antt =====
-- What a turn of processWriteback leaves alone: all but the row and the object of its entry.
use s3_2_smb.Base.{
  ℕ, ◌+◌, Bytes, ◌≡◌, ◌≢◌, ◌∙◌, refl, inl, inr, false, List, [], ◌∷◌, ltb, Bool-cases, Option-cases,
}
use s3_2_smb.Disk.{open_file, file}
use s3_2_smb.Metadata.Paths.{normalize_path, is_empty}
use s3_2_smb.Metadata.Entry.{FileEntry}
use s3_2_smb.Metadata.Database.{Lawful, Column, set_local_dirty, set_s3_verified_at}
use s3_2_smb.Metadata.Repository.{update_entry_fields}
use s3_2_smb.Metadata.Repository.Laws.{Outcome-cases, update_entry_fields_other}
use s3_2_smb.S3client.{get_full_key, put_object_from_reader}
use s3_2_smb.S3client.Laws.{LawfulBucket, put_object_from_reader_other}
use s3_2_smb.Fuse.World.{Environment, World}
use s3_2_smb.Writeback.Upload.{set_fields, upload, write_back, write_back_idle}

module _ (v : Environment) (l : Lawful v.database) (b : LawfulBucket v.bucket) where
  -- A turn of an entry leaves the disk, the other rows and the other rows' objects alone.
  pub record Apart (w w' : World v) (p : Bytes) : Type 0 where
    pub disk : w'.disk ≡ w.disk
    pub rows : (q : Bytes) → q ≢ p → v.database.row w'.db q ≡ v.database.row w.db q
    pub objects :
        (q : Bytes)
        → q ≢ p
        → v.bucket.object w'.objects (get_full_key v.prefix q)
          ≡ v.bucket.object w.objects (get_full_key v.prefix q)

  same-Apart : (w : World v) (p : Bytes) → Apart w w p
  same-Apart w p = record { disk = refl; rows = λ q other. refl; objects = λ q other. refl }

  trans-Apart : (w w1 w2 : World v) (p : Bytes) → Apart w w1 p → Apart w1 w2 p → Apart w w2 p
  trans-Apart w w1 w2 p f g = record {
    disk = g.disk ∙ f.disk;
    rows = λ q other. g.rows q other ∙ f.rows q other;
    objects = λ q other. g.objects q other ∙ f.objects q other;
  }

  set_fields-Apart :
      (w : World v) (p : Bytes) (cs : List Column)
      → normalize_path p ≡ p
      → Apart w (set_fields v w p cs) p
  unfolding set_fields
  set_fields-Apart w p cs normal = elim (Outcome-cases (update_entry_fields v.database w.db p cs)) [
    | inr c ↦ let (x, h) = c in rw (set_fields, h) (same-Apart w p)
    | inl c ↦
        let (s, h) = c in
        let apart : Apart w (record w { db = s }) p = record {
          disk = refl;
          rows = λ q other.
              update_entry_fields_other v.database l w.db s p cs h q (λ k. other (k ∙ normal));
          objects = λ q other. refl;
        } in
        rw (set_fields, h) apart
  ]

  upload-Apart :
      (w : World v) (e : FileEntry) (bytes : Bytes) (t : ℕ)
      → normalize_path e.path ≡ e.path
      → Apart w (upload v w e bytes t) e.path
  unfolding upload
  upload-Apart w e bytes t normal =
      let r = put_object_from_reader v.bucket v.prefix w.objects e.path bytes e.size in
      let w1 : World v = record w { objects = r.1 } in
      let put : Apart w w1 e.path = record {
        disk = refl;
        rows = λ q other. refl;
        objects = λ q other.
            put_object_from_reader_other v.bucket v.prefix b w.objects e.path bytes q e.size other;
      } in
      let cs = set_local_dirty false ∷ set_s3_verified_at t ∷ [] in
      elim (Option-cases r.0) [
        | inr c ↦ let (m, h) = c in rw (upload, h) put
        | inl h ↦
            rw (upload, h)
              (trans-Apart w w1 (set_fields v w1 e.path cs) e.path put
                (set_fields-Apart w1 e.path cs normal))
      ]

  write_back-Apart :
      (w : World v) (e : FileEntry) (t : ℕ)
      → normalize_path e.path ≡ e.path
      → Apart w (write_back v w e t) e.path
  unfolding write_back
  write_back-Apart w e t normal = elim (Bool-cases (is_empty e.local_staging_path)) [
    | inl unstaged ↦
        rw (write_back, unstaged) (set_fields-Apart w e.path (set_local_dirty false ∷ []) normal)
    | inr named ↦ elim (Option-cases (w.disk.fault open_file e.local_staging_path)) [
      | inr c ↦ let (m, h) = c in rw (write_back, named, h) (same-Apart w e.path)
      | inl opens ↦ elim (Option-cases (file w.disk e.local_staging_path)) [
        | inl missing ↦
            rw (write_back, named, opens, missing)
              (set_fields-Apart w e.path (set_local_dirty false ∷ []) normal)
        | inr c ↦
            let (bytes, h) = c in rw (write_back, named, opens, h) (upload-Apart w e bytes t normal)
      ]
    ]
  ]

  pub idle-Apart :
      (now idle : ℕ) (w : World v) (e : FileEntry) (t : ℕ)
      → normalize_path e.path ≡ e.path
      → Apart w (write_back_idle v now idle w e t) e.path
  unfolding write_back_idle
  idle-Apart now idle w e t normal = elim (Bool-cases (ltb now (e.mod_time + idle))) [
    | inl fresh ↦ rw (write_back_idle, fresh) (same-Apart w e.path)
    | inr old ↦ rw (write_back_idle, old) (write_back-Apart w e t normal)
  ]

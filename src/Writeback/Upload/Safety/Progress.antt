-- ===== src/Writeback/Upload/Safety/Progress.antt =====
-- What a whole run of processWriteback does for one entry, where nothing fails.
use mathlib.Core.Path.{subst}
use s3_2_smb.Base.{
  ℕ, suc, ◌+◌, Bytes, ◌≡◌, ◌≢◌, ◌∙◌, refl, sym, ap, ◌⊎◌, inl, inr, true, false, none, some, List,
  [], ◌∷◌, eqb, eqb_iff, ltb, ok, length, Bool-cases, arith,
}
use s3_2_smb.Disk.{open_file, file}
use s3_2_smb.Metadata.Paths.{normalize_path, is_empty}
use s3_2_smb.Metadata.Entry.{FileEntry, Error, failed}
use s3_2_smb.Metadata.Database.{
  Lawful, Column, set_columns, set_local_dirty, set_s3_verified_at, Member, dirty_is, selects,
}
use s3_2_smb.Metadata.Repository.{update_entry_fields}
use s3_2_smb.Metadata.Repository.Laws.{Outcome-cases, update_entry_fields_own}
use s3_2_smb.S3client.{get_full_key, put_object_from_reader}
use s3_2_smb.S3client.Laws.{LawfulBucket, put_object_from_reader_stores}
use s3_2_smb.Fuse.World.{Environment, World}
use s3_2_smb.Writeback.Upload.{
  Schedule, set_fields, upload, write_back, write_back_idle, write_back_all, process_writeback,
}
use s3_2_smb.Writeback.Upload.Safety.{clean}
use s3_2_smb.Writeback.Upload.Safety.Apart.{Apart, idle-Apart}

-- The entry's row lost its mark, and the bucket has the bytes.
abbrev pub Written : (v : Environment) → FileEntry → Bytes → World v → Type 0
Written v e bytes w =
    (t : ℕ) × (v.database.row w.db e.path ≡ some (clean e t))
    × (v.bucket.object w.objects (get_full_key v.prefix e.path) ≡ some bytes)

module _ (v : Environment) (l : Lawful v.database) (b : LawfulBucket v.bucket)
    (takes : (s : v.database.State) (p : Bytes) (cs : List Column) (x : Error)
      → update_entry_fields v.database s p cs ≢ failed x)
    (accepts : (s : v.bucket.State) (k : Bytes) (c : Bytes) (n : ℕ)
      → n ≡ length c
      → (put_object_from_reader v.bucket v.prefix s k c n).0 ≡ none)
    (e : FileEntry) (bytes : Bytes) (sized : e.size ≡ length bytes)
    (normal : normalize_path e.path ≡ e.path) where
  -- The entry's row is as it was, but for the mark and the time of the verification.
  abbrev Near : World v → Type 0
  Near w =
      (v.database.row w.db e.path ≡ some e)
      ⊎ ((t : ℕ) × (v.database.row w.db e.path ≡ some (clean e t)))

  set_fields_own :
      (w : World v) (cs : List Column) (r : FileEntry)
      → v.database.row w.db e.path ≡ some r
      → (v.database.row (set_fields v w e.path cs).db e.path ≡ some (set_columns cs r))
        × ((set_fields v w e.path cs).objects ≡ w.objects)
  unfolding set_fields
  set_fields_own w cs r h = elim (Outcome-cases (update_entry_fields v.database w.db e.path cs)) [
    | inr c ↦ let (x, g) = c in absurd (takes w.db e.path cs x g)
    | inl c ↦
        let (s, g) = c in
        let own =
          update_entry_fields_own v.database l w.db s e.path cs g r
            (ap (v.database.row w.db) normal ∙ h) in
        rw (set_fields, g) (ap (v.database.row s) (sym normal) ∙ own, refl)
  ]

  upload_columns :
      (t : ℕ) (w : World v)
      → Near w
      → (r : FileEntry) × (v.database.row w.db e.path ≡ some r)
        × (set_columns (set_local_dirty false ∷ set_s3_verified_at t ∷ []) r ≡ clean e t)
  unfolding set_columns
  upload_columns t w (inl h) = (e, h, refl)
  upload_columns t w (inr (u, h)) = (clean e u, h, refl)

  upload-Written : (w : World v) (t : ℕ) → Near w → Written v e bytes (upload v w e bytes t)
  unfolding upload
  upload-Written w t near =
      let r = put_object_from_reader v.bucket v.prefix w.objects e.path bytes e.size in
      let h : r.0 ≡ none = accepts w.objects e.path bytes e.size sized in
      let w1 : World v = record w { objects = r.1 } in
      let (x, row, columns) = upload_columns t w near in
      let (own, same) =
        set_fields_own w1 (set_local_dirty false ∷ set_s3_verified_at t ∷ []) x row in
      let stays : v.bucket.object r.1 (get_full_key v.prefix e.path) ≡ some bytes =
        put_object_from_reader_stores v.bucket v.prefix b w.objects e.path bytes e.size h in
      rw (upload, h)
        (
          t,
          own ∙ ap some columns,
          ap (λ o. v.bucket.object o (get_full_key v.prefix e.path)) same ∙ stays,
        )

  module _ (w0 : World v) (named : is_empty e.local_staging_path ≡ false)
      (opens : w0.disk.fault open_file e.local_staging_path ≡ none)
      (there : file w0.disk e.local_staging_path ≡ some bytes) where
    write_back-Written :
        (w : World v) (t : ℕ) → w.disk ≡ w0.disk → Near w → Written v e bytes (write_back v w e t)
    unfolding write_back
    write_back-Written w t same near =
        let opens' : w.disk.fault open_file e.local_staging_path ≡ none =
          ap (λ d. d.fault open_file e.local_staging_path) same ∙ opens in
        let there' : file w.disk e.local_staging_path ≡ some bytes =
          ap (λ d. file d e.local_staging_path) same ∙ there in
        rw (write_back, named, opens', there') (upload-Written w t near)

    module _ (r : Schedule) (now idle : ℕ) (lasts : (k : ℕ) → r.cancelled k ≡ none)
        (old : ltb now (e.mod_time + idle) ≡ false) (here : v.database.row w0.db e.path ≡ some e)
        (normals : (p : Bytes) (x : FileEntry)
          → v.database.row w0.db p ≡ some x
          → normalize_path p ≡ p) where
      own-Written :
          (w : World v) (t : ℕ)
          → w.disk ≡ w0.disk
          → Near w
          → Written v e bytes (write_back_idle v now idle w e t)
      unfolding write_back_idle
      own-Written w t same near = rw (write_back_idle, old) (write_back-Written w t same near)

      module _ (w w' : World v) (p : Bytes) (other : e.path ≢ p) (apart : Apart v l b w w' p) where
        apart-Near : Near w → Near w'
        apart-Near (inl h) = inl (apart.rows e.path other ∙ h)
        apart-Near (inr (t, h)) = inr (t, apart.rows e.path other ∙ h)

        apart-Written : Written v e bytes w → Written v e bytes w'
        apart-Written (t, h, g) = (t, apart.rows e.path other ∙ h, apart.objects e.path other ∙ g)

        -- What is still to do, or done, is so after another entry's turn.
        apart_still :
            (xs : List FileEntry) (x : FileEntry)
            → x.path ≡ p
            → Member e (x ∷ xs) ⊎ Written v e bytes w
            → Member e xs ⊎ Written v e bytes w'
        apart_still xs x at (inl (inl h)) = absurd (other (ap (λ z. z.path) h ∙ at))
        apart_still xs x at (inl (inr m)) = inl m
        apart_still xs x at (inr h) = inr (apart-Written h)

      only_row : (x : FileEntry) → v.database.row w0.db x.path ≡ some x → x.path ≡ e.path → e ≡ x
      only_row x row same =
          let both : some x ≡ some e = sym row ∙ ap (v.database.row w0.db) same ∙ here in cc

      finished : (w : World v) → Member e [] ⊎ Written v e bytes w → Written v e bytes w
      finished w (inl m) = absurd m
      finished w (inr h) = h

      near : (w : World v) → Written v e bytes w → Near w
      near w (t, h, g) = inr (t, h)

      write_back_all-Written :
          (k : ℕ) (w : World v) (xs : List FileEntry)
          → ((x : FileEntry) → Member x xs → v.database.row w0.db x.path ≡ some x)
          → w.disk ≡ w0.disk
          → Near w
          → Member e xs ⊎ Written v e bytes w
          → Written v e bytes (write_back_all v r now idle k w xs).1
      unfolding write_back_all
      write_back_all-Written k w [] rows same close todo = finished w todo
      write_back_all-Written k w (x ∷ xs) rows same close todo =
          let w' = write_back_idle v now idle w x (r.clock k) in
          let row = rows x (inl refl) in
          let apart = idle-Apart v l b now idle w x (r.clock k) (normals x.path x row) in
          let go =
            write_back_all-Written (suc k) w' xs (λ y m. rows y (inr m)) (apart.disk ∙ same) in
          rw (write_back_all, lasts k)
            (elim (Bool-cases (eqb e.path x.path)) [
              | inl at ↦
                  let is : e ≡ x = only_row x row (ground (arith, eqb_iff e.path x.path)) in
                  let written : Written v e bytes w' =
                    subst (λ z. Written v e bytes (write_back_idle v now idle w z (r.clock k))) is
                      (own-Written w (r.clock k) same close) in
                  go (near w' written) (inr written)
              | inr away ↦
                  let other : e.path ≢ x.path = λ h. ground (arith, eqb_iff e.path x.path, h) in
                  go (apart-Near w w' x.path other apart close)
                    (apart_still w w' x.path other apart xs x refl todo)
            ])

      -- Over a database and a bucket that keep their promises and take every update and every upload
      -- of the right length, with normal paths only, a run of processWriteback that is not cancelled
      -- and whose query is answered brings an idle dirty entry to the bucket: if its staging file is
      -- there, can be opened and is as long as the entry says, its row ends without its mark, with
      -- the time of the upload and otherwise as it was, and the bucket has the staging file's bytes.
      pub process_writeback-Written :
          (found : List FileEntry)
          → v.database.find w0.db (dirty_is true) ≡ ok found
          → e.local_dirty ≡ true
          → Written v e bytes (process_writeback v r now idle w0).1
      unfolding process_writeback selects
      process_writeback-Written xs h dirty =
          let selected : selects v.database.like (dirty_is true) e ≡ true = dirty in
          rw (process_writeback, h)
            (write_back_all-Written 0 w0 xs (λ x m. (l.find_sound w0.db (dirty_is true) xs x h m).0)
              refl (inl here)
              (inl (l.find_complete w0.db (dirty_is true) xs e.path e h here selected)))

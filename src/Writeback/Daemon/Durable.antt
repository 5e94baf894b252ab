-- ===== src/Writeback/Daemon/Durable.antt =====
-- What was flushed is in its staging file or in the bucket, whatever the background job does.
use mathlib.Core.Path.{subst}
use s3_2_smb.Base.{
  ℕ, Bytes, ◌≡◌, ◌≢◌, ◌∙◌, sym, refl, ap, ◌⊎◌, inl, inr, true, false, some, List, [], ◌∷◌, eqb,
  eqb_iff, ltb, ◌+◌, arith, Bool-cases,
}
use s3_2_smb.Disk.{file}
use s3_2_smb.Metadata.Paths.{is_empty, normalize_path}
use s3_2_smb.Metadata.Entry.{FileEntry}
use s3_2_smb.Metadata.Database.{Lawful, Member, DistinctPaths}
use s3_2_smb.S3client.{get_full_key}
use s3_2_smb.S3client.Laws.{LawfulBucket}
use s3_2_smb.Fuse.World.{Environment, World}
use s3_2_smb.Writeback.Upload.{write_back, write_back_idle}
use s3_2_smb.Writeback.Upload.Safety.{write_back-IsSafe, clean, staged}
use s3_2_smb.Writeback.Upload.Safety.Apart.{Apart, idle-Apart}
use s3_2_smb.Writeback.Daemon.Shape.{Shape}

-- The entry's row is marked, and its staging file has the bytes.
abbrev pub Waiting : (v : Environment) → FileEntry → Bytes → World v → Type 0
Waiting v e bytes w =
    (v.database.row w.db e.path ≡ some e) × (file w.disk e.local_staging_path ≡ some bytes)

-- The row has no mark, and the bucket has the bytes.
abbrev pub Uploaded : (v : Environment) → FileEntry → Bytes → World v → Type 0
Uploaded v e bytes w =
    (x : FileEntry) × (v.database.row w.db e.path ≡ some x)
    × (x.local_dirty ≡ false)
    × (v.bucket.object w.objects (get_full_key v.prefix e.path) ≡ some bytes)

-- The rows' paths are normal, and no other row names the entry's staging file.
abbrev pub Unshared : (v : Environment) → FileEntry → World v → Type 0
Unshared v e w =
    (q : Bytes) (x : FileEntry)
    → v.database.row w.db q ≡ some x
    → (normalize_path q ≡ q) × (q ≢ e.path → x.local_staging_path ≢ e.local_staging_path)

-- The bytes of the entry are in its staging file, with the mark, or in the bucket; and the rows are
-- such that this lasts.
abbrev pub Durable : (v : Environment) → FileEntry → Bytes → World v → Type 0
Durable v e bytes w = (Waiting v e bytes w ⊎ Uploaded v e bytes w) × Unshared v e w

module _ (v : Environment) (l : Lawful v.database) (b : LawfulBucket v.bucket) (e : FileEntry)
    (bytes : Bytes) (dirty : e.local_dirty ≡ true)
    (named : is_empty e.local_staging_path ≡ false) where
  staging_named : e.local_staging_path ≢ []
  unfolding is_empty
  staging_named h = let same : is_empty e.local_staging_path ≡ true = ap is_empty h in cc

  pub Shape-Unshared : (w w' : World v) → Shape v w w' → Unshared v e w → Unshared v e w'
  Shape-Unshared w w' shape held q z h =
      let (y, row, k) = shape q z h in
      let (normal, apart) = held q y row in
      (
        normal,
        λ other same. (elim k [
          | inl kept ↦ apart other (sym kept ∙ same)
          | inr gone ↦ staging_named (sym same ∙ gone)
        ]),
      )

  module _ (w w' : World v) (p : Bytes) (apart : Apart v l b w w' p) (other : e.path ≢ p) where
    Apart-Waiting : Waiting v e bytes w → Waiting v e bytes w'
    Apart-Waiting (row, there) =
        (apart.rows e.path other ∙ row, ap (λ d. file d e.local_staging_path) apart.disk ∙ there)

    Apart-Uploaded : Uploaded v e bytes w → Uploaded v e bytes w'
    Apart-Uploaded (x, row, unmarked, stored) =
        (x, apart.rows e.path other ∙ row, unmarked, apart.objects e.path other ∙ stored)

  -- The entry's own turn.
  own_turn :
      (now idle t : ℕ) (w : World v)
      → normalize_path e.path ≡ e.path
      → Waiting v e bytes w
      → Waiting v e bytes (write_back_idle v now idle w e t)
        ⊎ Uploaded v e bytes (write_back_idle v now idle w e t)
  unfolding write_back_idle
  own_turn now idle t w normal (row, there) = elim (Bool-cases (ltb now (e.mod_time + idle))) [
    | inl fresh ↦ rw (write_back_idle, fresh) (inl (row, there))
    | inr old ↦
        let safe = write_back-IsSafe v l w e row normal b t in
        let waits : staged v w e ≡ some bytes = rw named there in
        let after : Waiting v e bytes (write_back v w e t)
            ⊎ Uploaded v e bytes (write_back v w e t) =
          elim safe.mark [
            | inl kept ↦ inl (kept, ap (λ d. file d e.local_staging_path) safe.disk ∙ there)
            | inr (time, row', inl nothing) ↦ absurd (cc)
            | inr (time, row', inr stored) ↦ inr (clean e time, row', refl, stored ∙ waits)
          ] in
        rw (write_back_idle, old) after
  ]

  -- What is left of a run: the entry waits, or it is uploaded and has no turn any more.
  abbrev pub Todo : List FileEntry → World v → Type 0
  Todo xs w =
      Waiting v e bytes w
      ⊎ (Uploaded v e bytes w × ((x : FileEntry) → Member x xs → x.path ≢ e.path))

  module _ (w0 : World v) (held0 : Unshared v e w0) where
    pub turn-Todo :
        (now idle t : ℕ) (w : World v) (x : FileEntry) (xs : List FileEntry)
        → v.database.row w0.db x.path ≡ some x
        → (e.path ≡ x.path → e ≡ x)
        → DistinctPaths (x ∷ xs)
        → Todo (x ∷ xs) w
        → Todo xs (write_back_idle v now idle w x t)
    turn-Todo now idle t w x xs row only (fresh, distinct) todo =
        elim (Bool-cases (eqb e.path x.path)) [
          | inr away ↦
              let other : e.path ≢ x.path = λ h. ground (arith, eqb_iff e.path x.path, h) in
              let apart = idle-Apart v l b now idle w x t (held0 x.path x row).0 in
              let w' = write_back_idle v now idle w x t in
              elim todo [
                | inl waiting ↦ inl (Apart-Waiting w w' x.path apart other waiting)
                | inr (uploaded, none_left) ↦
                    inr
                      (Apart-Uploaded w w' x.path apart other uploaded, λ y m. none_left y (inr m))
              ]
          | inl at ↦
              let same : e.path ≡ x.path = ground (arith, eqb_iff e.path x.path) in
              let is = only same in
              elim todo [
                | inr (uploaded, none_left) ↦ absurd (none_left x (inl refl) (sym same))
                | inl waiting ↦
                    let normal : normalize_path e.path ≡ e.path =
                      subst (λ p. normalize_path p ≡ p) (sym same) (held0 x.path x row).0 in
                    let last : (y : FileEntry) → Member y xs → y.path ≢ e.path =
                      λ y m h. fresh y m (h ∙ same) in
                    let result : Todo xs (write_back_idle v now idle w e t) =
                      elim (own_turn now idle t w normal waiting) [
                        | inl again ↦ inl again
                        | inr uploaded ↦ inr (uploaded, last)
                      ] in
                    subst (λ z. Todo xs (write_back_idle v now idle w z t)) is result
              ]
        ]

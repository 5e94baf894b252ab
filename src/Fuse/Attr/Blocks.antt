-- ===== src/Fuse/Attr/Blocks.antt =====
-- The blocks of 512 bytes that a file's attributes give.
use mathlib.Core.Path.{subst}
use s3_2_smb.Base.{
  ℕ, ◌+◌, ◌*◌, ◌<◌, ◌≤◌, Bytes, ◌≡◌, refl, inl, inr, Option, none, some, word, arith,
}
use s3_2_smb.Metadata.Entry.{FileEntry, Error, err_not_found, done, failed}
use s3_2_smb.Metadata.Repository.{get_entry}
use s3_2_smb.Metadata.Repository.Laws.{Outcome-cases}
use s3_2_smb.Fuse.World.{Environment, World}
use s3_2_smb.Fuse.Attr.{Attr, blocks_of, entry_file_attr, stale_file_attr, fall_back, file_attr}

-- The blocks hold the size, and the last one is not empty.
abbrev pub Covers : Attr → Type 0
Covers a = (b : ℕ) × (a.blocks ≡ some b) × (a.size ≤ 512 * b) × (512 * b < a.size + 512)

covered : (a : Attr) → a.size + 511 < word → a.blocks ≡ some (blocks_of a.size) → Covers a
covered a small h = (blocks_of a.size, h, omega (arith, small), omega (arith, small))

module _ (v : Environment) (w : World v) (path : Bytes) (now : ℕ) (a : Attr)
    (small : a.size + 511 < word) where
  filled : (x : Attr) → x.blocks ≡ some (blocks_of x.size) → done x ≡ done a → Covers a
  filled x h k =
      let is : x ≡ a = cc in covered a small (subst (λ z. z.blocks ≡ some (blocks_of z.size)) is h)

  without_row :
      (entry : Option FileEntry) (x : Error)
      → get_entry v.database w.db path ≡ failed x
      → (file_attr v w path entry now).0 ≡ done a
      → Covers a
  unfolding file_attr
  without_row none err_not_found got = rw (file_attr, got) (λ h. absurd (cc))
  without_row (some e) err_not_found got =
      rw (file_attr, got) (filled (stale_file_attr path e) refl)
  without_row entry _ got = rw (file_attr, got) (λ h. absurd (cc))

  -- The attributes of a file whose size and 511 are below 2 ^ 64 have as many blocks of 512 bytes as
  -- hold the size, and no more.
  pub file_attr-Covers :
      (entry : Option FileEntry) → (file_attr v w path entry now).0 ≡ done a → Covers a
  unfolding file_attr entry_file_attr
  file_attr-Covers entry = elim (Outcome-cases (get_entry v.database w.db path)) [
    | inr c ↦ let (x, got) = c in without_row entry x got
    | inl c ↦
        let (e, got) = c in
        let (e1, w1) = fall_back v w path e now in
        rw (file_attr, got) (filled (entry_file_attr path e1) refl)
  ]

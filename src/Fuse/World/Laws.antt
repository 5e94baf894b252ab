-- ===== src/Fuse/World/Laws.antt =====
-- Dropping cached chunks leaves the database and the bucket alone.
use s3_2_smb.Base.{Bytes, ◌≡◌, refl, Option-cases, inl, inr}
use s3_2_smb.Fuse.World.{Environment, World, invalidate}

module _ (v : Environment) where
  pub invalidate_keeps :
      (w : World v) (path : Bytes)
      → ((invalidate v w path).db ≡ w.db) × ((invalidate v w path).objects ≡ w.objects)
  unfolding invalidate
  invalidate_keeps w path = elim (Option-cases w.chunks) [
    | inl e ↦ rw (e, invalidate) (refl, refl)
    | inr c ↦ let (m, e) = c in rw (e, invalidate) (refl, refl)
  ]

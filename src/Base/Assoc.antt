-- ===== src/Base/Assoc.antt =====
-- Association lists with byte strings for keys, for Go's maps.
use s3_2_smb.Base.Tests.{Bytes, eqb, eqb_iff, if◌then◌else◌}
use mathlib.Core.Path.{◌≡◌}
use mathlib.Core.Option.{Option, none, some}
use mathlib.Core.List.{List, [], ◌∷◌}
use native.Mathlib.Omega.{arith}

module _ {ℓ} {V : Type ℓ} where
  unfoldable pub lookup : Bytes → List (Bytes × V) → Option V
  lookup p [] = none
  lookup p ((q, d) ∷ fs) = if eqb q p then some d else lookup p fs

  unfoldable pub erase : Bytes → List (Bytes × V) → List (Bytes × V)
  erase p [] = []
  erase p ((q, d) ∷ fs) = let rest = erase p fs in if eqb q p then rest else (q, d) ∷ rest

  pub lookup-erase :
      (p q : Bytes) (fs : List (Bytes × V))
      → lookup q (erase p fs) ≡ (if eqb p q then none else lookup q fs)
  unfolding lookup erase
  lookup-erase p q [] = ground arith
  lookup-erase p q ((r, d) ∷ fs) =
      ground (arith, lookup-erase p q fs, eqb_iff r p, eqb_iff r q, eqb_iff p q)

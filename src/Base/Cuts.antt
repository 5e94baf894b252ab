-- ===== src/Base/Cuts.antt =====
-- What taking and dropping do to one another.
use Prim.Native.Nat.{ℕ, zero, suc, ◌+◌, ◌≤◌}
use mathlib.Core.Path.{◌≡◌, refl, ap, sym}
use mathlib.Core.List.{List, [], ◌∷◌, ◌++◌}
use native.Mathlib.Nat.{suc-add}
use native.Mathlib.Omega.{arith}
use s3_2_smb.Base.Lists.{length, take, drop}

module _ {ℓ} {A : Type ℓ} where
  pub drop-nil : (n : ℕ) → drop {A = A} n [] ≡ []
  drop-nil zero = refl
  drop-nil (suc n) = refl

  pub take-nil : (n : ℕ) → take {A = A} n [] ≡ []
  take-nil zero = refl
  take-nil (suc n) = refl

  pub drop-drop : (m n : ℕ) (l : List A) → drop m (drop n l) ≡ drop (n + m) l
  drop-drop m zero l = ap (λ k. drop k l) (omega arith)
  drop-drop m (suc n) [] = rw suc-add (drop-nil m)
  drop-drop m (suc n) (a ∷ l) = rw suc-add (drop-drop m n l)

  pub drop_of_length-le : (n : ℕ) (l : List A) → length l ≤ n → drop n l ≡ []
  drop_of_length-le zero [] h = refl
  drop_of_length-le zero (a ∷ l) h = absurd (omega arith)
  drop_of_length-le (suc n) [] h = refl
  drop_of_length-le (suc n) (a ∷ l) h = drop_of_length-le n l (omega arith)

  pub take_of_length-le : (n : ℕ) (l : List A) → length l ≤ n → take n l ≡ l
  take_of_length-le zero [] h = refl
  take_of_length-le zero (a ∷ l) h = absurd (omega arith)
  take_of_length-le (suc n) [] h = refl
  take_of_length-le (suc n) (a ∷ l) h = ap (◌∷◌ a) (take_of_length-le n l (omega arith))

  -- A cut out of the first `c` elements, which ends before they do.
  pub take-drop-take :
      (w k c : ℕ) (l : List A) → k + w ≤ c → take w (drop k (take c l)) ≡ take w (drop k l)
  take-drop-take zero k c l h = refl
  take-drop-take (suc w) k zero l h = absurd (omega arith)
  take-drop-take (suc w) zero (suc c) [] h = refl
  take-drop-take (suc w) zero (suc c) (a ∷ l) h =
      ap (◌∷◌ a) (take-drop-take w zero c l (omega arith))
  take-drop-take (suc w) (suc k) (suc c) [] h = refl
  take-drop-take (suc w) (suc k) (suc c) (a ∷ l) h = take-drop-take (suc w) k c l (omega arith)

  pub take-add : (m n : ℕ) (l : List A) → take (m + n) l ≡ take m l ++ take n (drop m l)
  take-add zero n l = ap (λ k. take k l) (omega arith)
  take-add (suc m) n [] = rw suc-add (sym (take-nil n))
  take-add (suc m) n (a ∷ l) = rw suc-add (ap (◌∷◌ a) (take-add m n l))

-- ===== src/Base/Digits.antt =====
-- fmt's %d and %o of an unsigned number, and the digits that Sscanf reads back.
use Prim.Native.Nat.{ℕ, zero, suc, ◌+◌, ◌-◌, ◌*◌, ◌/◌, ◌%◌, ◌≤◌, ◌<◌}
use mathlib.Core.Path.{◌≡◌, ◌∙◌, ap, sym}
use mathlib.Core.Logic.{inl, inr}
use mathlib.Core.Bool.{Bool, ◌&&◌}
use mathlib.Core.List.{[], ◌∷◌, ◌++◌}
use native.Mathlib.Omega.{arith}
use native.Mathlib.Nat.{div-add-mod', mod-lt, div-lt_self}
use s3_2_smb.Base.Tests.{Bytes, ltb, leb, if◌then◌else◌, Bool-cases}

-- The digits of a number in base b, in front of a text; the fuel is more than the number.
unfoldable pub print_digits : ℕ → ℕ → ℕ → Bytes → Bytes
print_digits b zero n rest = rest
print_digits b (suc f) n rest =
    let more = print_digits b f (n / b) ((n % b + 48) ∷ rest) in
    if ltb n b then (n + 48) ∷ rest else more

unfoldable pub print_number : ℕ → ℕ → Bytes
unfolding print_digits
print_number b n = print_digits b (n + 1) n []

-- The value of a run of digits, after a number that was read before it.
unfoldable pub read_digits : ℕ → ℕ → Bytes → ℕ
read_digits b n [] = n
read_digits b n (c ∷ s) = read_digits b (n * b + (c - 48)) s

abbrev pub is_digit : ℕ → ℕ → Bool
is_digit b c = leb 48 c && ltb c (48 + b)

abbrev pub AllDigits : ℕ → Bytes → Type 0
AllDigits b [] = Unit
AllDigits b (c ∷ s) = (48 ≤ c) × (c < 48 + b) × AllDigits b s

module _ (b : ℕ) (base : 2 ≤ b) where
  pub read_digits-print_digits :
      (f n : ℕ) (rest : Bytes)
      → n < f
      → read_digits b 0 (print_digits b f n rest) ≡ read_digits b n rest
  unfolding read_digits print_digits
  read_digits-print_digits zero n rest h = absurd (omega arith)
  read_digits-print_digits (suc f) n rest h = elim (Bool-cases (ltb n b)) [
    | inl small ↦ rw small (ap (λ k. read_digits b k rest) (omega arith))
    | inr large ↦ rw large (
        read_digits-print_digits f (n / b) ((n % b + 48) ∷ rest)
          (let p = div-lt_self {n = n} {k = b} (ground arith) base in omega arith)
        ∙ ap (λ k. read_digits b k rest) (omega (arith, div-add-mod' n b)))
  ]

  pub print_digits-AllDigits :
      (f n : ℕ) (rest : Bytes) → AllDigits b rest → AllDigits b (print_digits b f n rest)
  unfolding print_digits
  print_digits-AllDigits zero n rest h = h
  print_digits-AllDigits (suc f) n rest h = elim (Bool-cases (ltb n b)) [
    | inl small ↦ rw small (omega arith, ground arith, h)
    | inr large ↦ rw large (
        print_digits-AllDigits f (n / b) ((n % b + 48) ∷ rest)
          (omega arith, let p : n % b < b = mod-lt n (omega arith) in omega arith, h))
  ]

  -- Printing a number and reading it gives the number back.
  pub read_digits-print_number : (n : ℕ) → read_digits b 0 (print_number b n) ≡ n
  unfolding read_digits print_number
  read_digits-print_number n = read_digits-print_digits (n + 1) n [] (omega arith)

  pub print_number-AllDigits : (n : ℕ) → AllDigits b (print_number b n)
  unfolding print_number
  print_number-AllDigits n = print_digits-AllDigits (n + 1) n [] tt

  -- Different numbers print differently.
  pub print_number_inj : (m n : ℕ) → print_number b m ≡ print_number b n → m ≡ n
  print_number_inj m n h =
      sym (read_digits-print_number m) ∙ ap (read_digits b 0) h ∙ read_digits-print_number n

-- A text of digits has no other byte in it.
pub not_AllDigits : (b c : ℕ) (s t : Bytes) → c < 48 → ¬ AllDigits b (s ++ c ∷ t)
not_AllDigits b c [] t h d = omega arith
not_AllDigits b c (x ∷ s) t h d = not_AllDigits b c s t h d.2

-- ===== src/Sync/Parents/Split.antt =====
-- The directories that a path lies below, as ensureParentDirs takes them from the path's parts.
use s3_2_smb.Base.{
  ℕ, zero, suc, ◌+◌, ◌-◌, ◌≤◌, ◌<◌, Bytes, ◌≡◌, ◌∙◌, refl, sym, ap, inl, inr, true, List, [], ◌∷◌,
  ◌++◌, ◌==◌, eqb, eqb_refl, length, take, length-append, arith, Bool-cases,
}
use s3_2_smb.Metadata.Paths.{join}
use s3_2_smb.Sync.Objects.{member, split, dir_paths, parent_dirs}

-- A text has a part at least.
split_some : (c : ℕ) (s : Bytes) → (p : Bytes) × (ps : List Bytes) × (split c s ≡ p ∷ ps)
unfolding split
split_some c [] = ([], [], refl)
split_some c (x ∷ s) =
    let (p, ps, h) = split_some c s in
    elim (Bool-cases (x == c)) [
      | inl same ↦ rw (split, h, same) ([], p ∷ ps, refl)
      | inr other ↦ rw (split, h, other) (x ∷ p, ps, refl)
    ]

split-append : (c : ℕ) (p rest : Bytes) → split c (p ++ c ∷ rest) ≡ split c p ++ split c rest
unfolding split
split-append c [] rest =
    let (q, qs, h) = split_some c rest in
    let same : (c == c) ≡ true = ground arith in rw (split, h, same) refl
split-append c (x ∷ p) rest =
    let (q, qs, h) = split_some c p in
    let both : split c (p ++ c ∷ rest) ≡ q ∷ (qs ++ split c rest) =
      split-append c p rest ∙ ap (λ l. l ++ split c rest) h in
    elim (Bool-cases (x == c)) [
      | inl same ↦ rw (split, both, h, same) refl
      | inr other ↦ rw (split, both, h, other) refl
    ]

join_cons :
    (sep : Bytes) (x : ℕ) (p : Bytes) (ps : List Bytes)
    → join sep ((x ∷ p) ∷ ps) ≡ x ∷ join sep (p ∷ ps)
unfolding join
join_cons sep x p [] = refl
join_cons sep x p (q ∷ qs) = refl

-- Joining a text's parts gives the text.
pub join-split : (c : ℕ) (s : Bytes) → join (c ∷ []) (split c s) ≡ s
unfolding join split
join-split c [] = refl
join-split c (x ∷ s) =
    let (p, ps, h) = split_some c s in
    let rest : join (c ∷ []) (p ∷ ps) ≡ s = ap (join (c ∷ [])) (sym h) ∙ join-split c s in
    elim (Bool-cases (x == c)) [
      | inl same ↦
          let is : c ≡ x = ground (arith, same) in rw (split, h, same, rest) (ap (λ k. k ∷ s) is)
      | inr other ↦ rw (split, h, other) (join_cons (c ∷ []) x p ps ∙ ap (λ t. x ∷ t) rest)
    ]

member-dir_paths :
    (n i j : ℕ) (parts : List Bytes)
    → i ≤ j
    → j < i + n
    → member (join (b'/' ∷ []) (take j parts)) (dir_paths n i parts) ≡ true
unfolding member dir_paths
member-dir_paths zero i j parts low high = absurd (omega arith)
member-dir_paths (suc n) i j parts low high =
    elim (Bool-cases (eqb (join (b'/' ∷ []) (take i parts)) (join (b'/' ∷ []) (take j parts)))) [
      | inl same ↦ rw (dir_paths, member, same) refl
      | inr other ↦ elim (Bool-cases (i == j)) [
        | inl here ↦
            let is : i ≡ j = ground (arith, here) in
            let k : eqb (join (b'/' ∷ []) (take i parts)) (join (b'/' ∷ []) (take j parts)) ≡ true =
              ap (λ m. eqb (join (b'/' ∷ []) (take i parts)) (join (b'/' ∷ []) (take m parts)))
                (sym is)
              ∙ eqb_refl (join (b'/' ∷ []) (take i parts)) in
            absurd (cc)
        | inr later ↦
            rw (dir_paths, member, other)
              (member-dir_paths n (suc i) j parts (ground (arith, later)) (omega arith))
      ]
    ]

take-append : (l r : List Bytes) → take (length l) (l ++ r) ≡ l
take-append [] r = refl
take-append (x ∷ l) r = ap (λ k. x ∷ k) (take-append l r)

-- A path that lies below a directory has it among the directories that are ensured.
pub member-parent_dirs : (p rest : Bytes) → member p (parent_dirs (p ++ b'/' ∷ rest)) ≡ true
unfolding parent_dirs
member-parent_dirs p rest =
    let a = split b'/' p in
    let b = split b'/' rest in
    let at : take (length a) (a ++ b) ≡ a = take-append a b in
    let path : join (b'/' ∷ []) (take (length a) (a ++ b)) ≡ p =
      ap (join (b'/' ∷ [])) at ∙ join-split b'/' p in
    let (q, qs, h) = split_some b'/' p in
    let (u, us, g) = split_some b'/' rest in
    let low : 1 ≤ length a = rw h (omega arith) in
    let one : 1 ≤ length b = rw g (omega arith) in
    let found : member (join (b'/' ∷ []) (take (length a) (a ++ b)))
          (dir_paths (length (a ++ b) - 1) 1 (a ++ b))
        ≡ true =
      member-dir_paths (length (a ++ b) - 1) 1 (length a) (a ++ b) low
        (omega (arith, length-append a b, low, one)) in
    let found' : member p (dir_paths (length (a ++ b) - 1) 1 (a ++ b)) ≡ true =
      ap (λ t. member t (dir_paths (length (a ++ b) - 1) 1 (a ++ b))) (sym path) ∙ found in
    ap (λ l. member p (dir_paths (length l - 1) 1 l)) (split-append b'/' p rest) ∙ found'

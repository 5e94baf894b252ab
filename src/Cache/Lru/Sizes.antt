-- ===== src/Cache/Lru/Sizes.antt =====
-- The total size of the tracked entries, as each operation moves it.
use Prim.Native.Nat.{suc}
use s3_2_smb.Base.{
  ℕ, ◌+◌, ◌%◌, ◌<◌, ◌≡◌, ◌∙◌, none, some, List, [], ◌∷◌, inl, inr, arith, add64, word, Option-cases,
  length,
}
use s3_2_smb.Cache.Lru.{
  Element, LruTracker, LruEntry, find_element, remove_element, back, total_size, total_size_from,
  evict_oldest,
}
use s3_2_smb.Cache.Lru.Elements.{find_element-back}
use s3_2_smb.Cache.Lru.Invariant.{IsValid}
use s3_2_smb.Cache.Lru.Refinement.{back-none}

-- Every size is an int64 pattern.
abbrev pub IsSized : List Element → Type 0
IsSized [] = Unit
IsSized (e ∷ l) = (e.value.size < word) × IsSized l

-- The exact sum of the sizes.
abbrev pub sum : List Element → ℕ
sum [] = 0
sum (e ∷ l) = e.value.size + sum l

pub total_size_from-sum :
    (total : ℕ) (l : List Element) → total < word → total_size_from total l ≡ (total + sum l) % word
unfolding total_size_from
total_size_from-sum total [] h = omega arith
total_size_from-sum total (e ∷ l) h =
    total_size_from-sum (add64 total e.value.size) l (omega arith) ∙ omega arith

-- The loop of `totalSize` computes the sum, up to overflow.
pub total_size-sum : (t : LruTracker) → total_size t ≡ sum t.list % word
unfolding total_size
total_size-sum t = total_size_from-sum 0 t.list (omega arith) ∙ omega arith

pub sum-remove_element :
    (i : ℕ) (e : Element) (l : List Element)
    → find_element i l ≡ some e
    → sum l ≡ e.value.size + sum (remove_element i l)
unfolding find_element remove_element
sum-remove_element i e [] h = cc
sum-remove_element i e (f ∷ l) h = ground (arith, sum-remove_element i e l)

pub IsSized-remove_element : (i : ℕ) (l : List Element) → IsSized l → IsSized (remove_element i l)
unfolding remove_element
IsSized-remove_element i [] h = tt
IsSized-remove_element i (f ∷ l) h = ground (arith, IsSized-remove_element i l h.1)

pub size_of_IsSized :
    (i : ℕ) (e : Element) (l : List Element)
    → IsSized l
    → find_element i l ≡ some e
    → e.value.size < word
unfolding find_element
size_of_IsSized i e [] s h = cc
size_of_IsSized i e (f ∷ l) s h = ground (arith, size_of_IsSized i e l s.1)

pub length-remove_element :
    (i : ℕ) (e : Element) (l : List Element)
    → find_element i l ≡ some e
    → length l ≡ suc (length (remove_element i l))
unfolding find_element remove_element
length-remove_element i e [] h = cc
length-remove_element i e (f ∷ l) h = ground (arith, length-remove_element i e l)

-- What evicting does to the sum, when there is an entry.
pub evict_oldest-sum :
    (t : LruTracker) (e : LruEntry)
    → IsValid t
    → IsSized t.list
    → (evict_oldest t).1 ≡ some e
    → (sum t.list ≡ e.size + sum (evict_oldest t).0.list)
      × (e.size < word)
      × IsSized (evict_oldest t).0.list
      × (length t.list ≡ suc (length (evict_oldest t).0.list))
unfolding evict_oldest
evict_oldest-sum t e v s h = elim (Option-cases (back t.list)) [
  | inl empty ↦ ground arith
  | inr (f, last) ↦
      let found = find_element-back f t.list v.distinct last in
      let same : f.value ≡ e = ground arith in
      rw (last, evict_oldest, ← same)
        (
          sum-remove_element f.id f t.list found,
          size_of_IsSized f.id f t.list s found,
          IsSized-remove_element f.id t.list s,
          length-remove_element f.id f t.list found,
        )
]

-- Without an entry to evict, nothing is tracked, and nothing changes.
pub evict_oldest-empty :
    (t : LruTracker) → (evict_oldest t).1 ≡ none → (t.list ≡ []) × ((evict_oldest t).0 ≡ t)
unfolding evict_oldest
evict_oldest-empty t h = elim (Option-cases (back t.list)) [
  | inl empty ↦ (back-none t.list empty, rw (empty, evict_oldest))
  | inr (f, last) ↦ ground arith
]

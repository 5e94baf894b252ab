-- ===== src/Cache/Lru/Elements.antt =====
-- Lists of elements with distinct identities and keys: what finding and removing by identity does.
use s3_2_smb.Base.{
  ℕ, ◌<◌, ◌+◌, Bytes, ◌≡◌, refl, Option, none, some, List, [], ◌∷◌, inl, inr, arith, ◌==◌, eqb,
  eqb_iff, if◌then◌else◌, Bool-cases,
}
use s3_2_smb.Cache.Lru.{Element, find_element, remove_element, back}

-- The identity of the element with a key.
unfoldable pub id_of : Bytes → List Element → Option ℕ
id_of k [] = none
id_of k (e ∷ l) = if eqb e.value.key k then some e.id else id_of k l

abbrev pub IsDistinct : List Element → Type 0
IsDistinct [] = Unit
IsDistinct (e ∷ l) = (id_of e.value.key l ≡ none) × (find_element e.id l ≡ none) × IsDistinct l

abbrev pub IsBelow : ℕ → List Element → Type 0
IsBelow n [] = Unit
IsBelow n (e ∷ l) = (e.id < n) × IsBelow n l

pub find_element_of_IsBelow : (n : ℕ) (l : List Element) → IsBelow n l → find_element n l ≡ none
unfolding find_element
find_element_of_IsBelow n [] h = refl
find_element_of_IsBelow n (e ∷ l) h = ground (arith, find_element_of_IsBelow n l h.1)

pub IsBelow-suc : (n : ℕ) (l : List Element) → IsBelow n l → IsBelow (n + 1) l
IsBelow-suc n [] h = tt
IsBelow-suc n (e ∷ l) h = (omega arith, IsBelow-suc n l h.1)

pub IsBelow-remove_element :
    (n i : ℕ) (l : List Element) → IsBelow n l → IsBelow n (remove_element i l)
unfolding remove_element
IsBelow-remove_element n i [] h = tt
IsBelow-remove_element n i (e ∷ l) h = ground (arith, IsBelow-remove_element n i l h.1)

-- A key that is listed names an element that is there.
pub find_element-id_of :
    (k : Bytes) (i : ℕ) (l : List Element)
    → IsDistinct l
    → id_of k l ≡ some i
    → (e : Element) × (find_element i l ≡ some e) × (e.value.key ≡ k)
unfolding id_of find_element
find_element-id_of k i [] d h = cc
find_element-id_of k i (e ∷ l) d h = elim (Bool-cases (eqb e.value.key k)) [
  | inl p ↦ (e, ground arith, (eqb_iff e.value.key k).0 p)
  | inr p ↦
      let (f, found, key) = find_element-id_of k i l d.2 (ground arith) in
      (f, ground (arith, d.1), key)
]

-- An element that is there is the one of its key, and has the identity that it was found by.
pub id_of-find_element :
    (i : ℕ) (e : Element) (l : List Element)
    → IsDistinct l
    → find_element i l ≡ some e
    → (id_of e.value.key l ≡ some i) × (e.id ≡ i)
unfolding find_element id_of
id_of-find_element i e [] d h = cc
id_of-find_element i e (f ∷ l) d h =
    ground (arith, id_of-find_element i e l d.2, eqb_iff f.value.key e.value.key)

pub find_element-remove_element :
    (i j : ℕ) (l : List Element)
    → IsDistinct l
    → find_element j (remove_element i l) ≡ (if i == j then none else find_element j l)
unfolding find_element remove_element
find_element-remove_element i j [] d = ground arith
find_element-remove_element i j (e ∷ l) d = ground (arith, find_element-remove_element i j l d.2)

-- Removing an element by its identity takes its key away, and no other key.
pub id_of-remove_element :
    (i : ℕ) (e : Element) (j : Bytes) (l : List Element)
    → IsDistinct l
    → find_element i l ≡ some e
    → id_of j (remove_element i l) ≡ (if eqb e.value.key j then none else id_of j l)
unfolding find_element remove_element id_of
id_of-remove_element i e j [] d h = cc
id_of-remove_element i e j (f ∷ l) d h = ground (
  arith,
  id_of-remove_element i e j l d.2,
  eqb_iff f.value.key j,
  eqb_iff e.value.key j,
  id_of-find_element i e l d.2,
)

-- Removing only takes away.
pub id_of-remove_element-none :
    (i : ℕ) (k : Bytes) (l : List Element) → id_of k l ≡ none → id_of k (remove_element i l) ≡ none
unfolding remove_element id_of
id_of-remove_element-none i k [] h = refl
id_of-remove_element-none i k (f ∷ l) h = ground (arith, id_of-remove_element-none i k l)

pub IsDistinct-remove_element :
    (i : ℕ) (l : List Element) → IsDistinct l → IsDistinct (remove_element i l)
unfolding remove_element
IsDistinct-remove_element i [] d = tt
IsDistinct-remove_element i (f ∷ l) d = ground (
  arith,
  IsDistinct-remove_element i l d.2,
  id_of-remove_element-none i f.value.key l d.0,
  find_element-remove_element i f.id l d.2,
)

-- The back element is there, under its identity.
pub find_element-back :
    (e : Element) (l : List Element) → IsDistinct l → back l ≡ some e → find_element e.id l ≡ some e
unfolding back find_element
find_element-back e [] d h = cc
find_element-back e (f ∷ []) d h = ground arith
find_element-back e (f ∷ g ∷ l) d h = ground (arith, find_element-back e (g ∷ l) d.2 h)

pub IsBelow-find_element :
    (n i : ℕ) (e : Element) (l : List Element) → IsBelow n l → find_element i l ≡ some e → e.id < n
unfolding find_element
IsBelow-find_element n i e [] b h = cc
IsBelow-find_element n i e (f ∷ l) b h = ground (arith, IsBelow-find_element n i e l b.1)

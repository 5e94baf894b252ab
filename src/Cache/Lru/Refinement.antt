-- ===== src/Cache/Lru/Refinement.antt =====
-- What the tracker promises, without identities and pointers: a list of entries, most recently
-- used first, with one entry for each key.
use s3_2_smb.Base.{
  ℕ, Bytes, ◌≡◌, refl, sym, Option, none, some, List, [], ◌∷◌, inl, inr, arith, eqb, eqb_iff,
  if◌then◌else◌, Option-cases,
}
use s3_2_smb.Cache.Lru.{
  LruEntry, Element, LruTracker, find_element, remove_element, back, add_with_time, touch, remove,
  evict_oldest, get,
}
use s3_2_smb.Cache.Lru.Elements.{id_of, IsDistinct, id_of-find_element, find_element-back}
use s3_2_smb.Cache.Lru.Invariant.{IsValid, find_element-entries}

-- The entries of a tracker, most recently used first.
abbrev pub values : List Element → List LruEntry
values [] = []
values (e ∷ l) = e.value ∷ values l

unfoldable pub lookup : Bytes → List LruEntry → Option LruEntry
lookup k [] = none
lookup k (e ∷ l) = if eqb e.key k then some e else lookup k l

unfoldable pub without : Bytes → List LruEntry → List LruEntry
without k [] = []
without k (e ∷ l) = if eqb e.key k then l else e ∷ without k l

-- Put an entry in front, in place of the one of its key; an entry that is there keeps its path.
unfoldable pub insert : LruEntry → List LruEntry → List LruEntry
unfolding lookup without
insert n l = elim (lookup n.key l) [
  | some e ↦ record e { size = n.size; access_time = n.access_time } ∷ without n.key l
  | none ↦ n ∷ l
]

unfoldable pub refresh : ℕ → Bytes → List LruEntry → List LruEntry
unfolding lookup without
refresh now k l = elim (lookup k l) [
  | some e ↦ record e { access_time = now } ∷ without k l
  | none ↦ l
]

values-remove_element :
    (i : ℕ) (e : Element) (l : List Element)
    → IsDistinct l
    → find_element i l ≡ some e
    → values (remove_element i l) ≡ without e.value.key (values l)
unfolding find_element remove_element without
values-remove_element i e [] d h = cc
values-remove_element i e (f ∷ l) d h = ground (
  arith,
  values-remove_element i e l d.2,
  id_of-find_element i e l d.2,
  eqb_iff f.value.key e.value.key,
)

lookup-values :
    (i : ℕ) (e : Element) (l : List Element)
    → IsDistinct l
    → find_element i l ≡ some e
    → lookup e.value.key (values l) ≡ some e.value
unfolding find_element lookup
lookup-values i e [] d h = cc
lookup-values i e (f ∷ l) d h =
    ground (
      arith,
      lookup-values i e l d.2,
      id_of-find_element i e l d.2,
      eqb_iff f.value.key e.value.key,
    )

lookup-values-none : (k : Bytes) (l : List Element) → id_of k l ≡ none → lookup k (values l) ≡ none
unfolding id_of lookup
lookup-values-none k [] h = refl
lookup-values-none k (f ∷ l) h = ground (arith, lookup-values-none k l)

without_absent : (k : Bytes) (l : List LruEntry) → lookup k l ≡ none → without k l ≡ l
unfolding lookup without
without_absent k [] h = refl
without_absent k (f ∷ l) h = ground (arith, without_absent k l)

-- The least recently used entry, and what is left without it.
unfoldable pub drop_last : List LruEntry → List LruEntry × Option LruEntry
drop_last [] = ([], none)
drop_last (e ∷ []) = ([], some e)
drop_last (e ∷ f ∷ l) = let (rest, last) = drop_last (f ∷ l) in (e ∷ rest, last)

drop_last-back :
    (e : Element) (l : List Element)
    → IsDistinct l
    → back l ≡ some e
    → drop_last (values l) ≡ (values (remove_element e.id l), some e.value)
unfolding back remove_element find_element drop_last
drop_last-back e [] d h = cc
drop_last-back e (f ∷ []) d h = ground arith
drop_last-back e (f ∷ g ∷ l) d h =
    ground (arith, drop_last-back e (g ∷ l) d.2 h, find_element-back e (g ∷ l) d.2 h)

pub back-none : (l : List Element) → back l ≡ none → l ≡ []
unfolding back
back-none [] h = refl
back-none (e ∷ []) h = cc
back-none (e ∷ f ∷ l) h = cc (back-none (f ∷ l) h)

-- In a valid tracker the map and the list give the entry that the specification gives.
module _ (t : LruTracker) (v : IsValid t) where
  absent_key : (k : Bytes) → t.entries k ≡ none → lookup k (values t.list) ≡ none
  absent_key k h = lookup-values-none k t.list (ground (arith, v.linked k))

  pub present_key :
      (k : Bytes) (i : ℕ)
      → t.entries k ≡ some i
      → (e : Element) × (find_element i t.list ≡ some e)
        × (lookup k (values t.list) ≡ some e.value)
        × (values (remove_element i t.list) ≡ without k (values t.list))
  present_key k i h =
      let (e, found, same) = find_element-entries t k i v h in
      (
        e,
        found,
        rw (← same) (lookup-values i e t.list v.distinct found),
        rw (← same) (values-remove_element i e t.list v.distinct found),
      )

  -- `get` is the lookup of the specification.
  pub get-lookup : (k : Bytes) → get t k ≡ lookup k (values t.list)
  unfolding get
  get-lookup k = elim (Option-cases (t.entries k)) [
    | inl absent ↦ rw (absent, get, absent_key k absent)
    | inr (i, old) ↦ let (e, found, same, _) = present_key k i old in rw (old, get, found, same)
  ]

  -- Adding is the insertion of the specification.
  pub add_with_time-insert :
      (key path : Bytes) (size access_time : ℕ)
      → values (add_with_time t key path size access_time).list
        ≡ insert
            (record { key = key; path = path; size = size; access_time = access_time })
            (values t.list)
  unfolding add_with_time insert
  add_with_time-insert key path size access_time = elim (Option-cases (t.entries key)) [
    | inl absent ↦ ground (arith, absent_key key absent)
    | inr (i, old) ↦ let (e, found, same, rest) = present_key key i old in ground arith
  ]

  pub touch-refresh :
      (now : ℕ) (key path : Bytes)
      → values (touch now t key path).list ≡ refresh now key (values t.list)
  unfolding touch refresh
  touch-refresh now key path = elim (Option-cases (t.entries key)) [
    | inl absent ↦ ground (arith, absent_key key absent)
    | inr (i, old) ↦ let (e, found, same, rest) = present_key key i old in ground arith
  ]

  pub remove-without :
      (key : Bytes)
      → (values (remove t key).0.list ≡ without key (values t.list))
        × ((remove t key).1 ≡ lookup key (values t.list))
  unfolding remove
  remove-without key = elim (Option-cases (t.entries key)) [
    | inl absent ↦
        let gone = absent_key key absent in
        (ground (arith, without_absent key (values t.list) gone), ground arith)
    | inr (i, old) ↦
        let (e, found, same, rest) = present_key key i old in (ground arith, ground arith)
  ]

  pub evict_oldest-drop_last :
      (values (evict_oldest t).0.list, (evict_oldest t).1) ≡ drop_last (values t.list)
  unfolding evict_oldest drop_last
  evict_oldest-drop_last = elim (Option-cases (back t.list)) [
    | inl empty ↦ rw (empty, evict_oldest, back-none t.list empty)
    | inr (e, last) ↦ rw (last, evict_oldest) (sym (drop_last-back e t.list v.distinct last))
  ]

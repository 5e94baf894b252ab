-- ===== src/Cache/Lru/Invariant.antt =====
-- The list and the map of the tracker agree, and every operation keeps it so.
use s3_2_smb.Base.{
  ℕ, Bytes, ◌≡◌, refl, none, some, ◌∷◌, inl, inr, arith, eqb_iff, eqb_refl, Option-cases,
}
use s3_2_smb.Cache.Lru.{
  Element, LruTracker, find_element, remove_element, back, new_lru_tracker, add_with_time, touch,
  remove, evict_oldest, assign,
}
use s3_2_smb.Cache.Lru.Elements.{
  id_of, IsDistinct, IsBelow, find_element_of_IsBelow, IsBelow-suc, IsBelow-remove_element,
  find_element-id_of, id_of-find_element, find_element-remove_element, id_of-remove_element,
  IsDistinct-remove_element, find_element-back, IsBelow-find_element,
}

pub record IsValid (t : LruTracker) : Type 0 where
  pub linked : (k : Bytes) → t.entries k ≡ id_of k t.list
  pub distinct : IsDistinct t.list
  pub below : IsBelow t.next_id t.list

-- A fresh tracker is valid.
pub new_lru_tracker-IsValid : IsValid new_lru_tracker
unfolding new_lru_tracker id_of
new_lru_tracker-IsValid = record { linked = λ k. refl; distinct = tt; below = tt }

-- In a valid tracker a key of the map leads to the element of that key.
pub find_element-entries :
    (t : LruTracker) (k : Bytes) (i : ℕ)
    → IsValid t
    → t.entries k ≡ some i
    → (e : Element) × (find_element i t.list ≡ some e) × (e.value.key ≡ k)
find_element-entries t k i v h =
    find_element-id_of k i t.list v.distinct (ground (arith, v.linked k))

-- Moving an element to the front, with a new value of the same key.
module _ (t : LruTracker) (i : ℕ) (e f : Element) (v : IsValid t)
    (found : find_element i t.list ≡ some e) (id : f.id ≡ e.id)
    (key : f.value.key ≡ e.value.key) where
  pub to_front-IsValid : IsValid (record t { list = f ∷ remove_element i t.list })
  unfolding id_of
  to_front-IsValid = record {
    linked = λ k. ground (
      arith,
      v.linked k,
      id_of-remove_element i e k t.list v.distinct found,
      id_of-find_element i e t.list v.distinct found,
      eqb_iff e.value.key k,
    );
    distinct = (
      ground (
        arith,
        id_of-remove_element i e f.value.key t.list v.distinct found,
        eqb_refl e.value.key,
      ),
      ground (
        arith,
        find_element-remove_element i f.id t.list v.distinct,
        id_of-find_element i e t.list v.distinct found,
      ),
      IsDistinct-remove_element i t.list v.distinct,
    );
    below = (
      ground (arith, IsBelow-find_element t.next_id i e t.list v.below found),
      IsBelow-remove_element t.next_id i t.list v.below,
    );
  }

module _ (t : LruTracker) (i : ℕ) (e : Element) (v : IsValid t)
    (found : find_element i t.list ≡ some e) where
  drop-IsValid :
      IsValid
        (record t { list = remove_element i t.list; entries = assign t.entries e.value.key none })
  drop-IsValid = record {
    linked = λ k. ground (arith, v.linked k, id_of-remove_element i e k t.list v.distinct found);
    distinct = IsDistinct-remove_element i t.list v.distinct;
    below = IsBelow-remove_element t.next_id i t.list v.below;
  }

-- Adding keeps the tracker valid, for a new key and for one that is there.
pub add_with_time-IsValid :
    (t : LruTracker) (key path : Bytes) (size access_time : ℕ)
    → IsValid t
    → IsValid (add_with_time t key path size access_time)
unfolding add_with_time id_of
add_with_time-IsValid t key path size access_time v = elim (Option-cases (t.entries key)) [
  | inl new ↦
      rw (new, add_with_time)
        (record {
          linked = λ k. ground (arith, v.linked k);
          distinct = (
            ground (arith, v.linked key),
            find_element_of_IsBelow t.next_id t.list v.below,
            v.distinct,
          );
          below = (omega arith, IsBelow-suc t.next_id t.list v.below);
        })
  | inr (i, old) ↦
      let (e, found, _) = find_element-entries t key i v old in
      rw (old, add_with_time, found) (to_front-IsValid t i e _ v found refl refl)
]

pub touch-IsValid :
    (now : ℕ) (t : LruTracker) (key path : Bytes) → IsValid t → IsValid (touch now t key path)
unfolding touch
touch-IsValid now t key path v = elim (Option-cases (t.entries key)) [
  | inl absent ↦ rw (absent, touch) v
  | inr (i, old) ↦
      let (e, found, _) = find_element-entries t key i v old in
      rw (old, touch, found) (to_front-IsValid t i e _ v found refl refl)
]

pub remove-IsValid : (t : LruTracker) (key : Bytes) → IsValid t → IsValid (remove t key).0
unfolding remove
remove-IsValid t key v = elim (Option-cases (t.entries key)) [
  | inl absent ↦ rw (absent, remove) v
  | inr (i, old) ↦
      let (e, found, same) = find_element-entries t key i v old in
      rw (old, remove, found, ← same) (drop-IsValid t i e v found)
]

pub evict_oldest-IsValid : (t : LruTracker) → IsValid t → IsValid (evict_oldest t).0
unfolding evict_oldest
evict_oldest-IsValid t v = elim (Option-cases (back t.list)) [
  | inl empty ↦ rw (empty, evict_oldest) v
  | inr (e, last) ↦
      rw (last, evict_oldest) (drop-IsValid t e.id e v (find_element-back e t.list v.distinct last))
]

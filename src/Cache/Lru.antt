-- ===== src/Cache/Lru.antt =====
-- cache/lru.go: the LRU tracker, a doubly-linked list and a map from keys to its elements.
-- An element of container/list is its identity and its value; a map value is an identity. The
-- list is front (most recently used) first.
pub mod Elements
pub mod Invariant
pub mod Refinement
pub mod Sizes
pub mod Runs
use s3_2_smb.Base.{
  ℕ, ◌+◌, Bytes, Bool, true, false, Option, none, some, List, [], ◌∷◌, ◌==◌, eqb, if◌then◌else◌,
  length, add64,
}

pub record LruEntry : Type 0 where
  pub key : Bytes
  pub path : Bytes
  pub size : ℕ
  pub access_time : ℕ

pub record Element : Type 0 where
  pub id : ℕ
  pub value : LruEntry

pub record LruTracker : Type 0 where
  pub list : List Element
  pub entries : Bytes → Option ℕ
  pub next_id : ℕ

-- The element that a pointer stands for.
unfoldable pub find_element : ℕ → List Element → Option Element
find_element i [] = none
find_element i (e ∷ l) = if e.id == i then some e else find_element i l

-- `l.Remove(elem)` of container/list.
unfoldable pub remove_element : ℕ → List Element → List Element
remove_element i [] = []
remove_element i (e ∷ l) = if e.id == i then l else e ∷ remove_element i l

-- `l.Back()`.
unfoldable pub back : List Element → Option Element
back [] = none
back (e ∷ []) = some e
back (e ∷ f ∷ l) = back (f ∷ l)

-- `m[k] = v`, and with `none` the built-in `delete(m, k)`.
abbrev pub assign : (Bytes → Option ℕ) → Bytes → Option ℕ → Bytes → Option ℕ
assign m k v j = if eqb k j then v else m j

unfoldable pub new_lru_tracker : LruTracker
new_lru_tracker = record { list = []; entries = λ _. none; next_id = 0 }

unfoldable pub add_with_time : LruTracker → Bytes → Bytes → ℕ → ℕ → LruTracker
unfolding find_element remove_element
add_with_time t key path size access_time = elim (t.entries key) [
  | some i ↦ elim (find_element i t.list) [
    | some e ↦ record t {
      list =
          record e { value = record e.value { size = size; access_time = access_time } }
          ∷ remove_element i t.list;
    }
    | none ↦ t
  ]
  | none ↦
      let value : LruEntry = record {
        key = key;
        path = path;
        size = size;
        access_time = access_time;
      } in
      record {
        list = record { id = t.next_id; value = value } ∷ t.list;
        entries = assign t.entries key (some t.next_id);
        next_id = t.next_id + 1;
      }
]

-- `now` is the reading of the clock.
unfoldable pub add : ℕ → LruTracker → Bytes → Bytes → ℕ → LruTracker
unfolding add_with_time
add now t key path size = add_with_time t key path size now

unfoldable pub touch : ℕ → LruTracker → Bytes → Bytes → LruTracker
unfolding find_element remove_element
touch now t key path = elim (t.entries key) [
  | some i ↦ elim (find_element i t.list) [
    | some e ↦ record t {
      list = record e { value = record e.value { access_time = now } } ∷ remove_element i t.list;
    }
    | none ↦ t
  ]
  | none ↦ t
]

unfoldable pub remove : LruTracker → Bytes → LruTracker × Option LruEntry
unfolding find_element remove_element
remove t key = elim (t.entries key) [
  | some i ↦ elim (find_element i t.list) [
    | some e ↦ (
      record t { list = remove_element i t.list; entries = assign t.entries key none },
      some e.value,
    )
    | none ↦ (t, none)
  ]
  | none ↦ (t, none)
]

unfoldable pub evict_oldest : LruTracker → LruTracker × Option LruEntry
unfolding back remove_element
evict_oldest t = elim (back t.list) [
  | some e ↦ (
    record t { list = remove_element e.id t.list; entries = assign t.entries e.value.key none },
    some e.value,
  )
  | none ↦ (t, none)
]

unfoldable pub get : LruTracker → Bytes → Option LruEntry
unfolding find_element
get t key = elim (t.entries key) [
  | some i ↦ elim (find_element i t.list) [ some e ↦ some e.value | none ↦ none ]
  | none ↦ none
]

unfoldable pub len : LruTracker → ℕ
len t = length t.list

unfoldable pub oldest_access_time : LruTracker → Option ℕ
unfolding back
oldest_access_time t = elim (back t.list) [ some e ↦ some e.value.access_time | none ↦ none ]

-- The loop of `totalSize`, from the front, on an int64.
unfoldable pub total_size_from : ℕ → List Element → ℕ
total_size_from total [] = total
total_size_from total (e ∷ l) = total_size_from (add64 total e.value.size) l

unfoldable pub total_size : LruTracker → ℕ
unfolding total_size_from
total_size t = total_size_from 0 t.list

-- ===== src/Metadata/Database.antt =====
-- The database that metadata/sqlite.go works on through GORM, as the program uses it. It is no code
-- of the repository: its operations are parameters, and `Lawful` states what their documentation
-- promises. A statement that fails changes nothing.
use s3_2_smb.Base.{
  ℕ, Bytes, Bool, true, ◌≡◌, ◌≢◌, ◌<◌, ◌⊎◌, Option, none, some, List, [], ◌∷◌, eqb, if◌then◌else◌,
  ◌&&◌, ◌||◌, not, Result, ok,
}
use s3_2_smb.Metadata.Entry.{FileEntry, XattrMap}

-- The WHERE clauses of the program; a pattern is the argument of a LIKE.
pub data Where : Type 0 where
  path_is : Bytes → Where
  path_not_like : Bytes → Where
  path_like_not_like : Bytes → Bytes → Where
  path_is_or_like : Bytes → Bytes → Where
  is_dir_is : Bool → Where
  dirty_is : Bool → Where
  clean_and_staged : Where
  everything : Where

-- A column and its new value; for xattrs, the map that is read from it then.
pub data Column : Type 0 where
  set_size set_mod_time set_s3_verified_at : ℕ → Column
  set_xattrs : XattrMap → Column
  set_local_dirty : Bool → Column
  set_local_staging_path : Bytes → Column

unfoldable pub set_column : Column → FileEntry → FileEntry
set_column (set_size n) e = record e { size = n }
set_column (set_mod_time t) e = record e { mod_time = t }
set_column (set_s3_verified_at t) e = record e { s3_verified_at = t }
set_column (set_xattrs m) e = record e { xattrs = m }
set_column (set_local_dirty b) e = record e { local_dirty = b }
set_column (set_local_staging_path p) e = record e { local_staging_path = p }

unfoldable pub set_columns : List Column → FileEntry → FileEntry
unfolding set_column
set_columns [] e = e
set_columns (c ∷ cs) e = set_columns cs (set_column c e)

-- What First finds.
pub data Found : Type 0 where
  found : FileEntry → Found
  record_not_found : Found
  query_failed : Bytes → Found

pub record Database : Type 1 where
  pub State : Type 0
  -- the contents: the row of a path
  pub row : State → Bytes → Option FileEntry
  -- encoding/json on maps of strings, which the column xattrs is written and read by
  pub marshal : List (Bytes × Bytes) → Result Bytes
  pub unmarshal : Bytes → Result (List (Bytes × Bytes))
  -- pattern LIKE text
  pub like : Bytes → Bytes → Bool
  pub first : State → Bytes → Found
  pub find : State → Where → Result (List FileEntry)
  -- Where("path = ?", e.Path).Assign(e).FirstOrCreate(e): the new state, and what it leaves in e
  pub first_or_create : State → FileEntry → Result (State × FileEntry)
  pub count : State → Where → Result ℕ
  pub updates : State → Bytes → List Column → Result State
  pub delete : State → Where → Result State

module _ (like : Bytes → Bytes → Bool) where
  unfoldable pub selects : Where → FileEntry → Bool
  selects (path_is p) e = eqb e.path p
  selects (path_not_like p) e = not (like p e.path)
  selects (path_like_not_like p q) e = like p e.path && not (like q e.path)
  selects (path_is_or_like p q) e = eqb e.path p || like q e.path
  selects (is_dir_is b) e = if b then e.is_dir else not e.is_dir
  selects (dirty_is b) e = if b then e.local_dirty else not e.local_dirty
  selects clean_and_staged e = not e.local_dirty && not (eqb e.local_staging_path [])
  selects everything e = true

-- The rows that a deletion leaves.
abbrev pub unless : Bool → FileEntry → Option FileEntry
unless b e = if b then none else some e

abbrev pub Member : FileEntry → List FileEntry → Type 0
Member e [] = ⊥
Member e (x ∷ l) = (e ≡ x) ⊎ Member e l

-- No two entries have the same path.
abbrev pub DistinctPaths : List FileEntry → Type 0
DistinctPaths [] = Unit
DistinctPaths (x ∷ l) = ((y : FileEntry) → Member y l → y.path ≢ x.path) × DistinctPaths l

-- Assigning a struct saves its fields that are not zero, at least.
pub record Assigned (e r : FileEntry) : Type 0 where
  pub path : r.path ≡ e.path
  pub size : 0 < e.size → r.size ≡ e.size
  pub mod_time : 0 < e.mod_time → r.mod_time ≡ e.mod_time
  pub is_dir : e.is_dir ≡ true → r.is_dir ≡ true
  pub etag : e.etag ≢ [] → r.etag ≡ e.etag
  pub xattrs : e.xattrs ≢ none → r.xattrs ≡ e.xattrs
  pub s3_verified_at : 0 < e.s3_verified_at → r.s3_verified_at ≡ e.s3_verified_at
  pub local_dirty : e.local_dirty ≡ true → r.local_dirty ≡ true
  pub local_staging_path : e.local_staging_path ≢ [] → r.local_staging_path ≡ e.local_staging_path

-- The attributes of an entry that is written whole are none, were read from a row, or are numbers, so
-- they are UTF-8 and are read back as they are.
pub record Lawful (d : Database) : Type 0 where
  pub row_path : (s : d.State) (p : Bytes) (e : FileEntry) → d.row s p ≡ some e → e.path ≡ p
  pub first_found :
      (s : d.State) (p : Bytes) (e : FileEntry) → d.first s p ≡ found e → d.row s p ≡ some e
  pub first_missing : (s : d.State) (p : Bytes) → d.first s p ≡ record_not_found → d.row s p ≡ none
  -- A query finds the rows that its condition selects, and no other.
  pub find_sound :
      (s : d.State) (w : Where) (l : List FileEntry) (e : FileEntry)
      → d.find s w ≡ ok l
      → Member e l
      → (d.row s e.path ≡ some e) × (selects d.like w e ≡ true)
  pub find_complete :
      (s : d.State) (w : Where) (l : List FileEntry) (p : Bytes) (e : FileEntry)
      → d.find s w ≡ ok l
      → d.row s p ≡ some e
      → selects d.like w e ≡ true
      → Member e l
  -- It finds each of them once.
  pub find_distinct :
      (s : d.State) (w : Where) (l : List FileEntry) → d.find s w ≡ ok l → DistinctPaths l
  pub created :
      (s s' : d.State) (e r : FileEntry)
      → d.first_or_create s e ≡ ok (s', r)
      → d.row s e.path ≡ none
      → r ≡ e
  pub assigned :
      (s s' : d.State) (e r : FileEntry) → d.first_or_create s e ≡ ok (s', r) → Assigned e r
  pub first_or_create_row :
      (s s' : d.State) (e r : FileEntry) (q : Bytes)
      → d.first_or_create s e ≡ ok (s', r)
      → d.row s' q ≡ (if eqb e.path q then some r else d.row s q)
  pub updates_row :
      (s s' : d.State) (p : Bytes) (cs : List Column) (q : Bytes)
      → d.updates s p cs ≡ ok s'
      → d.row s' q ≡ (
          if eqb p q
          then (elim (d.row s q) [ some e ↦ some (set_columns cs e) | none ↦ none ])
          else d.row s q)
  pub delete_row :
      (s s' : d.State) (w : Where) (q : Bytes)
      → d.delete s w ≡ ok s'
      → d.row s' q ≡ (elim (d.row s q) [ some e ↦ unless (selects d.like w e) e | none ↦ none ])

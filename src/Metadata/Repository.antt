-- ===== src/Metadata/Repository.antt =====
-- metadata/sqlite.go: the repository of file entries over the database. The repository's lock makes
-- each operation one step.
pub mod Laws
pub mod Attributes
pub mod Normal
pub mod Listing
use s3_2_smb.Base.{
  ℕ, Bytes, Bool, true, false, Option, none, some, List, [], ◌∷◌, ◌++◌, codes, if◌then◌else◌,
  Result, ok, err,
}
use s3_2_smb.Metadata.Paths.{normalize_path, is_empty}
use s3_2_smb.Metadata.Entry.{
  FileEntry, XattrMap, Error, err_not_found, err_xattr_not_found, other, Outcome, done, failed,
  set_xattr, remove_xattr, list_xattr_names, get_xattr, value, scan,
}
use s3_2_smb.Metadata.Database.{
  Database, Where, path_is, path_not_like, path_like_not_like, path_is_or_like, everything, Column,
  set_xattrs, Found, found, record_not_found, query_failed,
}

-- The pattern of the paths with a slash in them, behind a prefix.
abbrev pub deep : Bytes → Bytes
deep prefix = prefix ++ codes "%/%"

-- fmt.Errorf("<text>: %w", err).
unfoldable pub wrap {ℓ} : {A : Type ℓ} → Bytes → Result A → Outcome A
wrap text (ok a) = done a
wrap text (err m) = failed (other (text ++ codes ": " ++ m))

unfoldable pub found_entry : Found → Outcome FileEntry
found_entry (found e) = done e
found_entry record_not_found = failed err_not_found
found_entry (query_failed m) = failed (other (codes "failed to get entry: " ++ m))

module _ (d : Database) where
  unfoldable pub get_entry : d.State → Bytes → Outcome FileEntry
  unfolding found_entry
  get_entry s path = found_entry (d.first s (normalize_path path))

  -- The condition of a listing.
  unfoldable pub children : Bytes → Where
  children dir_path =
      let dir = normalize_path dir_path in
      if is_empty dir
      then path_not_like (deep [])
      else path_like_not_like ((dir ++ b'/' ∷ []) ++ b'%' ∷ []) (deep (dir ++ b'/' ∷ []))

  unfoldable pub list_entries : d.State → Bytes → Outcome (List FileEntry)
  unfolding children wrap
  list_entries s dir_path = wrap (codes "failed to list entries") (d.find s (children dir_path))

  -- The new state, and what the entry that was passed holds then.
  unfoldable pub update_entry : d.State → FileEntry → Outcome (d.State × FileEntry)
  unfolding wrap
  update_entry s entry =
      wrap (codes "failed to update entry")
        (d.first_or_create s (record entry { path = normalize_path entry.path }))

  unfoldable pub update_entry_fields : d.State → Bytes → List Column → Outcome d.State
  unfolding wrap
  update_entry_fields s path updates =
      wrap (codes "failed to update entry fields") (d.updates s (normalize_path path) updates)

  unfoldable pub delete_entry : d.State → Bytes → Outcome d.State
  unfolding wrap
  delete_entry s path =
      wrap (codes "failed to delete entry") (d.delete s (path_is (normalize_path path)))

  unfoldable pub delete_entries_with_prefix : d.State → Bytes → Outcome d.State
  unfolding wrap
  delete_entries_with_prefix s prefix =
      let p = normalize_path prefix in
      wrap (codes "failed to delete entries") (d.delete s (path_is_or_like p (p ++ codes "/%")))

  unfoldable pub get_xattr_of : d.State → Bytes → Bytes → Outcome Bytes
  unfolding get_entry get_xattr
  get_xattr_of s path name = elim (get_entry s path) [
    | failed e ↦ failed e
    | done entry ↦ elim (get_xattr entry name) [
      | some value ↦ done value
      | none ↦ failed err_xattr_not_found
    ]
  ]

  -- The map that is read from the column once a map is written there.
  unfoldable pub stored : XattrMap → Result XattrMap
  unfolding value scan
  stored m = elim (value d.marshal m) [ err x ↦ err x | ok column ↦ scan d.unmarshal column ]

  -- Only the column xattrs of the row is written.
  unfoldable pub save_xattrs : Bytes → d.State → FileEntry → Outcome d.State
  unfolding wrap stored
  save_xattrs text s entry = elim (stored entry.xattrs) [
    | err m ↦ wrap text (err m)
    | ok m ↦ wrap text (d.updates s entry.path (set_xattrs m ∷ []))
  ]

  unfoldable pub set_xattr_of : d.State → Bytes → Bytes → Bytes → Outcome d.State
  unfolding get_entry save_xattrs set_xattr
  set_xattr_of s path name value = elim (get_entry s path) [
    | failed e ↦ failed e
    | done entry ↦ save_xattrs (codes "failed to save xattr") s (set_xattr entry name value)
  ]

  unfoldable pub remove_xattr_of : d.State → Bytes → Bytes → Outcome d.State
  unfolding get_entry save_xattrs remove_xattr
  remove_xattr_of s path name = elim (get_entry s path) [
    | failed e ↦ failed e
    | done entry ↦ save_xattrs (codes "failed to save entry") s (remove_xattr entry name)
  ]

  unfoldable pub list_xattrs : d.State → Bytes → Outcome (List Bytes)
  unfolding get_entry list_xattr_names
  list_xattrs s path = elim (get_entry s path) [
    | failed e ↦ failed e
    | done entry ↦ done (list_xattr_names entry)
  ]

  unfoldable pub clear : d.State → Outcome d.State
  unfolding wrap
  clear s = wrap (codes "failed to clear entries") (d.delete s everything)

  unfoldable pub entry_count : d.State → Result ℕ
  entry_count s = d.count s everything

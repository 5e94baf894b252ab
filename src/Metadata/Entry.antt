-- ===== src/Metadata/Entry.antt =====
-- metadata/models.go and metadata/errors.go: a row of the table, its extended attributes, and the
-- POSIX owner and mode that are kept among them.
pub mod Posix
use s3_2_smb.Base.{
  ℕ, ◌^◌, Bytes, Bool, true, false, Option, none, some, List, [], ◌∷◌, codes, lookup, erase, Result,
  ok, err,
}
use s3_2_smb.Base.Digits.{print_number}
use s3_2_smb.Cache.Manager.Names.{scan_unsigned, skip_blanks}

-- The errors that the program tells apart, and the system errors that it returns.
pub data Error : Type 0 where
  err_not_found err_xattr_not_found err_invalid_path : Error
  enoent eio enotempty einval enodata : Error
  other : Bytes → Error

-- A Go function's value and error, of which one is set.
pub data Outcome {ℓ} (A : Type ℓ) : Type ℓ where
  done : A → Outcome A
  failed : Error → Outcome A

-- The error of a Go function that returns nothing else.
abbrev pub Status : Type 0
Status = Outcome Unit

-- A nil map, or the attributes.
abbrev pub XattrMap : Type 0
XattrMap = Option (List (Bytes × Bytes))

-- A time.Time is the nanoseconds since the zero time.
pub record FileEntry : Type 0 where
  pub path : Bytes
  pub size : ℕ
  pub mod_time : ℕ
  pub is_dir : Bool
  pub etag : Bytes
  pub xattrs : XattrMap
  pub s3_verified_at : ℕ
  pub local_dirty : Bool
  pub local_staging_path : Bytes

-- A struct literal leaves the other fields zero.
abbrev pub zero_entry : FileEntry
zero_entry = record {
  path = [];
  size = 0;
  mod_time = 0;
  is_dir = false;
  etag = [];
  xattrs = none;
  s3_verified_at = 0;
  local_dirty = false;
  local_staging_path = [];
}

-- The attributes of a map, none of a nil map.
abbrev pub attributes : XattrMap → List (Bytes × Bytes)
attributes none = []
attributes (some m) = m

-- What the driver stores in a column, of the types that Scan tells apart.
pub data DriverValue : Type 0 where
  null other_value : DriverValue
  bytes_value string_value : Bytes → DriverValue

-- The text of a column that holds a map; encoding/json's Unmarshal of a map of strings is a parameter.
unfoldable pub scan_text : (Bytes → Result (List (Bytes × Bytes))) → Bytes → Result XattrMap
scan_text unmarshal [] = ok none
scan_text unmarshal (c ∷ body) = elim (unmarshal (c ∷ body)) [ err m ↦ err m | ok m ↦ ok (some m) ]

unfoldable pub scan : (Bytes → Result (List (Bytes × Bytes))) → DriverValue → Result XattrMap
unfolding scan_text
scan unmarshal null = ok none
scan unmarshal (bytes_value body) = scan_text unmarshal body
scan unmarshal (string_value body) = scan_text unmarshal body
scan unmarshal other_value = err (codes "invalid type for XattrMap")

-- encoding/json's Marshal of a map of strings is a parameter: it puts U+FFFD for bytes that are no
-- UTF-8.
unfoldable pub value : (List (Bytes × Bytes) → Result Bytes) → XattrMap → Result DriverValue
value marshal none = ok null
value marshal (some m) = elim (marshal m) [ err x ↦ err x | ok body ↦ ok (bytes_value body) ]

unfoldable pub get_xattr : FileEntry → Bytes → Option Bytes
unfolding lookup
get_xattr e name = lookup name (attributes e.xattrs)

unfoldable pub set_xattr : FileEntry → Bytes → Bytes → FileEntry
unfolding erase
set_xattr e name value = record e {
  xattrs = some ((name, value) ∷ erase name (attributes e.xattrs));
}

unfoldable pub remove_xattr : FileEntry → Bytes → FileEntry
unfolding erase
remove_xattr e name = elim e.xattrs [
  | some m ↦ record e { xattrs = some (erase name m) }
  | none ↦ e
]

names : List (Bytes × Bytes) → List Bytes
names [] = []
names ((name, _) ∷ m) = name ∷ names m

-- The order of a Go map's range is not given; here it is the map's own.
unfoldable pub list_xattr_names : FileEntry → List Bytes
unfolding names
list_xattr_names e = names (attributes e.xattrs)

abbrev pub uid_name : Bytes
uid_name = codes "user.posix.uid"

abbrev pub gid_name : Bytes
gid_name = codes "user.posix.gid"

abbrev pub mode_name : Bytes
mode_name = codes "user.posix.mode"

unfoldable pub set_posix_owner : FileEntry → ℕ → ℕ → FileEntry
unfolding set_xattr print_number
set_posix_owner e uid gid =
    set_xattr (set_xattr e uid_name (print_number 10 uid)) gid_name (print_number 10 gid)

-- fmt.Sscanf of one %d or %o into a uint32.
unfoldable pub scan_uint32 : ℕ → Bytes → Option ℕ
unfolding scan_unsigned skip_blanks
scan_uint32 base s = scan_unsigned base (2 ^ 32) (skip_blanks s)

-- The owner, if both attributes are there and are numbers.
unfoldable pub get_posix_owner : FileEntry → Option (ℕ × ℕ)
unfolding get_xattr scan_uint32
get_posix_owner e = elim (get_xattr e uid_name) [
  | none ↦ none
  | some uidb ↦ elim (get_xattr e gid_name) [
    | none ↦ none
    | some gidb ↦ elim (scan_uint32 10 uidb) [
      | none ↦ none
      | some uid ↦ elim (scan_uint32 10 gidb) [ none ↦ none | some gid ↦ some (uid, gid) ]
    ]
  ]
]

unfoldable pub set_posix_mode : FileEntry → ℕ → FileEntry
unfolding set_xattr print_number
set_posix_mode e mode = set_xattr e mode_name (print_number 8 mode)

unfoldable pub get_posix_mode : FileEntry → Option ℕ
unfolding get_xattr scan_uint32
get_posix_mode e = elim (get_xattr e mode_name) [ none ↦ none | some mb ↦ scan_uint32 8 mb ]

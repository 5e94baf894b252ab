-- ===== src/Disk.antt =====
-- What the program uses of package os, on regular files: a file is its path and its bytes. Any
-- call may fail: `fault` gives the error text of a call that fails at a path. Directories are not
-- kept, as no file's bytes depend on them; a directory is read by the paths below it.
pub mod Laws
use s3_2_smb.Base.{
  ℕ, zero, suc, Bytes, Bool, true, false, Option, none, some, List, [], ◌∷◌, ◌++◌, ◌==◌, ◌&&◌, not,
  eqb, if◌then◌else◌, codes, lookup, erase,
}

pub data OsCall : Type 0 where
  stat mkdir_all open_file read_file write_file sync_file rename remove read_dir : OsCall

pub record Disk : Type 0 where
  pub files : List (Bytes × Bytes)
  pub fault : OsCall → Bytes → Option Bytes

-- An error of package os: the file is not there (`os.IsNotExist`), or anything else.
pub data OsError : Type 0 where
  not_exist : OsError
  os_error : Bytes → OsError

unfoldable pub file : Disk → Bytes → Option Bytes
unfolding lookup
file d p = lookup p d.files

unfoldable pub put : Disk → Bytes → Bytes → Disk
unfolding erase
put d p c = record d { files = (p, c) ∷ erase p d.files }

unfoldable pub delete : Disk → Bytes → Disk
unfolding erase
delete d p = record d { files = erase p d.files }

-- os.Stat reports no error.
unfoldable pub exists : Disk → Bytes → Bool
exists d p = elim (d.fault stat p) [
  | some _ ↦ false
  | none ↦ elim (file d p) [ some _ ↦ true | none ↦ false ]
]

-- os.MkdirAll: the error text, if any.
unfoldable pub make_dirs : Disk → Bytes → Option Bytes
make_dirs d p = d.fault mkdir_all p

-- os.WriteFile, which replaces the file: the error text, if any, and the new disk. A failed write
-- leaves an empty file.
unfoldable pub write : Disk → Bytes → Bytes → Option Bytes × Disk
write d p c = elim (d.fault write_file p) [
  | some m ↦ (some m, put d p [])
  | none ↦ (none, put d p c)
]

-- os.Rename.
unfoldable pub move : Disk → Bytes → Bytes → Option Bytes × Disk
move d p q = elim (d.fault rename p) [
  | some m ↦ (some m, d)
  | none ↦ elim (file d p) [
    | some c ↦ (none, put (delete d p) q c)
    | none ↦ (some (codes "no such file or directory"), d)
  ]
]

-- os.Remove.
unfoldable pub unlink : Disk → Bytes → Option OsError × Disk
unlink d p = elim (d.fault remove p) [
  | some m ↦ (some (os_error m), d)
  | none ↦ elim (file d p) [ some _ ↦ (none, delete d p) | none ↦ (some not_exist, d) ]
]

-- What is left of a text behind a prefix: strings.CutPrefix, and the text itself without it.
unfoldable pub cut_prefix : Bytes → Bytes → Option Bytes
cut_prefix [] s = some s
cut_prefix (c ∷ p) [] = none
cut_prefix (c ∷ p) (x ∷ s) = if c == x then cut_prefix p s else none

unfoldable pub contains_byte : ℕ → Bytes → Bool
contains_byte c [] = false
contains_byte c (x ∷ s) = if x == c then true else contains_byte c s

-- The names in a directory, with the files' bytes.
unfoldable pub list_dir : Bytes → List (Bytes × Bytes) → List (Bytes × Bytes)
unfolding cut_prefix contains_byte
list_dir dir [] = []
list_dir dir ((p, c) ∷ fs) =
    let rest = list_dir dir fs in
    elim (cut_prefix (dir ++ b'/' ∷ []) p) [
      | some name ↦ if contains_byte b'/' name then rest else (name, c) ∷ rest
      | none ↦ rest
    ]

-- WriteAt: the bytes over a file's bytes from an offset on, with zeros where the file is shorter.
unfoldable pub overlay : Bytes → Bytes → Bytes
overlay [] f = f
overlay (c ∷ d) [] = c ∷ d
overlay (c ∷ d) (x ∷ f) = c ∷ overlay d f

unfoldable pub write_at : Bytes → ℕ → Bytes → Bytes
unfolding overlay
write_at f zero d = overlay d f
write_at [] (suc n) d = 0 ∷ write_at [] n d
write_at (x ∷ f) (suc n) d = x ∷ write_at f n d

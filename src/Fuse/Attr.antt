-- ===== src/Fuse/Attr.antt =====
-- fuse/fs.go: inode numbers, the attributes of directories and files, and the listing of a directory.
-- The three times of a node are always the same one.
pub mod Laws
pub mod Blocks
use Prim.Native.Nat.{bit_xor, bit_or, ◌/◌}
use s3_2_smb.Base.{
  ℕ, zero, suc, ◌+◌, ◌*◌, ◌%◌, ◌^◌, Bytes, Bool, true, false, ◌||◌, ◌&&◌, not, Option, none, some,
  List, [], ◌∷◌, codes, ◌==◌, eqb, if◌then◌else◌, lt64, word, add64, Result, ok, err,
}
use s3_2_smb.Metadata.Paths.{is_empty, parent_path, base_name}
use s3_2_smb.Metadata.Entry.{
  FileEntry, Error, err_not_found, enoent, Outcome, done, failed, get_posix_owner, get_posix_mode,
}
use s3_2_smb.Metadata.Database.{Column, set_size, set_mod_time, set_s3_verified_at}
use s3_2_smb.Metadata.Repository.{get_entry, list_entries, update_entry_fields}
use s3_2_smb.S3client.Queries.{ObjectInfo, head_object_info}
use s3_2_smb.Fuse.World.{Environment, World}

-- A byte's round of FNV-1a.
abbrev fnv_round : ℕ → ℕ → ℕ
fnv_round hash c = (bit_xor hash c * 1099511628211) % word

unfoldable pub fnv : ℕ → Bytes → ℕ
fnv hash [] = hash
fnv hash (c ∷ s) = fnv (fnv_round hash c) s

-- 0 is no inode number, and 1 is the root's.
unfoldable pub unreserved : ℕ → ℕ
unreserved hash = if (hash == 0) || (hash == 1) then 2 else hash

unfoldable pub path_to_inode : Bytes → ℕ
unfolding is_empty fnv unreserved
path_to_inode path = if is_empty path then 1 else unreserved (fnv 14695981039346656037 path)

-- What Attr fills in. A field that it leaves is none.
pub record Attr : Type 0 where
  pub inode : ℕ
  pub size : ℕ
  pub time : ℕ
  pub mode : ℕ
  pub nlink : ℕ
  pub owner : Option (ℕ × ℕ)
  pub blocks : Option ℕ

abbrev pub mode_dir : ℕ
mode_dir = 2 ^ 31

abbrev pub blocks_of : ℕ → ℕ
blocks_of size = add64 size 511 / 512

abbrev pub dir_mode : FileEntry → ℕ
dir_mode e = elim (get_posix_mode e) [ none ↦ bit_or mode_dir 0o777 | some m ↦ bit_or mode_dir m ]

abbrev pub file_mode : FileEntry → ℕ
file_mode e = elim (get_posix_mode e) [ none ↦ 0o666 | some m ↦ m ]

-- The size of a directory, which is never 0.
abbrev pub dir_size : ℕ → ℕ
dir_size size = if size == 0 then 4096 else size

-- The attributes of a directory without an entry, and of one with an entry.
abbrev pub default_dir_attr : Bytes → ℕ → Option ℕ → Attr
default_dir_attr path now blocks = record {
  inode = path_to_inode path;
  size = 4096;
  time = now;
  mode = bit_or mode_dir 0o777;
  nlink = 2;
  owner = none;
  blocks = blocks;
}

unfoldable pub entry_dir_attr : Bytes → FileEntry → Attr
unfolding path_to_inode get_posix_owner get_posix_mode
entry_dir_attr path e = record {
  inode = path_to_inode path;
  size = dir_size e.size;
  time = e.mod_time;
  mode = dir_mode e;
  nlink = 2;
  owner = get_posix_owner e;
  blocks = some (blocks_of (dir_size e.size));
}

unfoldable pub entry_file_attr : Bytes → FileEntry → Attr
unfolding path_to_inode get_posix_owner get_posix_mode
entry_file_attr path e = record {
  inode = path_to_inode path;
  size = e.size;
  time = e.mod_time;
  mode = file_mode e;
  nlink = 1;
  owner = get_posix_owner e;
  blocks = some (blocks_of e.size);
}

-- The attributes of a file whose row is gone, by the entry that the node still has.
abbrev pub stale_file_attr : Bytes → FileEntry → Attr
stale_file_attr path e = record {
  inode = path_to_inode path;
  size = e.size;
  time = e.mod_time;
  mode = 0o666;
  nlink = 1;
  owner = none;
  blocks = some (blocks_of e.size);
}

-- fuse.Dirent.
pub record Dirent : Type 0 where
  pub inode : ℕ
  pub is_dir : Bool
  pub name : Bytes

abbrev pub child_dirent : FileEntry → Dirent
child_dirent e = record { inode = path_to_inode e.path; is_dir = e.is_dir; name = base_name e.path }

-- The children but the directory itself and the root.
unfoldable pub child_dirents : Bytes → List FileEntry → List Dirent
unfolding path_to_inode base_name eqb is_empty
child_dirents path [] = []
child_dirents path (e ∷ es) =
    let rest = child_dirents path es in
    if eqb e.path path || is_empty e.path then rest else child_dirent e ∷ rest

module _ (v : Environment) where
  unfoldable pub dir_attr : World v → Bytes → ℕ → Outcome Attr
  unfolding is_empty get_entry entry_dir_attr
  dir_attr w path now =
      if is_empty path
      then done (default_dir_attr path now (some (blocks_of 4096)))
      else (elim (get_entry v.database w.db path) [
        | done e ↦ done (entry_dir_attr path e)
        | failed err_not_found ↦ done (default_dir_attr path now none)
        | failed e ↦ failed e
      ])

  -- The entry of a file of size 0 that was never verified, once the bucket says how large it is; and
  -- the world, with that in the table.
  unfoldable pub verify : World v → Bytes → FileEntry → ObjectInfo → ℕ → FileEntry × World v
  unfolding update_entry_fields
  verify w path e info now =
      let e1 = record e { size = info.size; mod_time = info.last_modified; s3_verified_at = now } in
      elim (update_entry_fields v.database w.db path
        (set_size info.size ∷ set_mod_time info.last_modified ∷ set_s3_verified_at now ∷ [])) [
          | failed _ ↦ (e1, w)
          | done db ↦ (e1, record w { db = db })
        ]

  abbrev pub is_unverified : FileEntry → Bool
  is_unverified e = (e.size == 0) && (not e.is_dir && (e.s3_verified_at == 0))

  -- Whether the bucket answers is of its state, which others change between two calls: what one call
  -- could not ask a later one may.
  unfoldable pub fall_back : World v → Bytes → FileEntry → ℕ → FileEntry × World v
  unfolding head_object_info verify
  fall_back w path e now =
      if is_unverified e
      then (elim (head_object_info v.bucket v.prefix w.objects path) [
        | err _ ↦ (e, w)
        | ok info ↦ elim (lt64 0 info.size) [ true ↦ verify w path e info now | false ↦ (e, w) ]
      ])
      else (e, w)

  -- The attributes, the entry that the node has then, and the world.
  unfoldable pub file_attr :
      World v → Bytes → Option FileEntry → ℕ → Outcome Attr × Option FileEntry × World v
  unfolding get_entry fall_back entry_file_attr
  file_attr w path entry now = elim (get_entry v.database w.db path) [
    | done e ↦
        let (e1, w1) = fall_back w path e now in (done (entry_file_attr path e1), some e1, w1)
    | failed err_not_found ↦ elim entry [
      | none ↦ (failed enoent, none, w)
      | some e ↦ (done (stale_file_attr path e), some e, w)
    ]
    | failed e ↦ (failed e, entry, w)
  ]

  unfoldable pub read_dir_all : World v → Bytes → Outcome (List Dirent)
  unfolding list_entries parent_path path_to_inode child_dirents
  read_dir_all w path = elim (list_entries v.database w.db path) [
    | failed e ↦ failed e
    | done children ↦ done (
        record { inode = path_to_inode path; is_dir = true; name = codes "." }
        ∷ record { inode = path_to_inode (parent_path path); is_dir = true; name = codes ".." }
        ∷ child_dirents path children)
  ]

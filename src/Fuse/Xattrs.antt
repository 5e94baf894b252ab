-- ===== src/Fuse/Xattrs.antt =====
-- fuse/fs.go: the handlers of extended attributes, of a directory and of a file, and Setattr.
pub mod Resize
use s3_2_smb.Base.{
  ℕ, Bytes, Bool, true, false, Option, none, some, List, [], ◌∷◌, ◌++◌, if◌then◌else◌, ◌||◌, ◌==◌,
  codes, ok, err,
}
use s3_2_smb.Metadata.Entry.{
  FileEntry, Error, err_not_found, err_xattr_not_found, enodata, other, Outcome, Status, done,
  failed, set_posix_owner, set_posix_mode, get_posix_owner,
}
use s3_2_smb.Metadata.Database.{Column, set_size, set_mod_time, set_xattrs}
use s3_2_smb.Metadata.Repository.{
  get_entry, update_entry, update_entry_fields, get_xattr_of, set_xattr_of, remove_xattr_of,
  list_xattrs, stored,
}
use s3_2_smb.Fuse.World.{Environment, World, invalidate}
use s3_2_smb.Fuse.Dir.{fresh_entry}

abbrev pub no_data : Error → Error
no_data err_not_found = enodata
no_data err_xattr_not_found = enodata
no_data e = e

-- The names with a zero byte behind each.
unfoldable pub terminated : List Bytes → Bytes
terminated [] = []
terminated (n ∷ ns) = n ++ 0 ∷ terminated ns

-- No entry has no names.
abbrev pub names_or_none : Outcome (List Bytes) → Outcome Bytes
names_or_none (done ns) = done (terminated ns)
names_or_none (failed err_not_found) = done []
names_or_none (failed e) = failed e

-- What a Setattr asks for: its fields that are valid.
pub record Setattr : Type 0 where
  pub size : Option ℕ
  pub mod_time : Option ℕ
  pub mode : Option ℕ
  pub uid : Option ℕ
  pub gid : Option ℕ

abbrev pub or_else {ℓ} : {A : Type ℓ} → Option A → A → A
or_else none a = a
or_else (some b) a = b

abbrev pub given {ℓ} : {A : Type ℓ} → Option A → Bool
given none = false
given (some _) = true

-- The owner of the entry, 0 and 0 when it has none.
unfoldable pub owner_or_root : FileEntry → ℕ × ℕ
unfolding get_posix_owner
owner_or_root e = or_else (get_posix_owner e) (0, 0)

-- The mode and the owner that are asked for, put among the entry's attributes.
unfoldable pub change_owner : FileEntry → Setattr → FileEntry
unfolding owner_or_root set_posix_owner
change_owner e r =
    let (uid, gid) = owner_or_root e in
    if given r.uid || given r.gid
    then set_posix_owner e (or_else r.uid uid) (or_else r.gid gid)
    else e

unfoldable pub change_mode : FileEntry → Setattr → FileEntry
unfolding set_posix_mode
change_mode e r = elim r.mode [ none ↦ e | some m ↦ set_posix_mode e m ]

module _ (v : Environment) where
  unfoldable pub getxattr : World v → Bytes → Bytes → ℕ → Outcome Bytes
  unfolding get_xattr_of
  getxattr w path name size = elim (get_xattr_of v.database w.db path name) [
    | failed e ↦ failed (no_data e)
    | done value ↦ if size == 0 then done [] else done value
  ]

  -- `Setxattr` of a file, and of a directory once its entry is there.
  unfoldable pub file_setxattr : World v → Bytes → Bytes → Bytes → Status × World v
  unfolding set_xattr_of
  file_setxattr w path name value = elim (set_xattr_of v.database w.db path name value) [
    | failed e ↦ (failed e, w)
    | done db ↦ (done tt, record w { db = db })
  ]

  -- A directory without an entry gets one.
  unfoldable pub make_entry : World v → Bytes → Error → ℕ → Outcome (World v)
  unfolding update_entry
  make_entry w path err_not_found now =
      elim (update_entry v.database w.db (fresh_entry path now true)) [
        | failed e ↦ failed e
        | done (db, _) ↦ done (record w { db = db })
      ]
  make_entry w path e now = failed e

  unfoldable pub dir_setxattr : World v → Bytes → Bytes → Bytes → ℕ → Status × World v
  unfolding get_entry make_entry file_setxattr
  dir_setxattr w path name value now = elim (get_entry v.database w.db path) [
    | done _ ↦ file_setxattr w path name value
    | failed e ↦ elim (make_entry w path e now) [
      | failed e ↦ (failed e, w)
      | done w1 ↦ file_setxattr w1 path name value
    ]
  ]

  unfoldable pub listxattr : World v → Bytes → Outcome Bytes
  unfolding list_xattrs
  listxattr w path = names_or_none (list_xattrs v.database w.db path)

  unfoldable pub removexattr : World v → Bytes → Bytes → Status × World v
  unfolding remove_xattr_of
  removexattr w path name = elim (remove_xattr_of v.database w.db path name) [
    | failed e ↦ (failed (no_data e), w)
    | done db ↦ (done tt, record w { db = db })
  ]

  -- `Setattr` of a directory writes its whole entry.
  unfoldable pub dir_setattr : World v → Bytes → Setattr → Outcome FileEntry × World v
  unfolding get_entry change_owner change_mode update_entry
  dir_setattr w path r = elim (get_entry v.database w.db path) [
    | failed e ↦ (failed e, w)
    | done entry ↦ elim (update_entry v.database w.db (change_owner (change_mode entry r) r)) [
      | failed e ↦ (failed e, w)
      | done (db, saved) ↦ (done saved, record w { db = db })
    ]
  ]

  -- The columns that `Setattr` of a file writes.
  unfoldable pub plain_columns : Setattr → List Column
  plain_columns r =
      (elim r.size [ none ↦ [] | some n ↦ set_size n ∷ [] ])
      ++ (elim r.mod_time [ none ↦ [] | some t ↦ set_mod_time t ∷ [] ])

  unfoldable pub owner_columns : v.database.State → Bytes → Setattr → Outcome (List Column)
  unfolding get_entry change_owner change_mode stored
  owner_columns db path r =
      if given r.mode || (given r.uid || given r.gid)
      then (elim (get_entry v.database db path) [
        | failed e ↦ failed e
        | done entry ↦ elim (stored v.database (change_owner (change_mode entry r) r).xattrs) [
          | err m ↦ failed (other (codes "failed to update entry fields: " ++ m))
          | ok m ↦ done (set_xattrs m ∷ [])
        ]
      ])
      else done []

  unfoldable pub write_columns : World v → Bytes → List Column → Outcome (World v)
  unfolding update_entry_fields
  write_columns w path [] = done w
  write_columns w path (c ∷ cs) = elim (update_entry_fields v.database w.db path (c ∷ cs)) [
    | failed e ↦ failed e
    | done db ↦ done (record w { db = db })
  ]

  unfoldable pub drop_resized : World v → Bytes → Setattr → World v
  unfolding invalidate
  drop_resized w path r = if given r.size then invalidate v w path else w

  unfoldable pub file_setattr : World v → Bytes → Setattr → Outcome FileEntry × World v
  unfolding drop_resized owner_columns plain_columns write_columns get_entry
  file_setattr w path r =
      let w1 = drop_resized w path r in
      elim (owner_columns w1.db path r) [
        | failed e ↦ (failed e, w1)
        | done cs ↦ elim (write_columns w1 path (plain_columns r ++ cs)) [
          | failed e ↦ (failed e, w1)
          | done w2 ↦ (get_entry v.database w2.db path, w2)
        ]
      ]

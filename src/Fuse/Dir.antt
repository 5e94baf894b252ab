-- ===== src/Fuse/Dir.antt =====
-- fuse/fs.go: the handlers of a directory that look up, make and remove its entries. A handler
-- returns its outcome and the world.
pub mod Laws
pub mod Rollback
use s3_2_smb.Base.{
  ℕ, Bytes, Bool, true, false, Option, none, some, List, [], ◌∷◌, ◌++◌, codes, if◌then◌else◌, ◌==◌,
  ◌&&◌, not,
}
use s3_2_smb.Disk.{Disk, open_file, put}
use s3_2_smb.Metadata.Paths.{join_path}
use s3_2_smb.Metadata.Entry.{
  FileEntry, Error, err_not_found, enoent, eio, enotempty, other, Outcome, Status, done, failed,
  zero_entry, set_posix_owner, set_posix_mode,
}
use s3_2_smb.Metadata.Repository.{get_entry, list_entries, update_entry, delete_entry}
use s3_2_smb.S3client.{delete_object, create_directory}
use s3_2_smb.Fuse.World.{Environment, World, invalidate, is_gone, path_to_staging_file}

-- A node of the tree.
pub data Node : Type 0 where
  dir_node : Bytes → Node
  file_node : Bytes → FileEntry → Node

-- An open file: the node it belongs to, the path of its staging file, whether that is open, and
-- whether it was written to; `fetched` is the sync.Once of the first write.
pub record FileHandle : Type 0 where
  pub path : Bytes
  pub entry : Option FileEntry
  pub staging_path : Bytes
  pub staging_open : Bool
  pub dirty : Bool
  pub fetched : Bool

-- The mode, the user and the group of a request.
pub record Owner : Type 0 where
  pub mode : ℕ
  pub uid : ℕ
  pub gid : ℕ

abbrev pub fresh_entry : Bytes → ℕ → Bool → FileEntry
fresh_entry path now is_dir = record zero_entry { path = path; mod_time = now; is_dir = is_dir }

unfoldable pub owned : FileEntry → Owner → FileEntry
unfolding set_posix_owner set_posix_mode
owned e r = set_posix_owner (if r.mode == 0 then e else set_posix_mode e r.mode) r.uid r.gid

abbrev pub missing : Error → Error
missing err_not_found = enoent
missing e = e

-- `Lookup` tells a missing entry from every other error.
abbrev pub lookup_error : Error → Error
lookup_error err_not_found = enoent
lookup_error e = eio

abbrev pub node_of : Bytes → FileEntry → Node
node_of path e = if e.is_dir then dir_node path else file_node path e

-- The directory is not empty, as far as `Remove` asks.
abbrev pub full : Bool → List FileEntry → Bool
full asked [] = false
full asked (e ∷ l) = asked

module _ (v : Environment) where
  unfoldable pub lookup : World v → Bytes → Bytes → Outcome Node
  unfolding get_entry join_path
  lookup w dir name =
      let child = join_path (dir ∷ name ∷ []) in
      elim (get_entry v.database w.db child) [
        | failed e ↦ failed (lookup_error e)
        | done entry ↦ done (node_of child entry)
      ]

  -- The mode and the owner of a request; an error leaves them out.
  unfoldable pub persist_owner : World v → Bytes → Owner → World v
  unfolding owned get_entry update_entry
  persist_owner w path r =
      if (r.mode == 0 && r.uid == 0) && r.gid == 0
      then w
      else (elim (get_entry v.database w.db path) [
        | failed _ ↦ w
        | done e ↦ elim (update_entry v.database w.db (owned e r)) [
          | failed _ ↦ w
          | done (db, _) ↦ record w { db = db }
        ]
      ])

  -- Deletes the row of a directory that has no marker.
  unfoldable pub roll_back : World v → Bytes → World v
  unfolding delete_entry
  roll_back w path = elim (delete_entry v.database w.db path) [
    | failed _ ↦ w
    | done db ↦ record w { db = db }
  ]

  unfoldable pub finish_mkdir : World v → Bytes → Outcome Node × World v
  unfolding create_directory roll_back
  finish_mkdir w path =
      let (e, objects) = create_directory v.bucket v.prefix w.objects path in
      elim e [
        | some _ ↦ (failed eio, roll_back (record w { objects = objects }) path)
        | none ↦ (done (dir_node path), record w { objects = objects })
      ]

  unfoldable pub mkdir : World v → Bytes → Bytes → Owner → ℕ → Outcome Node × World v
  unfolding update_entry persist_owner finish_mkdir
  mkdir w dir name r now =
      let path = join_path (dir ∷ name ∷ []) in
      elim (update_entry v.database w.db (fresh_entry path now true)) [
        | failed e ↦ (failed e, w)
        | done (db, _) ↦ finish_mkdir (persist_owner (record w { db = db }) path r) path
      ]

  -- os.Create truncates the staging file.
  unfoldable pub finish_create :
      World v → Bytes → FileEntry → Owner → Outcome (Node × FileHandle) × World v
  unfolding path_to_staging_file persist_owner put
  finish_create w path entry r =
      let staging = path_to_staging_file v path in
      let handle : FileHandle = record {
        path = path;
        entry = some entry;
        staging_path = staging;
        staging_open = true;
        dirty = false;
        fetched = false;
      } in
      elim (w.disk.fault open_file staging) [
        | some m ↦ (failed (other (codes "failed to create staging file: " ++ m)), w)
        | none ↦ (
          done (file_node path entry, handle),
          persist_owner (record w { disk = put w.disk staging [] }) path r,
        )
      ]

  unfoldable pub create :
      World v → Bytes → Bytes → Owner → ℕ → Outcome (Node × FileHandle) × World v
  unfolding update_entry finish_create
  create w dir name r now =
      let path = join_path (dir ∷ name ∷ []) in
      elim (update_entry v.database w.db (fresh_entry path now false)) [
        | failed e ↦ (failed e, w)
        | done (db, entry) ↦ finish_create (record w { db = db }) path entry r
      ]

  -- What is left of `Remove` once the object is gone.
  unfoldable pub forget : World v → Bytes → Status × World v
  unfolding delete_entry
  forget w path = elim (delete_entry v.database w.db path) [
    | failed e ↦ (failed e, w)
    | done db ↦ (done tt, record w { db = db })
  ]

  -- The object is deleted first.
  unfoldable pub remove_object : World v → Bytes → Status × World v
  unfolding delete_object invalidate is_gone forget
  remove_object w path =
      let (e, objects) = delete_object v.bucket v.prefix w.objects path in
      let w1 = record w { objects = objects } in
      elim e [
        | none ↦ forget (invalidate v w1 path) path
        | some m ↦ if is_gone m then forget (invalidate v w1 path) path else (failed eio, w1)
      ]

  unfoldable pub remove_found : World v → Bytes → Bool → Status × World v
  unfolding list_entries remove_object
  remove_found w path check_empty =
      if check_empty
      then (elim (list_entries v.database w.db path) [
        | failed e ↦ (failed e, w)
        | done children ↦ if full true children then (failed enotempty, w) else remove_object w path
      ])
      else remove_object w path

  -- `is_dir` is the request's Dir.
  unfoldable pub remove : World v → Bytes → Bytes → Bool → Status × World v
  unfolding get_entry remove_found
  remove w dir name is_dir =
      let path = join_path (dir ∷ name ∷ []) in
      elim (get_entry v.database w.db path) [
        | failed e ↦ (failed (missing e), w)
        | done entry ↦ remove_found w path (is_dir && entry.is_dir)
      ]

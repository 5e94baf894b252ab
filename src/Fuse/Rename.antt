-- ===== src/Fuse/Rename.antt =====
-- fuse/fs.go: Rename, on the database, the chunks and the bucket.
pub mod Laws
use s3_2_smb.Base.{
  ℕ, Bytes, Bool, true, false, Option, none, some, List, [], ◌∷◌, if◌then◌else◌, length, ltb,
}
use s3_2_smb.Disk.{open_file, file}
use s3_2_smb.Metadata.Paths.{join_path}
use s3_2_smb.Metadata.Entry.{FileEntry, Outcome, Status, done, failed, einval, zero_entry}
use s3_2_smb.Metadata.Repository.{get_entry, update_entry, delete_entry}
use s3_2_smb.S3client.{delete_object, copy_object, put_object_from_reader}
use s3_2_smb.Fuse.World.{Environment, World, invalidate, is_gone, path_to_staging_file}
use s3_2_smb.Fuse.Dir.{Node, dir_node, file_node, missing}

-- The entry under its new path.
abbrev pub renamed : FileEntry → Bytes → ℕ → FileEntry
renamed e path now = record zero_entry {
  path = path;
  size = e.size;
  mod_time = now;
  is_dir = e.is_dir;
  etag = e.etag;
  xattrs = e.xattrs;
}

module _ (v : Environment) where
  -- A staging file under the old path is uploaded under the new one; the row gets its size. The
  -- errors are only logged.
  unfoldable pub upload_staging : World v → FileEntry → Bytes → Bytes → World v
  unfolding put_object_from_reader update_entry
  upload_staging w entry path bytes =
      let (e, objects) =
        put_object_from_reader v.bucket v.prefix w.objects path bytes (length bytes) in
      let w1 = record w { objects = objects } in
      elim e [
        | some _ ↦ w1
        | none ↦ elim (update_entry v.database w1.db (record entry { size = length bytes })) [
          | failed _ ↦ w1
          | done (db, _) ↦ record w1 { db = db }
        ]
      ]

  unfoldable pub rescue : World v → FileEntry → Bytes → Bytes → World v
  unfolding path_to_staging_file file upload_staging
  rescue w entry old_path new_path =
      let staging = path_to_staging_file v old_path in
      elim (w.disk.fault open_file staging) [
        | some _ ↦ w
        | none ↦ elim (file w.disk staging) [
          | none ↦ w
          | some bytes ↦ if ltb 0 (length bytes) then upload_staging w entry new_path bytes else w
        ]
      ]

  -- The copy and the deletion in the bucket.
  unfoldable pub move_object : World v → FileEntry → Bytes → Bytes → World v
  unfolding copy_object delete_object rescue is_gone
  move_object w entry old_path new_path =
      let (e, objects) = copy_object v.bucket v.prefix w.objects old_path new_path in
      let w1 = record w { objects = objects } in
      elim e [
        | some m ↦ if is_gone m then rescue w1 entry old_path new_path else w1
        | none ↦
            let (_, left) = delete_object v.bucket v.prefix objects old_path in
            record w { objects = left }
      ]

  -- The row of the destination is deleted, when there is one.
  unfoldable pub clear_destination : v.database.State → Bytes → Outcome v.database.State
  unfolding get_entry delete_entry
  clear_destination db path = elim (get_entry v.database db path) [
    | failed _ ↦ done db
    | done _ ↦ delete_entry v.database db path
  ]

  -- The row is written under the new path, then deleted under the old one: what the new entry
  -- holds, if nothing failed, and the rows.
  unfoldable pub replace_row :
      v.database.State → FileEntry → Bytes → Outcome FileEntry × v.database.State
  unfolding update_entry delete_entry
  replace_row db entry old_path = elim (update_entry v.database db entry) [
    | failed e ↦ (failed e, db)
    | done (db1, saved) ↦ elim (delete_entry v.database db1 old_path) [
      | failed e ↦ (failed e, db1)
      | done db2 ↦ (done saved, db2)
    ]
  ]

  unfoldable pub move_row :
      v.database.State → FileEntry → Bytes → Bytes → ℕ → Outcome FileEntry × v.database.State
  unfolding clear_destination replace_row
  move_row db entry old_path new_path now = elim (clear_destination db new_path) [
    | failed e ↦ (failed e, db)
    | done db1 ↦ replace_row db1 (renamed entry new_path now) old_path
  ]

  unfoldable pub rename_found : World v → FileEntry → Bytes → Bytes → ℕ → Status × World v
  unfolding move_row invalidate move_object
  rename_found w entry old_path new_path now =
      let (out, db) = move_row w.db entry old_path new_path now in
      let w1 = record w { db = db } in
      elim out [
        | failed e ↦ (failed e, w1)
        | done saved ↦ (
          done tt,
          move_object (invalidate v (invalidate v w1 old_path) new_path) saved old_path new_path,
        )
      ]

  unfoldable pub rename : World v → Bytes → Bytes → Node → Bytes → ℕ → Status × World v
  unfolding get_entry rename_found
  rename w dir old_name (file_node _ _) new_name now = (failed einval, w)
  rename w dir old_name (dir_node new_dir) new_name now =
      let old_path = join_path (dir ∷ old_name ∷ []) in
      elim (get_entry v.database w.db old_path) [
        | failed e ↦ (failed (missing e), w)
        | done entry ↦ rename_found w entry old_path (join_path (new_dir ∷ new_name ∷ [])) now
      ]

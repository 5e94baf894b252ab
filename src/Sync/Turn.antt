-- ===== src/Sync/Turn.antt =====
-- metadata/sync.go: the turn of one object in SyncFromS3.
pub mod Laws
pub mod Refresh
pub mod Keys
pub mod Stored
use s3_2_smb.Base.{
  ℕ, zero, suc, ◌%◌, Bytes, Bool, true, false, ◌||◌, ◌&&◌, Option, none, some, List, [], ◌∷◌, ◌++◌,
  codes, ◌==◌, if◌then◌else◌, ltb,
}
use s3_2_smb.Disk.{unlink}
use s3_2_smb.Metadata.Paths.{is_empty, trim_left, trim_right}
use s3_2_smb.Metadata.Entry.{FileEntry, zero_entry, XattrMap, Status, done, failed}
use s3_2_smb.Metadata.Database.{Database}
use s3_2_smb.Metadata.Repository.{get_entry, update_entry}
use s3_2_smb.S3client.{ends_in_slash}
use s3_2_smb.Sync.Objects.{
  SyncOptions, Object, Listing, Schedule, Work, object_path, entry_path, object_size,
}
use s3_2_smb.Sync.Parents.{error_text, wrapped, ensure_parent_dirs}

unfoldable pub trim_quotes : Bytes → Bytes
unfolding trim_left trim_right
trim_quotes s = trim_right b'"' (trim_left b'"' s)

-- The entry is newer than the object, or it waits for the writeback.
abbrev pub is_fresher : FileEntry → Object → Bool
is_fresher existing o = ltb o.last_modified existing.mod_time || existing.local_dirty

module _ (d : Database) (s : Listing) (opts : SyncOptions) (r : Schedule) where
  unfoldable pub track : Work d → Bytes → Work d
  track w path = elim w.s3_keys [ none ↦ w | some keys ↦ record w { s3_keys = some (path ∷ keys) } ]

  abbrev pub count_one : Work d → Work d
  count_one w = record w { synced = suc w.synced }

  unfoldable pub report_progress : Work d → Work d
  report_progress w =
      if opts.on_progress && (w.synced % 100 == 0)
      then record w { reports = (w.synced, true) ∷ w.reports }
      else w

  abbrev pub object_entry : Work d → Object → Bytes → XattrMap → FileEntry
  object_entry w o path xattrs = record zero_entry {
    path = path;
    size = object_size s o;
    mod_time = o.last_modified;
    is_dir = ends_in_slash o.key;
    etag = trim_quotes o.etag;
    s3_verified_at = r.verified_at w.synced;
    xattrs = xattrs;
  }

  unfoldable pub store : Work d → Object → Bytes → XattrMap → Status × Work d
  unfolding update_entry error_text trim_quotes object_size ends_in_slash report_progress
  store w o path xattrs = elim (update_entry d w.db (object_entry w o path xattrs)) [
    | failed e ↦ (failed (wrapped (codes "failed to update entry " ++ path) e), w)
    | done (db, _) ↦ (done tt, report_progress (count_one (record w { db = db })))
  ]

  -- A staging file that is older than the object goes.
  unfoldable pub drop_stale : Work d → FileEntry → Work d
  unfolding unlink
  drop_stale w existing =
      if is_empty existing.local_staging_path
      then w
      else record w { disk = (unlink w.disk existing.local_staging_path).1 }

  -- An entry that cannot be read counts as missing.
  unfoldable pub merge : Work d → Object → Bytes → Status × Work d
  unfolding get_entry drop_stale store
  merge w o path = elim (get_entry d w.db path) [
    | failed _ ↦ store w o path none
    | done existing ↦
        if is_fresher existing o
        then (done tt, count_one w)
        else store (drop_stale w existing) o path existing.xattrs
  ]

  unfoldable pub sync_path : Work d → Object → Bytes → Status × Work d
  unfolding track ensure_parent_dirs merge
  sync_path w o path =
      let (st, w1) = ensure_parent_dirs d r (track w path) path in
      elim st [ failed e ↦ (failed e, w1) | done _ ↦ merge w1 o path ]

  unfoldable pub sync_object : Work d → Object → Status × Work d
  unfolding object_path entry_path sync_path
  sync_object w o =
      if is_empty o.key || is_empty (object_path opts.prefix o.key)
      then (done tt, w)
      else sync_path w o (entry_path opts.prefix o.key)

  unfoldable pub sync_objects : Work d → List Object → Status × Work d
  unfolding sync_object
  sync_objects w [] = (done tt, w)
  sync_objects w (o ∷ os) =
      let (st, w1) = sync_object w o in
      elim st [ failed e ↦ (failed e, w1) | done _ ↦ sync_objects w1 os ]

-- ===== src/Writeback/Upload.antt =====
-- metadata/uploader.go: processWriteback. What the run meets from outside is a schedule. Times are
-- nanoseconds, and the idle time is not negative.
pub mod Safety
use s3_2_smb.Base.{
  ℕ, ◌+◌, suc, Bytes, Bool, true, false, Option, none, some, List, [], ◌∷◌, ◌++◌, codes,
  if◌then◌else◌, ltb, Result, ok, err,
}
use s3_2_smb.Disk.{open_file, file}
use s3_2_smb.Metadata.Paths.{is_empty}
use s3_2_smb.Metadata.Entry.{FileEntry, Status, Outcome, done, failed, other}
use s3_2_smb.Metadata.Database.{
  dirty_is, Column, set_local_dirty, set_s3_verified_at, set_local_staging_path,
}
use s3_2_smb.Metadata.Repository.{update_entry_fields}
use s3_2_smb.S3client.{put_object_from_reader}
use s3_2_smb.Fuse.World.{Environment, World}

-- Before each entry of a run, by its place: the error of the context, once it is done, and the time.
-- And the access time of each file.
pub record Schedule : Type 0 where
  pub cancelled : ℕ → Option Bytes
  pub clock : ℕ → ℕ
  pub accessed : Bytes → ℕ

module _ (v : Environment) where
  -- An update of columns whose error is dropped.
  unfoldable pub set_fields : World v → Bytes → List Column → World v
  unfolding update_entry_fields
  set_fields w path cs = elim (update_entry_fields v.database w.db path cs) [
    | failed _ ↦ w
    | done db ↦ record w { db = db }
  ]

  -- The upload of a staging file's bytes, and the mark that is taken off after it.
  unfoldable pub upload : World v → FileEntry → Bytes → ℕ → World v
  unfolding put_object_from_reader set_fields
  upload w e bytes verified =
      let (x, objects) = put_object_from_reader v.bucket v.prefix w.objects e.path bytes e.size in
      let w1 = record w { objects = objects } in
      elim x [
        | some _ ↦ w1
        | none ↦ set_fields w1 e.path (set_local_dirty false ∷ set_s3_verified_at verified ∷ [])
      ]

  -- One idle entry: an entry whose staging file is not there is no longer dirty.
  unfoldable pub write_back : World v → FileEntry → ℕ → World v
  unfolding file upload set_fields
  write_back w e verified =
      if is_empty e.local_staging_path
      then set_fields w e.path (set_local_dirty false ∷ [])
      else (elim (w.disk.fault open_file e.local_staging_path) [
        | some _ ↦ w
        | none ↦ elim (file w.disk e.local_staging_path) [
          | none ↦ set_fields w e.path (set_local_dirty false ∷ [])
          | some bytes ↦ upload w e bytes verified
        ]
      ])

  -- An entry that was changed less than the idle time ago is left for later.
  unfoldable pub write_back_idle : ℕ → ℕ → World v → FileEntry → ℕ → World v
  unfolding write_back
  write_back_idle now idle w e verified =
      if ltb now (e.mod_time + idle) then w else write_back w e verified

  unfoldable pub write_back_all : Schedule → ℕ → ℕ → ℕ → World v → List FileEntry → Status × World v
  unfolding write_back_idle
  write_back_all r now idle k w [] = (done tt, w)
  write_back_all r now idle k w (e ∷ es) = elim (r.cancelled k) [
    | some m ↦ (failed (other m), w)
    | none ↦ write_back_all r now idle (suc k) (write_back_idle now idle w e (r.clock k)) es
  ]

  unfoldable pub process_writeback : Schedule → ℕ → ℕ → World v → Status × World v
  unfolding write_back_all
  process_writeback r now idle w = elim (v.database.find w.db (dirty_is true)) [
    | err m ↦ (failed (other (codes "failed to list dirty files: " ++ m)), w)
    | ok dirty_entries ↦ write_back_all r now idle 0 w dirty_entries
  ]

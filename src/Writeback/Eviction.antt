-- ===== src/Writeback/Eviction.antt =====
-- metadata/uploader.go: processCacheEviction.
pub mod Safety
pub mod Runs
use s3_2_smb.Base.{
  ℕ, ◌+◌, suc, Bytes, Bool, true, false, Option, none, some, List, [], ◌∷◌, ◌++◌, codes,
  if◌then◌else◌, ltb, Result, ok, err,
}
use s3_2_smb.Disk.{stat, file, unlink, OsError, not_exist, os_error}
use s3_2_smb.Metadata.Entry.{FileEntry, Status, done, failed, other}
use s3_2_smb.Metadata.Database.{clean_and_staged, set_local_staging_path}
use s3_2_smb.Fuse.World.{Environment, World}
use s3_2_smb.Writeback.Upload.{Schedule, set_fields}

-- The file is not there after its removal.
abbrev pub is_removed : Option OsError → Bool
is_removed none = true
is_removed (some not_exist) = true
is_removed (some (os_error _)) = false

module _ (v : Environment) where
  unfoldable pub forget_staging : World v → FileEntry → World v
  unfolding set_fields
  forget_staging w e = set_fields v w e.path (set_local_staging_path [] ∷ [])

  unfoldable pub remove_staging : World v → FileEntry → World v
  unfolding unlink forget_staging
  remove_staging w e =
      let (x, disk) = unlink w.disk e.local_staging_path in
      let w1 = record w { disk = disk } in if is_removed x then forget_staging w1 e else w1

  -- One entry: its staging file goes once it was not read for longer than the retention time.
  unfoldable pub evict_entry : Schedule → ℕ → ℕ → World v → FileEntry → World v
  unfolding file forget_staging remove_staging
  evict_entry r now retention w e = elim (w.disk.fault stat e.local_staging_path) [
    | some _ ↦ w
    | none ↦ elim (file w.disk e.local_staging_path) [
      | none ↦ forget_staging w e
      | some _ ↦
          if ltb (r.accessed e.local_staging_path + retention) now then remove_staging w e else w
    ]
  ]

  unfoldable pub evict_all : Schedule → ℕ → ℕ → ℕ → World v → List FileEntry → Status × World v
  unfolding evict_entry
  evict_all r now retention k w [] = (done tt, w)
  evict_all r now retention k w (e ∷ es) = elim (r.cancelled k) [
    | some m ↦ (failed (other m), w)
    | none ↦ evict_all r now retention (suc k) (evict_entry r now retention w e) es
  ]

  unfoldable pub process_cache_eviction : Schedule → ℕ → ℕ → World v → Status × World v
  unfolding evict_all
  process_cache_eviction r now retention w = elim (v.database.find w.db clean_and_staged) [
    | err m ↦ (failed (other (codes "failed to list cached entries: " ++ m)), w)
    | ok cached ↦ evict_all r now retention 0 w cached
  ]

-- ===== src/Sync/Parents.antt =====
-- metadata/sync.go: ensureParentDirs.
pub mod Laws
pub mod Split
pub mod Ensure
use s3_2_smb.Base.{ℕ, Bytes, Bool, true, false, List, [], ◌∷◌, ◌++◌, codes, if◌then◌else◌}
use s3_2_smb.Metadata.Entry.{
  FileEntry, zero_entry, Error, err_not_found, err_xattr_not_found, err_invalid_path, enoent, eio,
  enotempty, einval, enodata, other, Outcome, Status, done, failed,
}
use s3_2_smb.Metadata.Database.{Database}
use s3_2_smb.Metadata.Repository.{get_entry, update_entry}
use s3_2_smb.Sync.Objects.{Schedule, Work, member, parent_dirs}

-- err.Error().
unfoldable pub error_text : Error → Bytes
error_text err_not_found = codes "entry not found"
error_text err_xattr_not_found = codes "extended attribute not found"
error_text err_invalid_path = codes "invalid path"
error_text enoent = codes "no such file or directory"
error_text eio = codes "input/output error"
error_text enotempty = codes "directory not empty"
error_text einval = codes "invalid argument"
error_text enodata = codes "no data available"
error_text (other m) = m

-- fmt.Errorf("<text>: %w", err).
abbrev pub wrapped : Bytes → Error → Error
wrapped text e = other (text ++ (codes ": " ++ error_text e))

abbrev pub is_not_found : Error → Bool
is_not_found err_not_found = true
is_not_found _ = false

module _ (d : Database) (r : Schedule) where
  abbrev pub see : Work d → Bytes → Work d
  see w dir = record w { seen_dirs = dir ∷ w.seen_dirs }

  abbrev pub directory : Work d → Bytes → FileEntry
  directory w dir = record zero_entry {
    path = dir;
    mod_time = r.created_at w.synced dir;
    is_dir = true;
  }

  unfoldable pub create_dir : Work d → Bytes → Status × Work d
  unfolding update_entry error_text
  create_dir w dir = elim (update_entry d w.db (directory w dir)) [
    | failed e ↦ (failed (wrapped (codes "failed to create directory " ++ dir) e), w)
    | done (db, _) ↦ (done tt, see (record w { db = db }) dir)
  ]

  unfoldable pub ensure_dir : Work d → Bytes → Status × Work d
  unfolding get_entry create_dir member
  ensure_dir w dir = if member dir w.seen_dirs then (done tt, w) else (elim (get_entry d w.db dir) [
    | done _ ↦ (done tt, see w dir)
    | failed e ↦ if is_not_found e then create_dir w dir else (failed e, w)
  ])

  unfoldable pub ensure_dirs : Work d → List Bytes → Status × Work d
  unfolding ensure_dir
  ensure_dirs w [] = (done tt, w)
  ensure_dirs w (dir ∷ dirs) =
      let (s, w1) = ensure_dir w dir in
      elim s [ failed e ↦ (failed e, w1) | done _ ↦ ensure_dirs w1 dirs ]

  unfoldable pub ensure_parent_dirs : Work d → Bytes → Status × Work d
  unfolding ensure_dirs parent_dirs
  ensure_parent_dirs w path = ensure_dirs w (parent_dirs path)

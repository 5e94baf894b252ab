-- ===== src/Sync/Reconcile.antt =====
-- metadata/sync.go: reconcileDeletedEntries.
pub mod Laws
use s3_2_smb.Base.{
  ℕ, suc, Bytes, Bool, true, false, Option, none, some, List, [], ◌∷◌, ◌++◌, codes, if◌then◌else◌,
  ok, err,
}
use s3_2_smb.Metadata.Entry.{FileEntry, Status, done, failed, other}
use s3_2_smb.Metadata.Database.{Database, is_dir_is}
use s3_2_smb.Metadata.Repository.{delete_entry}
use s3_2_smb.Sync.Objects.{Schedule, member}

module _ (d : Database) (r : Schedule) (s3_keys : List Bytes) where
  -- An entry whose path is no key is deleted; an error of that is dropped.
  unfoldable pub purge : d.State → FileEntry → d.State
  unfolding delete_entry member
  purge s e =
      if member e.path s3_keys
      then s
      else (elim (delete_entry d s e.path) [ failed _ ↦ s | done s' ↦ s' ])

  unfoldable pub purge_all : ℕ → d.State → List FileEntry → Status × d.State
  unfolding purge
  purge_all k s [] = (done tt, s)
  purge_all k s (e ∷ es) = elim (r.entry_cancelled k) [
    | some m ↦ (failed (other m), s)
    | none ↦ purge_all (suc k) (purge s e) es
  ]

  unfoldable pub reconcile_deleted_entries : d.State → Status × d.State
  unfolding purge_all
  reconcile_deleted_entries s = elim (d.find s (is_dir_is false)) [
    | err m ↦ (failed (other (codes "failed to list DB entries for reconciliation: " ++ m)), s)
    | ok all_entries ↦ purge_all 0 s all_entries
  ]

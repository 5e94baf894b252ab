-- ===== src/Sync/Pages.antt =====
-- metadata/sync.go: SyncFromS3 over the pages of the listing, which are read on fuel: one unit for
-- each page, none left is `none`.
pub mod Termination
pub mod Laws
use s3_2_smb.Base.{
  ℕ, zero, suc, Bytes, Bool, true, false, Option, none, some, List, [], ◌∷◌, ◌++◌, codes, ◌==◌,
  if◌then◌else◌, ok, err,
}
use s3_2_smb.Disk.{Disk}
use s3_2_smb.Metadata.Entry.{Status, done, failed, other}
use s3_2_smb.Metadata.Database.{Database}
use s3_2_smb.Metadata.Repository.{clear}
use s3_2_smb.Sync.Objects.{SyncOptions, default_sync_options, Listing, Schedule, Work, Page}
use s3_2_smb.Sync.Parents.{error_text, wrapped}
use s3_2_smb.Sync.Turn.{sync_objects}
use s3_2_smb.Sync.Reconcile.{reconcile_deleted_entries}

module _ (d : Database) (s : Listing) (r : Schedule) where
  module _ (opts : SyncOptions) where
    unfoldable pub sync_pages : ℕ → ℕ → Option Bytes → Work d → Option (Status × Work d)
    unfolding sync_objects
    sync_pages zero k token w = none
    sync_pages (suc fuel) k token w = elim (r.page_cancelled k) [
      | some m ↦ some (failed (other m), w)
      | none ↦ elim (s.list_objects_v2 opts.prefix opts.max_keys token) [
        | err m ↦ some (failed (other (codes "failed to list objects: " ++ m)), w)
        | ok page ↦
            let (st, w1) = sync_objects d s opts r w page.contents in
            elim st [
              | failed e ↦ some (failed e, w1)
              | done _ ↦ elim page.is_truncated [
                | true ↦ sync_pages fuel (suc k) page.next_continuation_token w1
                | false ↦ some (done tt, w1)
              ]
            ]
      ]
    ]

    abbrev final_report : Work d → Work d
    final_report w =
        if opts.on_progress then record w { reports = (w.synced, false) ∷ w.reports } else w

    unfoldable pub reconcile : Work d → Status × Work d
    unfolding reconcile_deleted_entries error_text
    reconcile w = elim w.s3_keys [
      | none ↦ (done tt, w)
      | some keys ↦
          let (st, db) = reconcile_deleted_entries d r keys w.db in
          let w1 = record w { db = db } in
          elim st [
            | done _ ↦ (done tt, w1)
            | failed e ↦ (
              failed
                  (wrapped (codes "deletion reconciliation failed (sync data is still valid)") e),
              w1,
            )
          ]
    ]

    unfoldable pub after_pages : Status × Work d → Status × Work d
    unfolding reconcile
    after_pages (failed e, w) = (failed e, w)
    after_pages (done _, w) = reconcile (final_report w)

    abbrev pub start : d.State → Disk → Work d
    start db disk = record {
      db = db;
      disk = disk;
      seen_dirs = [];
      s3_keys = if opts.reconcile_deletions then some [] else none;
      synced = 0;
      reports = [];
    }

    unfoldable pub sync_cleared : ℕ → Work d → Option (Status × Work d)
    unfolding sync_pages after_pages
    sync_cleared fuel w = elim (sync_pages fuel 0 none w) [
      | none ↦ none
      | some result ↦ some (after_pages result)
    ]

  -- The options that a run works with.
  unfoldable pub options : Option SyncOptions → SyncOptions
  options none = default_sync_options
  options (some o) = record o { max_keys = if o.max_keys == 0 then 1000 else o.max_keys }

  unfoldable pub clear_first : SyncOptions → Work d → Status × Work d
  unfolding clear error_text
  clear_first opts w =
      if opts.clear_existing
      then (elim (clear d w.db) [
        | failed e ↦ (failed (wrapped (codes "failed to clear existing entries") e), w)
        | done db ↦ (done tt, record w { db = db })
      ])
      else (done tt, w)

  unfoldable pub sync_from_s3 : ℕ → Option SyncOptions → d.State → Disk → Option (Status × Work d)
  unfolding options clear_first sync_cleared
  sync_from_s3 fuel opts db disk =
      let o = options opts in
      let (st, w) = clear_first o (start o db disk) in
      elim st [ failed e ↦ some (failed e, w) | done _ ↦ sync_cleared o fuel w ]

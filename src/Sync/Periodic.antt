-- ===== src/Sync/Periodic.antt =====
-- metadata/sync.go: SyncFromS3WithStats, and StartPeriodicSync over the ticks of its ticker.
use s3_2_smb.Base.{
  ℕ, Bytes, Bool, true, false, Option, none, some, List, [], ◌∷◌, ok, err, Result, ℤ, is_positive,
}
use s3_2_smb.Disk.{Disk}
use s3_2_smb.Metadata.Entry.{Error, Outcome, done, failed}
use s3_2_smb.Metadata.Database.{Database, is_dir_is}
use s3_2_smb.Metadata.Repository.{entry_count}
use s3_2_smb.Sync.Objects.{SyncOptions, default_sync_options, Listing, Schedule, Work}
use s3_2_smb.Sync.Pages.{sync_from_s3}

pub record SyncStats : Type 0 where
  pub total_entries : ℕ
  pub files : ℕ
  pub directories : ℕ
  pub duration : ℕ

-- A count whose error is dropped.
abbrev pub counted : Result ℕ → ℕ
counted (ok n) = n
counted (err _) = 0

module _ (d : Database) where
  unfoldable pub table_stats : ℕ → d.State → SyncStats
  unfolding entry_count
  table_stats duration s = record {
    total_entries = counted (entry_count d s);
    files = counted (d.count s (is_dir_is false));
    directories = counted (d.count s (is_dir_is true));
    duration = duration;
  }

  -- The statistics, with the time that the run took, and what the run leaves.
  unfoldable pub sync_from_s3_with_stats :
      Listing
      → Schedule
      → ℕ
      → ℕ
      → Option SyncOptions
      → d.State
      → Disk
      → Option (Outcome SyncStats × Work d)
  unfolding sync_from_s3 table_stats
  sync_from_s3_with_stats s r duration fuel opts db disk =
      elim (sync_from_s3 d s r fuel opts db disk) [
        | none ↦ none
        | some (failed e, w) ↦ some (failed e, w)
        | some (done _, w) ↦ some (done (table_stats duration w.db), w)
      ]

  -- A tick: the bucket as it is then, what the run meets, its fuel, and whether the context is done
  -- when it ends.
  pub record Tick : Type 0 where
    pub listing : Listing
    pub schedule : Schedule
    pub fuel : ℕ
    pub done_after : Bool

  abbrev pub periodic_options : Bytes → SyncOptions
  periodic_options prefix = record default_sync_options {
    prefix = prefix;
    reconcile_deletions = true;
  }

  -- The ticks until the context is done: the errors that are reported, the table and the disk.
  unfoldable pub periodic_ticks :
      Bytes → d.State → Disk → List Tick → Option (List Error × d.State × Disk)
  unfolding sync_from_s3
  periodic_ticks prefix db disk [] = some ([], db, disk)
  periodic_ticks prefix db disk (t ∷ ts) =
      elim (sync_from_s3 d t.listing t.schedule t.fuel (some (periodic_options prefix)) db disk) [
        | none ↦ none
        | some (done _, w) ↦ periodic_ticks prefix w.db w.disk ts
        | some (failed e, w) ↦ elim t.done_after [
          | true ↦ some ([], w.db, w.disk)
          | false ↦ elim (periodic_ticks prefix w.db w.disk ts) [
            | none ↦ none
            | some (errors, db', disk') ↦ some (e ∷ errors, db', disk')
          ]
        ]
      ]

  -- An interval that is not positive starts nothing.
  unfoldable pub start_periodic_sync :
      ℤ → Bytes → d.State → Disk → List Tick → Option (List Error × d.State × Disk)
  unfolding periodic_ticks
  start_periodic_sync interval prefix db disk ts = elim (is_positive interval) [
    | false ↦ some ([], db, disk)
    | true ↦ periodic_ticks prefix db disk ts
  ]

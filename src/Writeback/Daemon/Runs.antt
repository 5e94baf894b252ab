-- ===== src/Writeback/Daemon/Runs.antt =====
-- The background job over any number of ticks, with the uploads and the evictions of each.
use s3_2_smb.Base.{ℕ, Bytes, ◌≡◌, inl, inr, true, false, List, [], ◌∷◌, ℤ, is_positive, Bool-cases}
use s3_2_smb.Metadata.Paths.{is_empty}
use s3_2_smb.Metadata.Entry.{FileEntry}
use s3_2_smb.Metadata.Database.{Lawful}
use s3_2_smb.S3client.Laws.{LawfulBucket}
use s3_2_smb.Fuse.World.{Environment, World}
use s3_2_smb.Writeback.Upload.{process_writeback}
use s3_2_smb.Writeback.Daemon.{
  Tick, after_part, writeback_error, on_tick, daemon_ticks, start_writeback_daemon,
}
use s3_2_smb.Writeback.Daemon.Durable.{Waiting, Unshared, Durable}
use s3_2_smb.Writeback.Daemon.Uploads.{process_writeback-Durable}
use s3_2_smb.Writeback.Daemon.Evictions.{process_cache_eviction-Durable}

module _ (v : Environment) (l : Lawful v.database) (b : LawfulBucket v.bucket) (e : FileEntry)
    (bytes : Bytes) (dirty : e.local_dirty ≡ true)
    (named : is_empty e.local_staging_path ≡ false) where
  module _ (idle retention : ℕ) where
    on_tick-Durable :
        (w : World v) (t : Tick)
        → Durable v e bytes w
        → Durable v e bytes (on_tick v idle retention w t).2
    unfolding on_tick
    on_tick-Durable w t (safe, held) =
        let first = process_writeback v t.writeback t.now idle w in
        let kept =
          process_writeback-Durable v l b e bytes dirty named w held t.writeback t.now idle safe in
        elim (Bool-cases (after_part writeback_error first.0 t.done_after_writeback).1) [
          | inr over ↦ rw (on_tick, over) kept
          | inl more ↦
              rw (on_tick, more)
                (process_cache_eviction-Durable v l b e bytes dirty named first.1 kept.1 t.eviction
                  t.now retention kept.0)
        ]

    daemon_ticks-Durable :
        (w : World v) (ts : List Tick)
        → Durable v e bytes w
        → Durable v e bytes (daemon_ticks v idle retention w ts).1
    unfolding daemon_ticks
    daemon_ticks-Durable w [] kept = kept
    daemon_ticks-Durable w (t ∷ ts) kept =
        let r = on_tick v idle retention w t in
        let next = on_tick-Durable w t kept in
        elim (Bool-cases r.1) [
          | inr over ↦ rw (daemon_ticks, over) next
          | inl more ↦ rw (daemon_ticks, more) (daemon_ticks-Durable r.2 ts next)
        ]

    -- Over a database and a bucket that keep their promises, where the rows' paths are normal and no
    -- other row names a dirty entry's staging file, the background job, over any number of ticks and
    -- whatever fails or is cancelled, never loses the bytes of that file: they stay there with the
    -- entry's row as it was, or they are in the bucket and the row has lost its mark.
    pub start_writeback_daemon-Durable :
        (interval : ℤ) (w : World v) (ts : List Tick)
        → Waiting v e bytes w
        → Unshared v e w
        → Durable v e bytes (start_writeback_daemon v idle retention interval w ts).1
    unfolding start_writeback_daemon
    start_writeback_daemon-Durable interval w ts waiting held =
        elim (Bool-cases (is_positive interval)) [
          | inl on ↦ rw (start_writeback_daemon, on) (daemon_ticks-Durable w ts (inl waiting, held))
          | inr off ↦ rw (start_writeback_daemon, off) (inl waiting, held)
        ]

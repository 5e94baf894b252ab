-- ===== src/Writeback/Daemon.antt =====
-- metadata/uploader.go: the loop of StartWritebackDaemon, over the ticks of its ticker.
pub mod Shape
pub mod Durable
pub mod Uploads
pub mod Evictions
pub mod Runs
use s3_2_smb.Base.{ℕ, Bool, true, false, List, [], ◌∷◌, ◌++◌, if◌then◌else◌, ℤ, is_positive}
use s3_2_smb.Metadata.Entry.{Error, Status, done, failed}
use s3_2_smb.Fuse.World.{Environment, World}
use s3_2_smb.Writeback.Upload.{Schedule, process_writeback}
use s3_2_smb.Writeback.Eviction.{process_cache_eviction}

-- A tick: the time, the schedules of the two runs, and whether the context is done when each ends.
pub record Tick : Type 0 where
  pub now : ℕ
  pub writeback : Schedule
  pub eviction : Schedule
  pub done_after_writeback : Bool
  pub done_after_eviction : Bool

-- What `onError` is called with.
pub data Report : Type 0 where
  writeback_error cache_eviction_error : Error → Report

-- The reports of a part, and whether the goroutine goes on.
abbrev pub after_part : (Error → Report) → Status → Bool → List Report × Bool
after_part report (done _) cancelled = ([], true)
after_part report (failed e) cancelled = if cancelled then ([], false) else (report e ∷ [], true)

module _ (v : Environment) (idle retention : ℕ) where
  unfoldable pub on_tick : World v → Tick → List Report × Bool × World v
  unfolding process_writeback process_cache_eviction
  on_tick w t =
      let (s, w1) = process_writeback v t.writeback t.now idle w in
      let (reports, more) = after_part writeback_error s t.done_after_writeback in
      if more
      then (let (s', w2) = process_cache_eviction v t.eviction t.now retention w1 in
          let (reports', more') = after_part cache_eviction_error s' t.done_after_eviction in
          (reports ++ reports', more', w2))
      else (reports, false, w1)

  -- The ticks until the context is done: what is reported, and the world.
  unfoldable pub daemon_ticks : World v → List Tick → List Report × World v
  unfolding on_tick
  daemon_ticks w [] = ([], w)
  daemon_ticks w (t ∷ ts) =
      let (reports, more, w1) = on_tick w t in
      let rest = daemon_ticks w1 ts in if more then (reports ++ rest.0, rest.1) else (reports, w1)

  -- An interval that is not positive starts nothing.
  unfoldable pub start_writeback_daemon : ℤ → World v → List Tick → List Report × World v
  unfolding daemon_ticks
  start_writeback_daemon interval w ts = if is_positive interval then daemon_ticks w ts else ([], w)

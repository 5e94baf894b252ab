-- ===== src/Tests/Writeback.antt =====
-- The writeback, the eviction and the repository's invariant at one file.
use mathlib.Core.Path.{subst}
use s3_2_smb.Base.{
  ℕ, Bytes, ◌≡◌, ◌≢◌, refl, inl, inr, true, false, none, some, List, [], ◌∷◌, codes, eqb, eqb_iff,
  length, ◌==◌, pos, arith, Bool-cases,
}
use s3_2_smb.Disk.{Disk, file}
use s3_2_smb.Metadata.Paths.{normalize_path, is_empty}
use s3_2_smb.Metadata.Entry.{FileEntry, zero_entry, Error, Outcome, done, failed}
use s3_2_smb.Metadata.Database.{Column, set_local_dirty, set_s3_verified_at, selects}
use s3_2_smb.Metadata.Repository.{update_entry_fields, wrap}
use s3_2_smb.Metadata.Repository.Normal.{
  IsNormal, unchanged, changed, Change, fields_updated, Changes-IsNormal,
}
use s3_2_smb.S3client.{get_full_key, put_object_from_reader}
use s3_2_smb.S3client.Laws.{LawfulBucket}
use s3_2_smb.Fuse.World.{World}
use s3_2_smb.Writeback.Upload.{Schedule, write_back, process_writeback}
use s3_2_smb.Writeback.Upload.Safety.{IsSafe, write_back-IsSafe}
use s3_2_smb.Writeback.Upload.Safety.Progress.{Written, process_writeback-Written}
use s3_2_smb.Writeback.Eviction.{process_cache_eviction}
use s3_2_smb.Writeback.Eviction.Runs.{
  Held, process_cache_eviction-Held, process_cache_eviction-dirty,
}
use s3_2_smb.Writeback.Daemon.{Tick, start_writeback_daemon}
use s3_2_smb.Writeback.Daemon.Durable.{Durable, Unshared}
use s3_2_smb.Writeback.Daemon.Runs.{start_writeback_daemon-Durable}
use s3_2_smb.Tests.Table.{database, database-Lawful, row_of}
use s3_2_smb.Tests.Sample.{environment, bucket, content}

put_stores :
    (s : bucket.State) (k c : Bytes) (n : ℕ)
    → (bucket.put_sized s k c n).0 ≡ none
    → bucket.object (bucket.put_sized s k c n).1 k ≡ some c
put_stores s k c n h = ground (arith, h, eqb_iff k k)

put_other :
    (s : bucket.State) (k c j : Bytes) (n : ℕ)
    → j ≢ k
    → bucket.object (bucket.put_sized s k c n).1 j ≡ bucket.object s j
put_other s k c j n other = ground (arith, eqb_iff k j, other)

delete_other :
    (s : bucket.State) (k j : Bytes)
    → j ≢ k
    → bucket.object (bucket.delete_object s k).1 j ≡ bucket.object s j
delete_other s k j other = ground (arith, eqb_iff k j, other)

bucket-LawfulBucket : LawfulBucket bucket
bucket-LawfulBucket = record {
  put_sized_stores = put_stores;
  put_sized_other = put_other;
  delete_object_deletes = λ s k h. ground (arith, eqb_iff k k);
  delete_object_other = delete_other;
}

takes_updates :
    (s : database.State) (p : Bytes) (cs : List Column) (x : Error)
    → update_entry_fields database s p cs ≢ failed x
unfolding update_entry_fields wrap
takes_updates s p cs x h = cc

accepts :
    (s : bucket.State) (k c : Bytes) (n : ℕ)
    → n ≡ length c
    → (put_object_from_reader bucket [] s k c n).0 ≡ none
unfolding put_object_from_reader get_full_key
accepts s k c n h = let same : (n == length c) ≡ true = ground (arith, h) in rw same refl

-- A file whose three bytes wait in its staging file.
abbrev pub waiting : FileEntry
waiting = record zero_entry {
  path = codes "d/f";
  size = 3;
  mod_time = 1;
  local_dirty = true;
  local_staging_path = codes "/s/d";
}

abbrev pub staged_disk : Disk
staged_disk = record { files = (codes "/s/d", content) ∷ []; fault = λ c p. none }

abbrev pub dirty_world : World environment
dirty_world = record {
  db = record { rows = waiting ∷ []; distinct = (refl, tt) };
  objects = λ k. none;
  disk = staged_disk;
  chunks = none;
}

abbrev calm : Schedule
calm = record { cancelled = λ k. none; clock = λ k. 9; accessed = λ p. 1 }

one_row :
    (e x : FileEntry) (p : Bytes)
    → normalize_path e.path ≡ e.path
    → row_of (e ∷ []) p ≡ some x
    → normalize_path p ≡ p
one_row e x p normal h = elim (Bool-cases (eqb e.path p)) [
  | inl same ↦
      let at : e.path ≡ p = ground (arith, eqb_iff e.path p) in
      subst (λ q. normalize_path q ≡ q) at normal
  | inr other ↦ absurd (ground (arith, h, other))
]

pub dirty-IsNormal : IsNormal database dirty_world.db
unfolding normalize_path
dirty-IsNormal p e h = one_row waiting e p refl h

write_back-IsSafe_example :
    IsSafe environment dirty_world (write_back environment dirty_world waiting 9) waiting
unfolding normalize_path eqb
write_back-IsSafe_example =
    write_back-IsSafe environment database-Lawful dirty_world waiting refl refl bucket-LawfulBucket
      9

process_writeback-Written_example :
    Written environment waiting content (process_writeback environment calm 500 300 dirty_world).1
unfolding normalize_path eqb is_empty file selects
process_writeback-Written_example =
    process_writeback-Written environment database-Lawful bucket-LawfulBucket takes_updates accepts
      waiting content refl refl dirty_world refl refl refl calm 500 300 (λ k. refl) refl refl
      dirty-IsNormal (waiting ∷ []) refl refl

-- The same file once it is uploaded, and not read for long.
abbrev uploaded : FileEntry
uploaded = record waiting { local_dirty = false; s3_verified_at = 9 }

abbrev clean_world : World environment
clean_world = record dirty_world { db = record { rows = uploaded ∷ []; distinct = (refl, tt) } }

clean-IsNormal : IsNormal database clean_world.db
unfolding normalize_path
clean-IsNormal p e h = one_row uploaded e p refl h

process_cache_eviction-Held_example :
    Held environment uploaded (process_cache_eviction environment calm 900 300 clean_world).1
unfolding eqb
process_cache_eviction-Held_example =
    process_cache_eviction-Held environment database-Lawful clean_world clean-IsNormal calm 900 300
      uploaded refl

no_clean_row :
    (p : Bytes) (x : FileEntry)
    → row_of (waiting ∷ []) p ≡ some x
    → x.local_dirty ≡ false
    → codes "/s/d" ≢ x.local_staging_path
no_clean_row p x h clean k = ground (arith, h, clean)

process_cache_eviction-dirty_example :
    (database.row (process_cache_eviction environment calm 900 300 dirty_world).1.db (codes "d/f")
      ≡ some waiting)
    × (file (process_cache_eviction environment calm 900 300 dirty_world).1.disk (codes "/s/d")
        ≡ file staged_disk (codes "/s/d"))
unfolding eqb
process_cache_eviction-dirty_example =
    process_cache_eviction-dirty environment database-Lawful dirty_world dirty-IsNormal calm 900 300
      waiting refl refl no_clean_row

abbrev state_or : database.State → Outcome database.State → database.State
state_or s (done s') = s'
state_or s (failed e) = s

abbrev columns : List Column
columns = set_local_dirty false ∷ set_s3_verified_at 9 ∷ []

abbrev marked : database.State
unfolding update_entry_fields
marked = state_or dirty_world.db (update_entry_fields database dirty_world.db (codes "d/f") columns)

mark : Change database dirty_world.db marked
unfolding update_entry_fields wrap
mark = fields_updated (codes "d/f") columns refl

Changes-IsNormal_example : IsNormal database marked
Changes-IsNormal_example =
    Changes-IsNormal database database-Lawful dirty_world.db marked (changed mark unchanged)
      dirty-IsNormal

-- One tick in which nothing is cancelled.
abbrev tick : Tick
tick = record {
  now = 500;
  writeback = calm;
  eviction = calm;
  done_after_writeback = false;
  done_after_eviction = false;
}

no_other_row :
    (e x : FileEntry) (p : Bytes)
    → row_of (e ∷ []) p ≡ some x
    → p ≢ e.path
    → x.local_staging_path ≢ e.local_staging_path
no_other_row e x p h other = elim (Bool-cases (eqb e.path p)) [
  | inl same ↦ absurd (ground (arith, eqb_iff e.path p, same, other))
  | inr away ↦ absurd (ground (arith, h, away))
]

dirty-Unshared : Unshared environment waiting dirty_world
dirty-Unshared p x h = (dirty-IsNormal p x h, no_other_row waiting x p h)

start_writeback_daemon-Durable_example :
    Durable environment waiting content
      (start_writeback_daemon environment 300 300 (pos 60) dirty_world (tick ∷ [])).1
unfolding normalize_path is_empty file eqb
start_writeback_daemon-Durable_example =
    start_writeback_daemon-Durable environment database-Lawful bucket-LawfulBucket waiting content
      refl refl 300 300 (pos 60) dirty_world (tick ∷ []) (refl, refl) dirty-Unshared

-- ===== src/Cache/Manager.antt =====
-- cache/manager.go: the chunk manager, over the disk and the LRU tracker.
-- Sizes and offsets are int64 patterns; the clock is read once in an operation.
pub mod Names
pub mod Space
use s3_2_smb.Base.{
  ℕ, zero, suc, ◌+◌, ◌-◌, ◌*◌, ◌%◌, not, Bytes, Bool, true, false, Option, none, some, List, [],
  ◌∷◌, ◌++◌, ◌==◌, ◌&&◌, ◌||◌, eqb, if◌then◌else◌, codes, length, take, drop, add64, sub64, lt64,
  div64, word, sign, leb, ltb, Result, ok, err, has_prefix,
}
use s3_2_smb.Disk.{
  Disk, OsError, OsCall, file, exists, make_dirs, write, move, unlink, list_dir, not_exist,
  read_file, read_dir, stat,
}
use s3_2_smb.Cache.Lru.{
  LruTracker, LruEntry, new_lru_tracker, add, add_with_time, touch, remove, evict_oldest, len,
}
use Names.{chunk_file_name, chunk_key, scan_chunk_name}

abbrev pub chunk_size : ℕ
chunk_size = 16_777_216

abbrev pub default_max_cache_size : ℕ
default_max_cache_size = 10_737_418_240

pub record ChunkManager : Type 0 where
  pub cache_dir : Bytes
  pub max_cache_size : ℕ
  pub lru : LruTracker
  pub current_size : ℕ
  -- the keys of `downloading`
  pub downloading : List Bytes

-- What the manager works on: itself, and the disk.
pub record State : Type 0 where
  pub manager : ChunkManager
  pub disk : Disk

-- What is not the program's own: the hash that names a directory, and the S3 reader.
pub record Outside : Type 0 where
  pub path_to_hash : Bytes → Bytes
  pub get_object_chunk : Bytes → ℕ → ℕ → Result Bytes

unfoldable pub files_dir : ChunkManager → Bytes
files_dir cm = cm.cache_dir ++ codes "/files"

unfoldable pub offset_to_chunk_id : ℕ → ℕ
offset_to_chunk_id offset = div64 offset chunk_size

-- `chunkExists`.
abbrev pub chunk_exists : Disk → Bytes → Bool
chunk_exists = exists

-- One round of the loop of `ensureCacheSpace`, for the entry that was evicted. A file that cannot
-- be removed is only logged.
unfoldable pub drop_chunk : State → LruTracker → LruEntry → State
unfolding unlink
drop_chunk s lru e =
    let (_, disk) = unlink s.disk e.path in
    record {
      manager = record s.manager { lru = lru; current_size = sub64 s.manager.current_size e.size };
      disk = disk;
    }

-- The loop of `ensureCacheSpace`; each round evicts an entry, so the fuel is their number.
unfoldable pub evict_until_fits : ℕ → ℕ → State → State
unfolding evict_oldest drop_chunk
evict_until_fits zero needed s = s
evict_until_fits (suc f) needed s =
    if lt64 s.manager.max_cache_size (add64 s.manager.current_size needed)
    then (let (lru, evicted) = evict_oldest s.manager.lru in
        elim evicted [ some e ↦ evict_until_fits f needed (drop_chunk s lru e) | none ↦ s ])
    else s

unfoldable pub ensure_cache_space : ℕ → State → State
unfolding evict_until_fits len
ensure_cache_space needed s = evict_until_fits (len s.manager.lru) needed s

-- One round of the loop of `Evict`: the bytes of an entry count as freed if its file was removed.
unfoldable pub free_chunk : ℕ → State → LruTracker → LruEntry → ℕ × State
unfolding unlink
free_chunk freed s lru e =
    let (failed, disk) = unlink s.disk e.path in
    elim failed [
      | none ↦ (
        add64 freed e.size,
        record {
          manager = record s.manager {
            lru = lru;
            current_size = sub64 s.manager.current_size e.size;
          };
          disk = disk;
        },
      )
      | some _ ↦ (freed, record { manager = record s.manager { lru = lru }; disk = disk })
    ]

-- The loop of `Evict`, with the bytes freed so far.
unfoldable pub evict_loop : ℕ → ℕ → ℕ → State → ℕ × State
unfolding evict_oldest free_chunk
evict_loop zero target freed s = (freed, s)
evict_loop (suc f) target freed s =
    if lt64 freed target
    then (let (lru, evicted) = evict_oldest s.manager.lru in
        elim evicted [
          | some e ↦ let (freed', s') = free_chunk freed s lru e in evict_loop f target freed' s'
          | none ↦ (freed, s)
        ])
    else (freed, s)

unfoldable pub evict : ℕ → State → ℕ × State
unfolding evict_loop len
evict target s = evict_loop (len s.manager.lru) target 0 s

module _ (o : Outside) where
  unfoldable pub get_chunk_dir : ChunkManager → Bytes → Bytes
  unfolding files_dir
  get_chunk_dir cm path = files_dir cm ++ b'/' ∷ o.path_to_hash path

  unfoldable pub get_chunk_path : ChunkManager → Bytes → ℕ → Bytes
  unfolding get_chunk_dir chunk_file_name
  get_chunk_path cm path chunk_id = get_chunk_dir cm path ++ b'/' ∷ chunk_file_name chunk_id

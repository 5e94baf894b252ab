-- ===== src/Cache/Read.antt =====
-- cache/manager.go: `Read`, which puts a range together from chunks.
pub mod Correct
use s3_2_smb.Base.{
  ℕ, zero, suc, ◌+◌, ◌-◌, ◌*◌, ◌%◌, not, Bytes, Bool, true, false, Option, none, some, List, [],
  ◌∷◌, ◌++◌, ◌==◌, ◌&&◌, ◌||◌, eqb, if◌then◌else◌, codes, length, take, drop, add64, sub64, lt64,
  div64, word, sign, leb, ltb, Result, ok, err, has_prefix,
}
use s3_2_smb.Disk.{
  Disk, OsError, OsCall, file, exists, make_dirs, write, move, unlink, list_dir, not_exist,
  read_file, open_file, read_dir, stat,
}
use s3_2_smb.Cache.Lru.{
  LruTracker, LruEntry, new_lru_tracker, add, add_with_time, touch, remove, evict_oldest, len,
}
use s3_2_smb.Cache.Manager.Names.{chunk_file_name, chunk_key, scan_chunk_name}
use s3_2_smb.Cache.Manager.{
  chunk_size, ChunkManager, State, Outside, files_dir, offset_to_chunk_id, chunk_exists,
  ensure_cache_space, get_chunk_dir, get_chunk_path,
}
use s3_2_smb.Cache.Download.{Wait, ensure_chunk}

-- What reading a chunk file gives: its bytes, and an error; the end of the file is one.
pub data ReadError : Type 0 where
  eof : ReadError
  read_error : Bytes → ReadError

pub record Chunk : Type 0 where
  pub bytes : Bytes
  pub error : Option ReadError

-- One `f.Read` of at most `n` bytes, with the fault that it meets.
unfoldable pub read_bytes : Option Bytes → Bytes → ℕ → ℕ → Chunk
read_bytes (some m) c offset n = record { bytes = []; error = some (read_error m) }
read_bytes none c offset n =
    if leb (length c) offset && ltb 0 n
    then record { bytes = []; error = some eof }
    else record { bytes = take n (drop offset c); error = none }

-- `readFromChunk`: open, seek, and one read of at most `n` bytes. An offset below zero is refused.
unfoldable pub read_from_chunk : Disk → Bytes → ℕ → ℕ → Chunk
unfolding file read_bytes
read_from_chunk d chunk_path offset n = elim (d.fault open_file chunk_path) [
  | some m ↦ record {
    bytes = [];
    error = some (read_error (codes "failed to open chunk file: " ++ m));
  }
  | none ↦ elim (file d chunk_path) [
    | none ↦ record {
      bytes = [];
      error = some (read_error (codes "failed to open chunk file: no such file or directory"));
    }
    | some c ↦
        if leb sign offset
        then record {
          bytes = [];
          error = some (read_error (codes "failed to seek in chunk file: invalid argument"));
        }
        else read_bytes (d.fault read_file chunk_path) c offset n
  ]
]

-- What `Read` returns: the bytes at the front of the buffer, and an error.
pub record Got : Type 0 where
  pub bytes : Bytes
  pub error : Option Bytes

abbrev pub bytes_to_read : ℕ → ℕ → ℕ
bytes_to_read remaining available = if lt64 available remaining then available else remaining

-- How a round of the loop of `Read` goes on: it returns, or it goes round again.
pub data Round : Type 0 where
  return : Got → Round
  again : ℕ → ℕ → Bytes → Round

unfoldable pub read_round : Bytes → Chunk → ℕ → ℕ → ℕ → Round
read_round total c wanted remaining offset = elim c.error [
  | some eof ↦ return (record { bytes = total ++ c.bytes; error = none })
  | some (read_error m) ↦ return (record { bytes = total ++ c.bytes; error = some m })
  | none ↦
      if ltb (length c.bytes) wanted
      then return (record { bytes = total ++ c.bytes; error = none })
      else again (remaining - length c.bytes) (add64 offset (length c.bytes)) (total ++ c.bytes)
]

-- A round with the outcome of `ensureChunk`. An error after some bytes ends the read without one.
unfoldable pub read_ensured : Bytes → ℕ → ℕ → ℕ → ℕ → Result Bytes × State → Round × State
read_ensured total remaining offset offset_in_chunk wanted (err m, s) = (
  return (
      if ltb 0 (length total)
      then record { bytes = total; error = none }
      else record { bytes = []; error = some m }),
  s,
)
read_ensured total remaining offset offset_in_chunk wanted (ok chunk_path, s) = (
  read_round total (read_from_chunk s.disk chunk_path offset_in_chunk wanted) wanted remaining
      offset,
  s,
)

module _ (o : Outside) (others : State → Wait) where
  -- One round: which chunk, which part of it, and what reading it gives.
  unfoldable pub read_step : ℕ → State → Bytes → ℕ → ℕ → Bytes → Round × State
  read_step now s path remaining offset total =
      let chunk_id = offset_to_chunk_id offset in
      let offset_in_chunk = sub64 offset ((chunk_id * chunk_size) % word) in
      let wanted = bytes_to_read remaining (sub64 chunk_size offset_in_chunk) in
      read_ensured total remaining offset offset_in_chunk wanted
        (ensure_chunk o others now s path chunk_id)

  -- The loop of `Read`; each round that goes on reads a byte at least, so the fuel is what remains.
  unfoldable pub read_loop : ℕ → ℕ → State → Bytes → ℕ → ℕ → Bytes → Got × State
  read_loop zero now s path remaining offset total = (record { bytes = total; error = none }, s)
  read_loop (suc f) now s path remaining offset total =
      if remaining == 0
      then (record { bytes = total; error = none }, s)
      else (let (round, s') = read_step now s path remaining offset total in
          elim round [
            | return got ↦ (got, s')
            | again remaining' offset' total' ↦ read_loop f now s' path remaining' offset' total'
          ])

  -- `Read`: a size below one, or past the buffer, is refused.
  unfoldable pub read : ℕ → State → Bytes → ℕ → ℕ → ℕ → Got × State
  read now s path offset size buffer_len =
      if not (lt64 0 size) || lt64 buffer_len size
      then (record { bytes = []; error = some (codes "invalid buffer size") }, s)
      else read_loop size now s path size offset []

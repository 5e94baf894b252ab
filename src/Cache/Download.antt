-- ===== src/Cache/Download.antt =====
-- cache/manager.go: downloading a chunk and waiting for one (`ensureChunk`, `downloadChunk`).
pub mod Correct
use s3_2_smb.Base.{
  ℕ, zero, suc, ◌+◌, ◌-◌, ◌*◌, ◌%◌, not, Bytes, Bool, true, false, Option, none, some, List, [],
  ◌∷◌, ◌++◌, ◌==◌, ◌&&◌, ◌||◌, eqb, if◌then◌else◌, codes, length, take, drop, add64, sub64, lt64,
  div64, word, sign, leb, ltb, Result, ok, err, has_prefix,
}
use s3_2_smb.Disk.{
  Disk, OsError, OsCall, file, exists, make_dirs, write, move, unlink, list_dir, not_exist,
  read_file, open_file, read_dir, stat,
}
use s3_2_smb.Cache.Lru.{
  LruTracker, LruEntry, new_lru_tracker, add, add_with_time, touch, remove, evict_oldest, len,
}
use s3_2_smb.Cache.Manager.Names.{chunk_file_name, chunk_key, scan_chunk_name}
use s3_2_smb.Cache.Manager.{
  chunk_size, ChunkManager, State, Outside, files_dir, offset_to_chunk_id, chunk_exists,
  ensure_cache_space, get_chunk_dir, get_chunk_path,
}

-- The end of `downloadChunk`: to a temporary file, then to its place.
unfoldable pub finalize_chunk : Disk → Bytes → Bytes → Option Bytes × Disk
unfolding move unlink
finalize_chunk disk temp_path chunk_path =
    let (failed, disk') = move disk temp_path chunk_path in
    elim failed [
      | some m ↦ (some (codes "failed to finalize chunk file: " ++ m), (unlink disk' temp_path).1)
      | none ↦ (none, disk')
    ]

unfoldable pub store_chunk : Disk → Bytes → Bytes → Option Bytes × Disk
unfolding write finalize_chunk
store_chunk disk chunk_path bytes =
    let temp_path = chunk_path ++ codes ".tmp" in
    let (failed, disk') = write disk temp_path bytes in
    elim failed [
      | some m ↦ (some (codes "failed to write chunk to disk: " ++ m), disk')
      | none ↦ finalize_chunk disk' temp_path chunk_path
    ]

-- The update under the lock, after a download.
unfoldable pub record_chunk : ℕ → ChunkManager → Bytes → Bytes → ℕ → ChunkManager
unfolding add
record_chunk now cm key chunk_path size = record cm {
  current_size = add64 cm.current_size size;
  lru = add now cm.lru key chunk_path size;
}

module _ (o : Outside) where
  -- `downloadChunk`: the error, if any.
  unfoldable pub download_chunk : ℕ → State → Bytes → ℕ → Bytes → Option Bytes × State
  unfolding ensure_cache_space make_dirs store_chunk record_chunk chunk_key
  download_chunk now s path chunk_id chunk_path =
      let s1 = ensure_cache_space chunk_size s in
      elim (make_dirs s1.disk (get_chunk_dir o s.manager path)) [
        | some m ↦ (some (codes "failed to create chunk directory: " ++ m), s1)
        | none ↦ elim (o.get_object_chunk path ((chunk_id * chunk_size) % word) chunk_size) [
          | err m ↦ (some (codes "failed to download chunk from S3: " ++ m), s1)
          | ok bytes ↦
              let (failed, disk) = store_chunk s1.disk chunk_path bytes in
              elim failed [
                | some m ↦ (some m, record s1 { disk = disk })
                | none ↦ (
                  none,
                  record {
                    manager =
                        record_chunk now s1.manager (chunk_key path chunk_id) chunk_path
                          (length bytes);
                    disk = disk;
                  },
                )
              ]
        ]
      ]

-- How a wait on another goroutine's download ends: its channel is closed, or the context is done,
-- with the state that the others have left.
pub data Wait : Type 0 where
  closed : State → Wait
  cancelled : Bytes → State → Wait

unfoldable pub is_downloading : Bytes → List Bytes → Bool
is_downloading key [] = false
is_downloading key (k ∷ ks) = if eqb k key then true else is_downloading key ks

unfoldable pub end_download : Bytes → List Bytes → List Bytes
end_download key [] = []
end_download key (k ∷ ks) = let rest = end_download key ks in if eqb k key then rest else k ∷ rest

-- After the wait.
unfoldable pub after_wait : Bytes → Wait → Result Bytes × State
after_wait chunk_path (closed s) =
    (if exists s.disk chunk_path then ok chunk_path else err (codes "chunk download failed"), s)
after_wait chunk_path (cancelled m s) = (err m, s)

-- `downloading` is marked during the download and unmarked after it.
unfoldable pub begin_download : Bytes → State → State
begin_download key s = record s {
  manager = record s.manager { downloading = key ∷ s.manager.downloading };
}

unfoldable pub finish_download : Bytes → Bytes → Option Bytes × State → Result Bytes × State
unfolding end_download
finish_download key chunk_path (failed, s) =
    let s' = record s {
      manager = record s.manager { downloading = end_download key s.manager.downloading };
    } in
    elim failed [ some m ↦ (err m, s') | none ↦ (ok chunk_path, s') ]

module _ (o : Outside) (others : State → Wait) where
  unfoldable pub ensure_chunk : ℕ → State → Bytes → ℕ → Result Bytes × State
  unfolding get_chunk_path chunk_key exists touch is_downloading after_wait begin_download
      download_chunk finish_download
  ensure_chunk now s path chunk_id =
      let chunk_path = get_chunk_path o s.manager path chunk_id in
      let key = chunk_key path chunk_id in
      if chunk_exists s.disk chunk_path
      then (
        ok chunk_path,
        record s { manager = record s.manager { lru = touch now s.manager.lru key chunk_path } },
      )
      else if is_downloading key s.manager.downloading
      then after_wait chunk_path (others s)
      else finish_download key chunk_path
          (download_chunk o now (begin_download key s) path chunk_id chunk_path)

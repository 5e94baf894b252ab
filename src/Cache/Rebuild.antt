-- ===== src/Cache/Rebuild.antt =====
-- cache/manager.go: what changes the cache as a whole (`InvalidateFile`, `scanExistingCache`,
-- `NewChunkManagerWithSize`, `Stats`).
use s3_2_smb.Base.{
  ℕ, Bytes, Option, none, some, List, [], ◌∷◌, ◌++◌, eqb, if◌then◌else◌, codes, length, take, add64,
  sub64, leb, Result, ok, err,
}
use s3_2_smb.Disk.{Disk, unlink, list_dir, cut_prefix, contains_byte, make_dirs, read_dir, stat}
use s3_2_smb.Cache.Lru.{LruTracker, new_lru_tracker, add_with_time, remove, len}
use s3_2_smb.Cache.Manager.Names.{chunk_key, scan_chunk_name}
use s3_2_smb.Cache.Manager.{ChunkManager, State, Outside, files_dir, get_chunk_dir}

-- The tracker's part of one round of the loop of `InvalidateFile`.
unfoldable pub forget_chunk : LruTracker → Bytes → Bytes → LruTracker
unfolding scan_chunk_name remove chunk_key
forget_chunk lru path name = elim (scan_chunk_name name) [
  | some chunk_id ↦ (remove lru (chunk_key path chunk_id)).0
  | none ↦ lru
]

-- The loop of `InvalidateFile` over the entries of the directory. An entry whose Info fails is
-- skipped; the size of any other is taken off, whatever its name; a failure to remove is ignored.
unfoldable pub invalidate_entries : Bytes → Bytes → List (Bytes × Bytes) → State → State
unfolding forget_chunk unlink
invalidate_entries path chunk_dir [] s = s
invalidate_entries path chunk_dir ((name, bytes) ∷ entries) s =
    let chunk_path = chunk_dir ++ b'/' ∷ name in
    let s' : State = elim (s.disk.fault stat chunk_path) [
      | some _ ↦ s
      | none ↦ record {
        manager = record s.manager {
          lru = forget_chunk s.manager.lru path name;
          current_size = sub64 s.manager.current_size (length bytes);
        };
        disk = (unlink s.disk chunk_path).1;
      }
    ] in
    invalidate_entries path chunk_dir entries s'

-- `InvalidateFile`: the error, if any. A directory that is not there holds no chunk.
unfoldable pub invalidate_file : Outside → State → Bytes → Option Bytes × State
unfolding get_chunk_dir list_dir invalidate_entries
invalidate_file o s path =
    let chunk_dir = get_chunk_dir o s.manager path in
    elim (s.disk.fault read_dir chunk_dir) [
      | some m ↦ (some m, s)
      | none ↦ (none, invalidate_entries path chunk_dir (list_dir chunk_dir s.disk.files) s)
    ]

-- filepath.Base of a path below a directory: what follows its last slash.
unfoldable pub file_base : Bytes → Bytes
unfolding contains_byte
file_base [] = []
file_base (c ∷ s) = if contains_byte b'/' (c ∷ s) then file_base s else c ∷ s

-- The loop of `scanExistingCache`, over the files that Walk visits, in its order. `none` is the
-- panic of the slice `[:6]` on a shorter name.
unfoldable pub scan_files : (Bytes → ℕ) → List (Bytes × Bytes) → ChunkManager → Option ChunkManager
unfolding file_base add_with_time
scan_files mod_time [] cm = some cm
scan_files mod_time ((path, bytes) ∷ files) cm =
    let added = record cm {
      lru = add_with_time cm.lru path path (length bytes) (mod_time path);
      current_size = add64 cm.current_size (length bytes);
    } in
    if leb 6 (length (file_base path))
    then scan_files mod_time files
        (if eqb (take 6 (file_base path)) (codes "chunk_") then added else cm)
    else none

-- The files below a directory.
unfoldable pub files_below : Bytes → List (Bytes × Bytes) → List (Bytes × Bytes)
unfolding cut_prefix
files_below dir [] = []
files_below dir ((path, bytes) ∷ files) =
    let rest = files_below dir files in
    elim (cut_prefix (dir ++ b'/' ∷ []) path) [ some _ ↦ (path, bytes) ∷ rest | none ↦ rest ]

unfoldable pub scan_existing_cache : (Bytes → ℕ) → Disk → ChunkManager → Option ChunkManager
unfolding files_below files_dir scan_files
scan_existing_cache mod_time d cm = elim (d.fault stat (files_dir cm)) [
  | some _ ↦ some cm
  | none ↦ scan_files mod_time (files_below (files_dir cm) d.files) cm
]

unfoldable pub new_chunk_manager_with_size :
    (Bytes → ℕ) → Disk → Bytes → ℕ → Option (Result ChunkManager)
unfolding make_dirs files_dir scan_existing_cache new_lru_tracker
new_chunk_manager_with_size mod_time d cache_dir max_cache_size =
    let cm : ChunkManager = record {
      cache_dir = cache_dir;
      max_cache_size = max_cache_size;
      lru = new_lru_tracker;
      current_size = 0;
      downloading = [];
    } in
    elim (make_dirs d (files_dir cm)) [
      | some m ↦ some (err (codes "failed to create cache directory: " ++ m))
      | none ↦ elim (scan_existing_cache mod_time d cm) [ some cm' ↦ some (ok cm') | none ↦ none ]
    ]

-- `Stats`, without the percentage, which is a float.
pub record CacheStats : Type 0 where
  pub current_size : ℕ
  pub max_size : ℕ
  pub chunk_count : ℕ

unfoldable pub stats : ChunkManager → CacheStats
unfolding len
stats cm = record {
  current_size = cm.current_size;
  max_size = cm.max_cache_size;
  chunk_count = len cm.lru;
}

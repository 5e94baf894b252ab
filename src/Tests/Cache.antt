-- ===== src/Tests/Cache.antt =====
-- The chunk cache and its LRU tracker.
use s3_2_smb.Base.{Bytes, eqb, sign, ◌<◌, ◌≡◌, ◌≤◌, ◌+◌, refl, none, [], ◌∷◌, codes, arith}
use s3_2_smb.Disk.{file}
use s3_2_smb.Cache.Manager.{State, ensure_cache_space, get_chunk_path}
use s3_2_smb.Cache.Manager.Space.{
  IsAccounted, HasRoom, ensure_cache_space_lem, ensure_cache_space-fits, ensure_cache_space-zero,
}
use s3_2_smb.Cache.Lru.{total_size, LruTracker, new_lru_tracker, add_with_time}
use s3_2_smb.Cache.Lru.Invariant.{IsValid, new_lru_tracker-IsValid, add_with_time-IsValid}
use s3_2_smb.Cache.Lru.Runs.{Call, touching, evicting, run, run-spec, spec_run}
use s3_2_smb.Cache.Lru.Refinement.{values}
use s3_2_smb.Cache.Lru.Sizes.{sum}
use s3_2_smb.Cache.Coherence.{slice, IsCoherent}
use s3_2_smb.Cache.Download.{ensure_chunk, closed}
use s3_2_smb.Cache.Download.Correct.{Ensured, ensure_chunk_lem}
use s3_2_smb.Cache.Read.{read}
use s3_2_smb.Cache.Read.Correct.{read_lem}
use s3_2_smb.Tests.Sample.{
  absent, reader, reader-Serves, content, empty_state, manager_of, empty_disk,
}

pub empty_state-IsCoherent :
    (path : Bytes) → IsCoherent reader (codes "/c") path content empty_state
unfolding file
empty_state-IsCoherent path = record {
  cache_dir = refl;
  no_fault = λ c p. refl;
  chunks = λ i bytes small h. absent bytes (slice content i) h;
}

read_lem_example :
    (read reader closed 5 empty_state (codes "p") 1 2 2).0
    ≡ record { bytes = 8 ∷ 9 ∷ []; error = none }
read_lem_example =
    read_lem reader closed (codes "/c") (codes "p") content (reader-Serves (codes "p")) 5
      empty_state 1 2 (omega arith) (omega arith) (omega arith) (empty_state-IsCoherent (codes "p"))
      refl

ensure_chunk_lem_example :
    Ensured reader
      (codes "/c")
      (codes "p")
      content
      (reader-Serves (codes "p"))
      0
      (get_chunk_path reader empty_state.manager (codes "p") 0)
      (ensure_chunk reader closed 5 empty_state (codes "p") 0)
    × IsCoherent reader
        (codes "/c")
        (codes "p")
        content
        (ensure_chunk reader closed 5 empty_state (codes "p") 0).1
    × ((ensure_chunk reader closed 5 empty_state (codes "p") 0).1.manager.downloading ≡ [])
ensure_chunk_lem_example =
    ensure_chunk_lem reader (codes "/c") (codes "p") content (reader-Serves (codes "p")) closed 5
      empty_state 0 (omega arith) (empty_state-IsCoherent (codes "p")) refl

abbrev calls : Call × Call
calls = (touching 3 (codes "a") (codes "p"), evicting)

run-spec_example :
    IsValid (run (calls.0 ∷ calls.1 ∷ []) new_lru_tracker).0
    × ((
      values (run (calls.0 ∷ calls.1 ∷ []) new_lru_tracker).0.list,
      (run (calls.0 ∷ calls.1 ∷ []) new_lru_tracker).1,
    )
        ≡ spec_run (calls.0 ∷ calls.1 ∷ []) (values new_lru_tracker.list))
run-spec_example = run-spec (calls.0 ∷ calls.1 ∷ []) new_lru_tracker new_lru_tracker-IsValid

abbrev two_chunks : LruTracker
two_chunks =
    add_with_time (add_with_time new_lru_tracker (codes "p:0") (codes "/c/0") 100 1) (codes "p:1")
      (codes "/c/1") 40 2

abbrev full : State
full = record { manager = manager_of two_chunks 140; disk = empty_disk }

full-IsAccounted : IsAccounted full.manager
unfolding add_with_time new_lru_tracker eqb total_size
full-IsAccounted = record {
  valid =
      add_with_time-IsValid (add_with_time new_lru_tracker (codes "p:0") (codes "/c/0") 100 1)
        (codes "p:1") (codes "/c/1") 40 2
        (add_with_time-IsValid new_lru_tracker (codes "p:0") (codes "/c/0") 100 1
          new_lru_tracker-IsValid);
  sized = (omega arith, (omega arith, tt));
  accounted = refl;
}

ensure_cache_space_lem_example :
    IsAccounted (ensure_cache_space 60 full).manager × HasRoom 60 (ensure_cache_space 60 full)
ensure_cache_space_lem_example = ensure_cache_space_lem 60 full full-IsAccounted

full_small : sum two_chunks.list + 60 < sign
unfolding add_with_time new_lru_tracker eqb
full_small = omega arith

ensure_cache_space-fits_example : (ensure_cache_space 60 full).manager.current_size + 60 ≤ 150
ensure_cache_space-fits_example =
    ensure_cache_space-fits 60 full full-IsAccounted full_small (omega arith) (omega arith)

abbrev unlimited : State
unlimited = record full { manager = record full.manager { max_cache_size = 0 } }

unlimited-IsAccounted : IsAccounted unlimited.manager
unlimited-IsAccounted = record {
  valid = full-IsAccounted.valid;
  sized = full-IsAccounted.sized;
  accounted = full-IsAccounted.accounted;
}

ensure_cache_space-zero_example : (ensure_cache_space 60 unlimited).manager.lru.list ≡ []
ensure_cache_space-zero_example =
    ensure_cache_space-zero 60 unlimited unlimited-IsAccounted refl (omega arith) full_small

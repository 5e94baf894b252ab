-- ===== src/Cache/Manager/Space.antt =====
-- `ensureCacheSpace` and `Evict`: the accounting of the cache's size, and when their loops end.
use Prim.Native.Nat.{suc}
use s3_2_smb.Base.{
  ℕ, zero, ◌+◌, ◌≤◌, ◌<◌, Bytes, false, ◌≡◌, refl, ◌∙◌, ap, some, List, [], ◌∷◌, inl, inr, ◌⊎◌,
  arith, add64, lt64, sign, Option-cases, Bool-cases, length,
}
use s3_2_smb.Disk.{file}
use s3_2_smb.Disk.Laws.{unlink-fault, file-unlink}
use s3_2_smb.Cache.Lru.{LruTracker, LruEntry, evict_oldest, total_size, len}
use s3_2_smb.Cache.Lru.Invariant.{IsValid, evict_oldest-IsValid}
use s3_2_smb.Cache.Lru.Sizes.{IsSized, sum, total_size-sum, evict_oldest-sum, evict_oldest-empty}
use s3_2_smb.Cache.Manager.{State, ChunkManager, drop_chunk, evict_until_fits, ensure_cache_space}

-- `currentSize` is the total of the tracked sizes.
pub record IsAccounted (cm : ChunkManager) : Type 0 where
  pub valid : IsValid cm.lru
  pub sized : IsSized cm.lru.list
  pub accounted : cm.current_size ≡ total_size cm.lru

-- The state after one eviction.
module _ (s : State) (e : LruEntry) (found : (evict_oldest s.manager.lru).1 ≡ some e) where
  pub drop_chunk-IsAccounted :
      IsAccounted s.manager → IsAccounted (drop_chunk s (evict_oldest s.manager.lru).0 e).manager
  unfolding drop_chunk
  drop_chunk-IsAccounted a =
      let (total, small, sized, _) = evict_oldest-sum s.manager.lru e a.valid a.sized found in
      record {
        valid = evict_oldest-IsValid s.manager.lru a.valid;
        sized = sized;
        accounted = omega (
          arith,
          a.accounted,
          total_size-sum s.manager.lru,
          total_size-sum (evict_oldest s.manager.lru).0,
        );
      }

-- The loop stops because the rest fits, or because nothing is tracked any more.
abbrev pub HasRoom : ℕ → State → Type 0
HasRoom needed s =
    (lt64 s.manager.max_cache_size (add64 s.manager.current_size needed) ≡ false)
    ⊎ (s.manager.lru.list ≡ [])

length_zero {ℓ} : {A : Type ℓ} (l : List A) → length l ≤ 0 → l ≡ []
length_zero [] h = refl
length_zero (x ∷ l) h = absurd (omega arith)

pub evict_until_fits_lem :
    (f needed : ℕ) (s : State)
    → IsAccounted s.manager
    → length s.manager.lru.list ≤ f
    → IsAccounted (evict_until_fits f needed s).manager
      × HasRoom needed (evict_until_fits f needed s)
unfolding evict_until_fits drop_chunk
evict_until_fits_lem zero needed s a h = (a, inr (length_zero s.manager.lru.list h))
evict_until_fits_lem (suc f) needed s a h =
    elim (Bool-cases (lt64 s.manager.max_cache_size (add64 s.manager.current_size needed))) [
      | inr fits ↦ rw (fits, evict_until_fits) (a, inl fits)
      | inl full ↦ elim (Option-cases (evict_oldest s.manager.lru).1) [
        | inl empty ↦
            rw (full, evict_until_fits, empty) (a, inr (evict_oldest-empty s.manager.lru empty).0)
        | inr (e, found) ↦
            rw (full, evict_until_fits, found)
              (evict_until_fits_lem f needed (drop_chunk s (evict_oldest s.manager.lru).0 e)
                (drop_chunk-IsAccounted s e found a)
                (omega (arith, (evict_oldest-sum s.manager.lru e a.valid a.sized found).3)))
      ]
    ]

-- What eviction leaves alone: the settings, the faults, and the bytes of every file that is left.
pub record Frame (s s' : State) : Type 0 where
  pub cache_dir : s'.manager.cache_dir ≡ s.manager.cache_dir
  pub max_cache_size : s'.manager.max_cache_size ≡ s.manager.max_cache_size
  pub downloading : s'.manager.downloading ≡ s.manager.downloading
  pub fault : s'.disk.fault ≡ s.disk.fault
  pub files : (p c : Bytes) → file s'.disk p ≡ some c → file s.disk p ≡ some c

Frame-refl : (s : State) → Frame s s
Frame-refl s = record {
  cache_dir = refl;
  max_cache_size = refl;
  downloading = refl;
  fault = refl;
  files = λ p c h. h;
}

Frame-trans : {s t u : State} → Frame s t → Frame t u → Frame s u
Frame-trans f g = record {
  cache_dir = g.cache_dir ∙ f.cache_dir;
  max_cache_size = g.max_cache_size ∙ f.max_cache_size;
  downloading = g.downloading ∙ f.downloading;
  fault = g.fault ∙ f.fault;
  files = λ p c h. f.files p c (g.files p c h);
}

drop_chunk-Frame : (s : State) (lru : LruTracker) (e : LruEntry) → Frame s (drop_chunk s lru e)
unfolding drop_chunk
drop_chunk-Frame s lru e = record {
  cache_dir = refl;
  max_cache_size = refl;
  downloading = refl;
  fault = unlink-fault s.disk e.path;
  files = λ p c h. file-unlink s.disk e.path p c h;
}

evict_until_fits-Frame : (f needed : ℕ) (s : State) → Frame s (evict_until_fits f needed s)
unfolding evict_until_fits
evict_until_fits-Frame zero needed s = Frame-refl s
evict_until_fits-Frame (suc f) needed s =
    elim (Bool-cases (lt64 s.manager.max_cache_size (add64 s.manager.current_size needed))) [
      | inr fits ↦ rw (fits, evict_until_fits) (Frame-refl s)
      | inl full ↦ elim (Option-cases (evict_oldest s.manager.lru).1) [
        | inl empty ↦ rw (full, evict_until_fits, empty) (Frame-refl s)
        | inr (e, found) ↦
            let next = drop_chunk s (evict_oldest s.manager.lru).0 e in
            rw (full, evict_until_fits, found)
              (Frame-trans (drop_chunk-Frame s (evict_oldest s.manager.lru).0 e)
                (evict_until_fits-Frame f needed next))
      ]
    ]

pub ensure_cache_space-Frame : (needed : ℕ) (s : State) → Frame s (ensure_cache_space needed s)
unfolding ensure_cache_space
ensure_cache_space-Frame needed s = evict_until_fits-Frame (len s.manager.lru) needed s

-- On a manager whose accounting is right, `ensureCacheSpace` keeps it right, and its loop, which as many rounds as there are entries
-- always end, stops only when the bytes fit or nothing is left to evict.
pub ensure_cache_space_lem :
    (needed : ℕ) (s : State)
    → IsAccounted s.manager
    → IsAccounted (ensure_cache_space needed s).manager
      × HasRoom needed (ensure_cache_space needed s)
unfolding ensure_cache_space len
ensure_cache_space_lem needed s a =
    evict_until_fits_lem (length s.manager.lru.list) needed s a (omega arith)

evict_until_fits-sum-le :
    (f needed : ℕ) (s : State)
    → IsAccounted s.manager
    → sum (evict_until_fits f needed s).manager.lru.list ≤ sum s.manager.lru.list
unfolding evict_until_fits drop_chunk
evict_until_fits-sum-le zero needed s a = omega arith
evict_until_fits-sum-le (suc f) needed s a =
    elim (Bool-cases (lt64 s.manager.max_cache_size (add64 s.manager.current_size needed))) [
      | inr fits ↦ rw (fits, evict_until_fits) (omega arith)
      | inl full ↦ elim (Option-cases (evict_oldest s.manager.lru).1) [
        | inl empty ↦ rw (full, evict_until_fits, empty) (omega arith)
        | inr (e, found) ↦
            let next = drop_chunk s (evict_oldest s.manager.lru).0 e in
            rw (full, evict_until_fits, found)
              (omega (
                arith,
                evict_until_fits-sum-le f needed next (drop_chunk-IsAccounted s e found a),
                (evict_oldest-sum s.manager.lru e a.valid a.sized found).0,
              ))
      ]
    ]

-- A state with room, of which little is tracked, has the needed bytes below its maximum.
fits_of_HasRoom :
    (needed : ℕ) (cm : ChunkManager)
    → IsAccounted cm
    → sum cm.lru.list + needed < sign
    → needed ≤ cm.max_cache_size
    → cm.max_cache_size < sign
    → (lt64 cm.max_cache_size (add64 cm.current_size needed) ≡ false) ⊎ (cm.lru.list ≡ [])
    → cm.current_size + needed ≤ cm.max_cache_size
fits_of_HasRoom needed cm a small least most (inl room) =
    let total = total_size-sum cm.lru in ground (arith, a.accounted)
fits_of_HasRoom needed cm a small least most (inr empty) =
    let total = total_size-sum cm.lru in ground (arith, a.accounted, ap sum empty)

empty_of_HasRoom :
    (needed : ℕ) (cm : ChunkManager)
    → IsAccounted cm
    → cm.max_cache_size ≡ 0
    → 0 < needed
    → sum cm.lru.list + needed < sign
    → (lt64 cm.max_cache_size (add64 cm.current_size needed) ≡ false) ⊎ (cm.lru.list ≡ [])
    → cm.lru.list ≡ []
empty_of_HasRoom needed cm a unlimited some_bytes small (inr empty) = empty
empty_of_HasRoom needed cm a unlimited some_bytes small (inl room) =
    let total = total_size-sum cm.lru in absurd (ground (arith, a.accounted))

ensure_cache_space-sum-le :
    (needed : ℕ) (s : State)
    → IsAccounted s.manager
    → sum (ensure_cache_space needed s).manager.lru.list ≤ sum s.manager.lru.list
unfolding ensure_cache_space
ensure_cache_space-sum-le needed s a = evict_until_fits-sum-le (len s.manager.lru) needed s a

-- If the accounting is right, the needed bytes are no more than the maximum, and that and the
-- tracked sizes with the needed bytes are below 2 ^ 63, then the needed bytes fit after
-- `ensureCacheSpace`.
pub ensure_cache_space-fits :
    (needed : ℕ) (s : State)
    → IsAccounted s.manager
    → sum s.manager.lru.list + needed < sign
    → needed ≤ s.manager.max_cache_size
    → s.manager.max_cache_size < sign
    → (ensure_cache_space needed s).manager.current_size + needed ≤ s.manager.max_cache_size
ensure_cache_space-fits needed s a small least most =
    let same = (ensure_cache_space-Frame needed s).max_cache_size in
    let (b, room) = ensure_cache_space_lem needed s a in
    let less = ensure_cache_space-sum-le needed s a in
    let fits =
      fits_of_HasRoom needed (ensure_cache_space needed s).manager b (omega arith) (omega arith)
        (omega arith) room in
    omega arith

-- With a maximum of 0, which the configuration documents as no limit, `ensureCacheSpace` for one
-- byte or more evicts all that is tracked, if the accounting is right and the sizes are far below
-- 2 ^ 63.
pub ensure_cache_space-zero :
    (needed : ℕ) (s : State)
    → IsAccounted s.manager
    → s.manager.max_cache_size ≡ 0
    → 0 < needed
    → sum s.manager.lru.list + needed < sign
    → (ensure_cache_space needed s).manager.lru.list ≡ []
ensure_cache_space-zero needed s a unlimited some_bytes small =
    let same = (ensure_cache_space-Frame needed s).max_cache_size in
    let (b, room) = ensure_cache_space_lem needed s a in
    let less = ensure_cache_space-sum-le needed s a in
    empty_of_HasRoom needed (ensure_cache_space needed s).manager b (omega arith) some_bytes
      (omega arith) room

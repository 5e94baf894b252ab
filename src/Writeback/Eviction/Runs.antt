-- ===== src/Writeback/Eviction/Runs.antt =====
-- What a whole run of processCacheEviction leaves of each row and each file.
use mathlib.Core.Path.{subst}
use s3_2_smb.Base.{
  ℕ, suc, Bytes, ◌≡◌, ◌≢◌, ◌∙◌, refl, sym, ap, ◌⊎◌, inl, inr, true, false, none, some, List, [],
  ◌∷◌, eqb, eqb_iff, ok, Bool-cases, Option-cases, arith, Result-cases,
}
use s3_2_smb.Disk.{file}
use s3_2_smb.Metadata.Paths.{normalize_path}
use s3_2_smb.Metadata.Entry.{FileEntry}
use s3_2_smb.Metadata.Database.{Lawful, Member, clean_and_staged, selects}
use s3_2_smb.Fuse.World.{Environment, World}
use s3_2_smb.Writeback.Upload.{Schedule}
use s3_2_smb.Writeback.Eviction.{evict_entry, evict_all, process_cache_eviction}
use s3_2_smb.Writeback.Eviction.Safety.{Evicted, Turn, evict_entry-Turn, unstaged}

-- The row is as it was, or it had no mark, and its staging path and file are gone.
abbrev pub Held : (v : Environment) → FileEntry → World v → Type 0
Held v e w =
    (v.database.row w.db e.path ≡ some e)
    ⊎ ((e.local_dirty ≡ false)
        × (v.database.row w.db e.path ≡ some (unstaged e))
        × (file w.disk e.local_staging_path ≡ none))

module _ (v : Environment) (l : Lawful v.database) (w0 : World v)
    (normals : (p : Bytes) (x : FileEntry) → v.database.row w0.db p ≡ some x → normalize_path p ≡ p)
    (r : Schedule) (now retention : ℕ) where
  -- The entries of a run are rows without the mark.
  abbrev Cached : List FileEntry → Type 0
  Cached xs =
      (x : FileEntry)
      → Member x xs
      → (v.database.row w0.db x.path ≡ some x) × (x.local_dirty ≡ false)

  clean_entry :
      (x : FileEntry) → selects v.database.like clean_and_staged x ≡ true → x.local_dirty ≡ false
  unfolding selects
  clean_entry x h = elim (Bool-cases x.local_dirty) [
    | inr clean ↦ clean
    | inl dirty ↦ ground (arith, h, dirty)
  ]

  Cached-found : (xs : List FileEntry) → v.database.find w0.db clean_and_staged ≡ ok xs → Cached xs
  Cached-found xs h x m =
      let (row, selected) = l.find_sound w0.db clean_and_staged xs x h m in
      (row, clean_entry x selected)

  -- A file that is no cached entry's staging file is left alone.
  evict_all-files :
      (k : ℕ) (w : World v) (xs : List FileEntry) (q : Bytes)
      → Cached xs
      → ((x : FileEntry) → Member x xs → q ≢ x.local_staging_path)
      → file (evict_all v r now retention k w xs).1.disk q ≡ file w.disk q
  unfolding evict_all
  evict_all-files k w [] q cached apart = refl
  evict_all-files k w (x ∷ xs) q cached apart = elim (Option-cases (r.cancelled k)) [
    | inr c ↦ let (m, g) = c in rw (evict_all, g) refl
    | inl goes ↦
        let (row, clean) = cached x (inl refl) in
        let turn = evict_entry-Turn v l w x (normals x.path x row) r now retention in
        rw (evict_all, goes)
          (evict_all-files (suc k) (evict_entry v r now retention w x) xs q
              (λ y m. cached y (inr m)) (λ y m. apart y (inr m))
            ∙ turn.files q (apart x (inl refl)))
  ]

  process_cache_eviction-files :
      (q : Bytes)
      → ((p : Bytes) (x : FileEntry)
          → v.database.row w0.db p ≡ some x
          → x.local_dirty ≡ false
          → q ≢ x.local_staging_path)
      → file (process_cache_eviction v r now retention w0).1.disk q ≡ file w0.disk q
  unfolding process_cache_eviction
  process_cache_eviction-files q apart =
      elim (Result-cases (v.database.find w0.db clean_and_staged)) [
        | inr c ↦ let (m, h) = c in rw (process_cache_eviction, h) refl
        | inl c ↦
            let (xs, h) = c in
            let cached = Cached-found xs h in
            rw (process_cache_eviction, h)
              (evict_all-files 0 w0 xs q cached
                (λ x m. apart x.path x (cached x m).0 (cached x m).1))
      ]

  module _ (e : FileEntry) (here : v.database.row w0.db e.path ≡ some e) where
    held : (w : World v) → e.local_dirty ≡ false → Evicted v l w e → Held v e w
    held w clean (inl h) = inl h
    held w clean (inr (h, g)) = inr (clean, h, g)

    evicted : (w : World v) → Held v e w → Evicted v l w e
    evicted w (inl h) = inl h
    evicted w (inr (c, h, g)) = inr (h, g)

    other-Held :
        (w w' : World v) (x : FileEntry)
        → e.path ≢ x.path
        → Turn v l w w' x
        → Held v e w
        → Held v e w'
    other-Held w w' x other turn (inl h) = inl (turn.rows e.path other ∙ h)
    other-Held w w' x other turn (inr (c, h, g)) =
        inr (c, turn.rows e.path other ∙ h, turn.gone e.local_staging_path g)

    Turn-Held :
        (w w' : World v) (x : FileEntry)
        → v.database.row w0.db x.path ≡ some x
        → x.local_dirty ≡ false
        → Turn v l w w' x
        → Held v e w
        → Held v e w'
    Turn-Held w w' x row clean turn h = elim (Bool-cases (eqb e.path x.path)) [
      | inr away ↦
          let other : e.path ≢ x.path = λ k. ground (arith, eqb_iff e.path x.path, k) in
          other-Held w w' x other turn h
      | inl at ↦
          let same : e.path ≡ x.path = ground (arith, eqb_iff e.path x.path) in
          let both : some x ≡ some e = sym row ∙ ap (v.database.row w0.db) (sym same) ∙ here in
          let is : x ≡ e = cc in
          let turn' : Turn v l w w' e = subst (Turn v l w w') is turn in
          held w' (ap (λ z. z.local_dirty) (sym is) ∙ clean) (turn'.own (evicted w h))
    ]

    evict_all-Held :
        (k : ℕ) (w : World v) (xs : List FileEntry)
        → Cached xs
        → Held v e w
        → Held v e (evict_all v r now retention k w xs).1
    unfolding evict_all
    evict_all-Held k w [] cached h = h
    evict_all-Held k w (x ∷ xs) cached h = elim (Option-cases (r.cancelled k)) [
      | inr c ↦ let (m, g) = c in rw (evict_all, g) h
      | inl goes ↦
          let (row, clean) = cached x (inl refl) in
          let w' = evict_entry v r now retention w x in
          let turn = evict_entry-Turn v l w x (normals x.path x row) r now retention in
          rw (evict_all, goes)
            (evict_all-Held (suc k) w' xs (λ y m. cached y (inr m))
              (Turn-Held w w' x row clean turn h))
    ]

    -- Over a database that keeps its promises and has normal paths only, a run of the cache eviction,
    -- however it ends, leaves every row as it was, or it takes the staging path off a row that was
    -- not marked for the writeback, and then the staging file is not there.
    pub process_cache_eviction-Held : Held v e (process_cache_eviction v r now retention w0).1
    unfolding process_cache_eviction
    process_cache_eviction-Held = elim (Result-cases (v.database.find w0.db clean_and_staged)) [
      | inr c ↦ let (m, h) = c in rw (process_cache_eviction, h) (inl here)
      | inl c ↦
          let (xs, h) = c in
          rw (process_cache_eviction, h) (evict_all-Held 0 w0 xs (Cached-found xs h) (inl here))
    ]

    dirty_row :
        (w : World v) → e.local_dirty ≡ true → Held v e w → v.database.row w.db e.path ≡ some e
    dirty_row w dirty (inl h) = h
    dirty_row w dirty (inr (clean, h, g)) = cc

    -- Under the same conditions, the row of an entry that is marked for the writeback is left as it
    -- was, and so is its staging file, if no row without the mark names that file.
    pub process_cache_eviction-dirty :
        e.local_dirty ≡ true
        → ((p : Bytes) (x : FileEntry)
            → v.database.row w0.db p ≡ some x
            → x.local_dirty ≡ false
            → e.local_staging_path ≢ x.local_staging_path)
        → (v.database.row (process_cache_eviction v r now retention w0).1.db e.path ≡ some e)
          × (file (process_cache_eviction v r now retention w0).1.disk e.local_staging_path
              ≡ file w0.disk e.local_staging_path)
    process_cache_eviction-dirty dirty apart = (
      dirty_row (process_cache_eviction v r now retention w0).1 dirty process_cache_eviction-Held,
      process_cache_eviction-files e.local_staging_path apart,
    )

-- ===== src/Cache/Download/Correct.antt =====
-- `ensureChunk` over a coherent cache: the chunk's file holds the object's bytes, or the chunk
-- begins past the object's end.
use s3_2_smb.Base.{
  ℕ, ◌*◌, ◌≤◌, ◌<◌, ◌%◌, Bytes, ◌≡◌, refl, sym, ap, ◌∙◌, Option, none, some, List, [], ◌∷◌, inl,
  inr, ◌⊎◌, arith, length, sign, word, Result, ok, err, Option-cases, Bool-cases, ltb, eqb_refl,
  true, false,
}
use s3_2_smb.Base.Cuts.{drop_of_length-le, take-nil}
use s3_2_smb.Disk.{Disk, OsCall, file, exists, stat, mkdir_all}
use s3_2_smb.Cache.Manager.{
  chunk_size, State, Outside, get_chunk_path, get_chunk_dir, ensure_cache_space,
}
use s3_2_smb.Cache.Manager.Names.{chunk_key}
use s3_2_smb.Cache.Manager.Space.{ensure_cache_space-Frame}
use s3_2_smb.Cache.Download.{
  Wait, record_chunk, download_chunk, ensure_chunk, is_downloading, begin_download, finish_download,
}
use s3_2_smb.Cache.Coherence.{
  slice, Serves, IsCoherent, Frame-IsCoherent, stored-IsCoherent, get_chunk_path-dir,
  store_chunk_lem, file-store_chunk, relabel-IsCoherent,
}

pub Result-cases {ℓ} :
    {A : Type ℓ} (r : Result A) → ((a : A) × (r ≡ ok a)) ⊎ ((m : Bytes) × (r ≡ err m))
Result-cases (ok a) = inl (a, refl)
Result-cases (err m) = inr (m, refl)

module _ (o : Outside) (dir path content : Bytes) (serves : Serves o path content) where
  slice_past_end : (i : ℕ) → length content ≤ i * chunk_size → slice content i ≡ []
  slice_past_end i h = rw (drop_of_length-le (i * chunk_size) content h) (take-nil chunk_size)

  -- What the reader gives for a chunk.
  served :
      (i : ℕ)
      → i * chunk_size < sign
      → (o.get_object_chunk path ((i * chunk_size) % word) chunk_size ≡ ok (slice content i))
        ⊎ ((m : Bytes) × (o.get_object_chunk path ((i * chunk_size) % word) chunk_size ≡ err m)
            × (length content ≤ i * chunk_size))
  served i small =
      let plain : (i * chunk_size) % word ≡ i * chunk_size = omega arith in
      rw plain (elim (Bool-cases (ltb (i * chunk_size) (length content))) [
        | inl within ↦ inl (serves.inside (i * chunk_size) (ground arith))
        | inr past ↦
            let beyond : length content ≤ i * chunk_size = ground arith in
            elim (Result-cases (o.get_object_chunk path (i * chunk_size) chunk_size)) [
              | inl (b, got) ↦
                  let nothing = serves.past_end (i * chunk_size) b beyond got in
                  inl (got ∙ (rw (nothing, slice_past_end i beyond) refl))
              | inr (m, failed) ↦ inr (m, failed, beyond)
            ]
      ])

  abbrev Chunked : ℕ → Bytes → Option Bytes × State → Type 0
  Chunked i p (none, s) = IsCoherent o dir path content s × (file s.disk p ≡ some (slice content i))
  Chunked i p (some m, s) = IsCoherent o dir path content s × (length content ≤ i * chunk_size)

  download_chunk_lem :
      (now : ℕ) (s : State) (i : ℕ)
      → i * chunk_size < sign
      → IsCoherent o dir path content s
      → Chunked i
          (get_chunk_path o s.manager path i)
          (download_chunk o now s path i (get_chunk_path o s.manager path i))
        × ((download_chunk o now s path i (get_chunk_path o s.manager path i)).1.manager.downloading
            ≡ s.manager.downloading)
  unfolding download_chunk record_chunk
  download_chunk_lem now s i small k =
      let f = ensure_cache_space-Frame chunk_size s in
      let s1 = ensure_cache_space chunk_size s in
      let k1 = Frame-IsCoherent o dir path content s s1 f k in
      let p = get_chunk_path o s.manager path i in
      let same = get_chunk_path-dir o dir path content s.manager s1.manager i (sym f.cache_dir) in
      rw (k1.no_fault mkdir_all (get_chunk_dir o s.manager path), download_chunk)
        (elim (served i small) [
          | inr (m, failed, beyond) ↦ rw (failed, download_chunk) ((k1, beyond), f.downloading)
          | inl got ↦
              let c = slice content i in
              let stored = store_chunk_lem s1.disk p c k1.no_fault in
              let cm = record_chunk now s1.manager (chunk_key path i) p (length c) in
              rw (got, download_chunk, ap (λ r. r.0) stored)
                (
                  (
                    stored-IsCoherent o dir path content s1 cm i c p k1 same (omega arith) refl
                        refl,
                    file-store_chunk s1.disk p c k1.no_fault,
                  ),
                  f.downloading,
                )
        ])

  -- What `ensureChunk` gives: the path of a file that holds the chunk, or an error for a chunk that
  -- begins past the end of the object.
  abbrev pub Ensured : ℕ → Bytes → Result Bytes × State → Type 0
  Ensured i p (ok q, s) = (q ≡ p) × (file s.disk p ≡ some (slice content i))
  Ensured i p (err m, s) = length content ≤ i * chunk_size

  finish_download-Ensured :
      (i : ℕ) (key p : Bytes) (r : Option Bytes × State)
      → Chunked i p r
      → r.1.manager.downloading ≡ key ∷ []
      → Ensured i p (finish_download key p r)
        × IsCoherent o dir path content (finish_download key p r).1
        × ((finish_download key p r).1.manager.downloading ≡ [])
  unfolding finish_download
  finish_download-Ensured i key p (none, s) (k, here) alone = (
    (refl, here),
    relabel-IsCoherent o dir path content s _ k refl,
    rw alone (ground (arith, eqb_refl key)),
  )
  finish_download-Ensured i key p (some m, s) (k, past) alone = (
    past,
    relabel-IsCoherent o dir path content s _ k refl,
    rw alone (ground (arith, eqb_refl key)),
  )

  exists_file :
      (d : Disk) (p : Bytes)
      → ((k : OsCall) (q : Bytes) → d.fault k q ≡ none)
      → exists d p ≡ true
      → (c : Bytes) × (file d p ≡ some c)
  unfolding exists
  exists_file d p h e = elim (Option-cases (file d p)) [
    | inl gone ↦ ground (arith, h stat p)
    | inr (c, here) ↦ (c, here)
  ]

  idle : (key : Bytes) (keys : List Bytes) → keys ≡ [] → is_downloading key keys ≡ false
  unfolding is_downloading
  idle key keys h = rw h

  -- `ensureChunk` of a chunk that begins below 2 ^ 63, over a coherent cache, a reader that serves
  -- the object and no other download running: either it returns the chunk's path and the file there
  -- holds the object's bytes of that chunk, or it returns an error and the chunk begins past the end
  -- of the object. The cache stays coherent, and no download is left marked.
  pub ensure_chunk_lem :
      (others : State → Wait) (now : ℕ) (s : State) (i : ℕ)
      → i * chunk_size < sign
      → IsCoherent o dir path content s
      → s.manager.downloading ≡ []
      → Ensured i (get_chunk_path o s.manager path i) (ensure_chunk o others now s path i)
        × IsCoherent o dir path content (ensure_chunk o others now s path i).1
        × ((ensure_chunk o others now s path i).1.manager.downloading ≡ [])
  unfolding ensure_chunk
  ensure_chunk_lem others now s i small k alone =
      let p = get_chunk_path o s.manager path i in
      let key = chunk_key path i in
      let s0 = begin_download key s in
      let k0 = relabel-IsCoherent o dir path content s s0.manager k refl in
      elim (Bool-cases (exists s.disk p)) [
        | inl here ↦
            let (c, found) = exists_file s.disk p k.no_fault here in
            rw (here, ensure_chunk)
              (
                (refl, found ∙ ap some (k.chunks i c (omega arith) found)),
                relabel-IsCoherent o dir path content s _ k refl,
                alone,
              )
        | inr absent ↦
            let (got, left) = download_chunk_lem now s0 i small k0 in
            rw (absent, ensure_chunk, idle key s.manager.downloading alone)
              (finish_download-Ensured i key p _ got (left ∙ ap (◌∷◌ key) alone))
      ]

  pub Ensured-ok :
      (i : ℕ) (p q : Bytes) (r : Result Bytes × State)
      → r.0 ≡ ok q
      → Ensured i p r
      → (q ≡ p) × (file r.1.disk p ≡ some (slice content i))
  Ensured-ok i p q (ok q', s) h e = (cc (e.0), e.1)
  Ensured-ok i p q (err m, s) h e = cc

  pub Ensured-err :
      (i : ℕ) (p m : Bytes) (r : Result Bytes × State)
      → r.0 ≡ err m
      → Ensured i p r
      → length content ≤ i * chunk_size
  Ensured-err i p m (ok q, s) h e = cc
  Ensured-err i p m (err m', s) h e = e

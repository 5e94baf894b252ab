-- ===== src/Cache/Coherence.antt =====
-- A cache whose files hold what the object holds, and the operations that keep it so.
use s3_2_smb.Base.{
  append_cancel, ℕ, ◌*◌, ◌≤◌, ◌<◌, Bytes, ◌≡◌, ap, sym, ◌∙◌, none, some, [], ◌∷◌, ◌++◌, inl, inr,
  ◌⊎◌, arith, length, take, drop, codes, sign, eqb_iff, eqb_refl, ok,
}
use s3_2_smb.Disk.{Disk, OsCall, file, put, delete, write_file, rename}
use s3_2_smb.Disk.Laws.{file-put, file-delete}
use s3_2_smb.Cache.Manager.{
  chunk_size, ChunkManager, State, Outside, get_chunk_path, get_chunk_dir, files_dir,
}
use s3_2_smb.Cache.Manager.Names.{chunk_file_name}
use s3_2_smb.Cache.Manager.Names.Laws.{chunk_file_name_inj}
use s3_2_smb.Cache.Manager.Space.{Frame}
use s3_2_smb.Cache.Download.{store_chunk}

-- The bytes of an object's chunk.
abbrev pub slice : Bytes → ℕ → Bytes
slice content i = take chunk_size (drop (i * chunk_size) content)

-- The reader serves an object: a range that begins in it is its bytes there, and a range that
-- begins past its end is an error, or no bytes.
pub record Serves (o : Outside) (path content : Bytes) : Type 0 where
  pub inside :
      (offset : ℕ)
      → offset < length content
      → o.get_object_chunk path offset chunk_size ≡ ok (take chunk_size (drop offset content))
  pub past_end :
      (offset : ℕ) (bytes : Bytes)
      → length content ≤ offset
      → o.get_object_chunk path offset chunk_size ≡ ok bytes
      → bytes ≡ []

-- No call of the operating system fails, and the object's cached chunks hold its bytes.
pub record IsCoherent (o : Outside) (dir path content : Bytes) (s : State) : Type 0 where
  pub cache_dir : s.manager.cache_dir ≡ dir
  pub no_fault : (c : OsCall) (p : Bytes) → s.disk.fault c p ≡ none
  pub chunks :
      (i : ℕ) (bytes : Bytes)
      → i < sign
      → file s.disk (get_chunk_path o s.manager path i) ≡ some bytes
      → bytes ≡ slice content i

-- Storing a chunk without faults.
pub store_chunk_lem :
    (d : Disk) (p c : Bytes)
    → ((k : OsCall) (q : Bytes) → d.fault k q ≡ none)
    → store_chunk d p c ≡ (none, put (delete (put d (p ++ codes ".tmp") c) (p ++ codes ".tmp")) p c)
unfolding store_chunk put
store_chunk_lem d p c h =
    let t = p ++ codes ".tmp" in
    ground (arith, h write_file t, h rename t, file-put d t t c, eqb_refl t)

-- The disk then has the chunk, and nothing else is new.
module _ (d : Disk) (p c q b : Bytes) where
  file-stored :
      file (put (delete (put d (p ++ codes ".tmp") c) (p ++ codes ".tmp")) p c) q ≡ some b
      → ((q ≡ p) × (b ≡ c)) ⊎ (file d q ≡ some b)
  file-stored h =
      let t = p ++ codes ".tmp" in
      grind (
        arith,
        file-put (delete (put d t c) t) p q c,
        file-delete (put d t c) t q,
        file-put d t q c,
        eqb_iff p q,
        eqb_iff t q,
      )

module _ (o : Outside) (dir path content : Bytes) where
  -- The path of a chunk depends on the manager's directory alone.
  chunk_path_inj :
      (cm : ChunkManager) (i j : ℕ)
      → i < sign
      → j < sign
      → get_chunk_path o cm path i ≡ get_chunk_path o cm path j
      → i ≡ j
  unfolding get_chunk_path
  chunk_path_inj cm i j hi hj h = chunk_file_name_inj i j hi hj (
      ap (drop 1) (
        append_cancel (get_chunk_dir o cm path) (b'/' ∷ chunk_file_name i)
          (b'/' ∷ chunk_file_name j) h))

  pub get_chunk_path-dir :
      (cm cm' : ChunkManager) (i : ℕ)
      → cm.cache_dir ≡ cm'.cache_dir
      → get_chunk_path o cm path i ≡ get_chunk_path o cm' path i
  unfolding get_chunk_path get_chunk_dir files_dir
  get_chunk_path-dir cm cm' i h = cc

  -- Eviction keeps a coherent cache coherent.
  pub Frame-IsCoherent :
      (s s' : State)
      → Frame s s'
      → IsCoherent o dir path content s
      → IsCoherent o dir path content s'
  Frame-IsCoherent s s' f k = record {
    cache_dir = f.cache_dir ∙ k.cache_dir;
    no_fault = λ c p. rw (f.fault) (k.no_fault c p);
    chunks = λ i bytes small here. k.chunks i bytes small (
        rw (get_chunk_path-dir s.manager s'.manager i (sym f.cache_dir))
          (f.files (get_chunk_path o s'.manager path i) bytes here));
  }

  -- So does any change of the manager that leaves its directory.
  pub relabel-IsCoherent :
      (s : State) (cm : ChunkManager)
      → IsCoherent o dir path content s
      → cm.cache_dir ≡ s.manager.cache_dir
      → IsCoherent o dir path content (record s { manager = cm })
  relabel-IsCoherent s cm k same = record {
    cache_dir = same ∙ k.cache_dir;
    no_fault = k.no_fault;
    chunks = λ i bytes small here.
        k.chunks i bytes small (rw (get_chunk_path-dir s.manager cm i (sym same)) here);
  }

  -- A state that differs in the tracker, the size and one more chunk with the object's bytes.
  pub stored-IsCoherent :
      (s : State) (cm : ChunkManager) (i : ℕ) (c p : Bytes)
      → IsCoherent o dir path content s
      → p ≡ get_chunk_path o s.manager path i
      → i < sign
      → c ≡ slice content i
      → cm.cache_dir ≡ s.manager.cache_dir
      → IsCoherent o dir path content (record { manager = cm; disk = (store_chunk s.disk p c).1 })
  stored-IsCoherent s cm i c p k at_i small same dir_same =
      rw (store_chunk_lem s.disk p c k.no_fault) (record {
        cache_dir = dir_same ∙ k.cache_dir;
        no_fault = unfold put delete in k.no_fault;
        chunks = λ j bytes small' here.
            elim (file-stored s.disk p c (get_chunk_path o cm path j) bytes here) [
              | inl (at_p, is_c) ↦
                  let j_is_i =
                    chunk_path_inj s.manager j i small' small
                      (get_chunk_path-dir s.manager cm j (sym dir_same) ∙ at_p ∙ at_i) in
                  is_c ∙ same ∙ ap (slice content) (sym j_is_i)
              | inr old ↦
                  k.chunks j bytes small'
                    (rw (get_chunk_path-dir s.manager cm j (sym dir_same)) old)
            ];
      })

-- A chunk that was stored without faults is there.
pub file-store_chunk :
    (d : Disk) (p c : Bytes)
    → ((k : OsCall) (q : Bytes) → d.fault k q ≡ none)
    → file (store_chunk d p c).1 p ≡ some c
file-store_chunk d p c h =
    let t = p ++ codes ".tmp" in
    rw (store_chunk_lem d p c h) (ground (arith, file-put (delete (put d t c) t) p p c, eqb_refl p))

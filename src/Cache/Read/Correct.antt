-- ===== src/Cache/Read/Correct.antt =====
-- `Read` over a coherent cache is a read of the object.
use s3_2_smb.Base.{
  ℕ, zero, suc, ◌*◌, ◌+◌, ◌/◌, ◌≤◌, ◌<◌, ◌%◌, Bytes, ◌≡◌, refl, sym, ap, ◌∙◌, none, some, [], ◌++◌,
  inl, inr, ◌⊎◌, arith, length, sign, word, Result, ok, err, Bool-cases, ltb, leb, lt64, sub64,
  true, false, if◌then◌else◌, take, drop, ◌==◌, not, ◌||◌, length-take, length-drop, length-append,
}
use mathlib.Core.List.{append_assoc, append-nil}
use s3_2_smb.Base.Cuts.{
  drop_of_length-le, take_of_length-le, take-nil, take-add, take-drop-take, drop-drop,
}
use s3_2_smb.Disk.{Disk, OsCall, file, open_file, read_file}
use s3_2_smb.Cache.Manager.{chunk_size, State, Outside, get_chunk_path, offset_to_chunk_id}
use s3_2_smb.Cache.Download.{Wait}
use s3_2_smb.Cache.Download.Correct.{Ensured, ensure_chunk_lem}
use s3_2_smb.Cache.Coherence.{slice, Serves, IsCoherent}
use s3_2_smb.Cache.Read.{
  Got, Round, return, again, eof, read_from_chunk, read_round, read_ensured, read_step, read_loop,
  read, bytes_to_read,
}

Round-cases :
    (r : Round)
    → ((g : Got) × (r ≡ return g)) ⊎ ((n : ℕ) × (m : ℕ) × (t : Bytes) × (r ≡ again n m t))
Round-cases (return g) = inl (g, refl)
Round-cases (again n m t) = inr (n, m, t, refl)

-- One read of a file without faults.
read_file_lem :
    (d : Disk) (p c : Bytes) (k w : ℕ)
    → ((call : OsCall) (q : Bytes) → d.fault call q ≡ none)
    → file d p ≡ some c
    → k < sign
    → 0 < w
    → read_from_chunk d p k w ≡ (
        if leb (length c) k
        then record { bytes = []; error = some eof }
        else record { bytes = take w (drop k c); error = none })
unfolding read_from_chunk
read_file_lem d p c k w h here low above = ground (arith, h open_file p, h read_file p)

-- A cut of a list, and an offset in it.
module _ (size start k w : ℕ) (xs : Bytes) where
  cut_end : k < size → leb (length (take size (drop start xs))) k ≡ leb (length xs) (start + k)
  cut_end h = rw (length-take size (drop start xs), length-drop start xs) (ground arith)

  cut_bytes :
      k + w ≤ size → take w (drop k (take size (drop start xs))) ≡ take w (drop (start + k) xs)
  cut_bytes h = take-drop-take w k size (drop start xs) h ∙ ap (take w) (drop-drop k start xs)

-- The arithmetic of a round.
module _ (offset remaining : ℕ) (small : offset + remaining < sign) where
  abbrev id : ℕ
  id = offset / chunk_size

  abbrev within : ℕ
  within = offset % chunk_size

  abbrev wanted : ℕ
  wanted = bytes_to_read remaining (sub64 chunk_size within)

  id_lem : offset_to_chunk_id offset ≡ id
  unfolding offset_to_chunk_id
  id_lem = ground arith

  within_lem : sub64 offset ((id * chunk_size) % word) ≡ within
  within_lem = omega arith

  wanted_lem : (wanted ≤ remaining) × (within + wanted ≤ chunk_size) × (0 < remaining → 0 < wanted)
  wanted_lem = ground arith

  -- What a round reads of a file that holds its chunk.
  read_chunk_lem :
      (d : Disk) (p content : Bytes)
      → ((k : OsCall) (q : Bytes) → d.fault k q ≡ none)
      → file d p ≡ some (slice content id)
      → 0 < remaining
      → read_from_chunk d p within wanted ≡ (
          if leb (length content) offset
          then record { bytes = []; error = some eof }
          else record { bytes = take wanted (drop offset content); error = none })
  read_chunk_lem d p content h here some_left =
      let start = id * chunk_size in
      let place : start + within ≡ offset = omega arith in
      read_file_lem d p (slice content id) within wanted h here (omega arith)
        (wanted_lem.2 some_left)
      ∙ rw (
        cut_end chunk_size start within wanted content (omega arith),
        cut_bytes chunk_size start within wanted content wanted_lem.1,
        place,
      )

module _ (o : Outside) (others : State → Wait) (dir path content : Bytes)
    (serves : Serves o path content) where
  -- What is left to read is nothing past the end.
  nothing_left :
      (total : Bytes) (remaining offset : ℕ)
      → length content ≤ offset
      → total ≡ total ++ take remaining (drop offset content)
  nothing_left total remaining offset h =
      rw (drop_of_length-le offset content h, take-nil remaining, append-nil)

  abbrev got : Bytes → Got
  got bytes = record { bytes = bytes; error = none }

  -- What a round comes to: it returns all that is left, or it goes on behind the bytes it has read.
  abbrev Steps : ℕ → ℕ → Bytes → Round → Type 0
  Steps remaining offset total (return got) =
      got ≡ record { bytes = total ++ take remaining (drop offset content); error = none }
  Steps remaining offset total (again remaining' offset' total') =
      (w : ℕ) × (0 < w)
      × (remaining' + w ≡ remaining)
      × (offset' ≡ offset + w)
      × (total' ≡ total ++ take w (drop offset content))
      × (offset + w ≤ length content)

  read_round-Steps :
      (w remaining offset : ℕ) (total : Bytes)
      → 0 < w
      → w ≤ remaining
      → offset + remaining < sign
      → Steps remaining offset total (
          read_round total
            (if leb (length content) offset
              then record { bytes = []; error = some eof }
              else record { bytes = take w (drop offset content); error = none })
            w
            remaining
            offset)
  unfolding read_round
  read_round-Steps w remaining offset total above most small =
      let long = length-take w (drop offset content) in
      let rest = length-drop offset content in
      elim (Bool-cases (leb (length content) offset)) [
        | inl past ↦ rw past (
            let e : total ++ [] ≡ total ++ take remaining (drop offset content) =
              rw append-nil (nothing_left total remaining offset (ground arith)) in
            ap got e)
        | inr before ↦
            rw before (elim (Bool-cases (ltb (length (take w (drop offset content))) w)) [
              | inl short ↦
                  rw (short, read_round)
                    (let few : length (drop offset content) ≤ w = ground arith in
                      ap (λ b. got (total ++ b))
                        (take_of_length-le w (drop offset content) few
                          ∙ sym (take_of_length-le remaining (drop offset content) (omega arith))))
              | inr full ↦
                  rw (full, read_round)
                    (let exact : length (take w (drop offset content)) ≡ w = ground arith in
                      (w, above, omega arith, omega arith, refl, ground arith))
            ])
      ]

  -- A round whose chunk is ensured. It does not fail at the object's end, since it has read
  -- something or begins inside the object.
  module _ (remaining offset : ℕ) (total : Bytes) (above : 0 < remaining)
      (small : offset + remaining < sign)
      (some_read : (0 < length total) ⊎ (offset < length content)) where
    read_ensured-Steps :
        (p : Bytes) (r : Result Bytes × State)
        → IsCoherent o dir path content r.1
        → Ensured o dir path content serves (id offset remaining small) p r
        → Steps remaining offset total
            (read_ensured total remaining offset
              (within offset remaining small)
              (wanted offset remaining small)
              r).0
    unfolding read_ensured
    read_ensured-Steps p (ok q, s) k (at_p, holds) =
        rw (at_p, read_chunk_lem offset remaining small s.disk p content k.no_fault holds above)
          (read_round-Steps (wanted offset remaining small) remaining offset total
            ((wanted_lem offset remaining small).2 above) (wanted_lem offset remaining small).0
            small)
    read_ensured-Steps p (err m, s) k past =
        let beyond : length content ≤ offset = omega arith in
        let something : ltb 0 (length total) ≡ true = ground arith in
        rw something (ap got (nothing_left total remaining offset beyond))

    read_ensured-state :
        (off w : ℕ) (r : Result Bytes × State)
        → (read_ensured total remaining offset off w r).1 ≡ r.1
    unfolding read_ensured
    read_ensured-state off w (ok q, s) = refl
    read_ensured-state off w (err m, s) = refl

    read_step_lem :
        (now : ℕ) (s : State)
        → IsCoherent o dir path content s
        → s.manager.downloading ≡ []
        → Steps remaining offset total (read_step o others now s path remaining offset total).0
          × IsCoherent o dir path content (read_step o others now s path remaining offset total).1
          × ((read_step o others now s path remaining offset total).1.manager.downloading ≡ [])
    unfolding read_step
    read_step_lem now s k alone =
        let i = id offset remaining small in
        let (e, k', alone') =
          ensure_chunk_lem o dir path content serves others now s i (omega arith) k alone in
        rw
          (
            read_step,
            id_lem offset remaining small,
            within_lem offset remaining small,
            read_ensured-state,
          )
          (read_ensured-Steps (get_chunk_path o s.manager path i) _ k' e, k', alone')

  length_more :
      (w : ℕ) (total total' : Bytes) (offset : ℕ)
      → total' ≡ total ++ take w (drop offset content)
      → 0 < w
      → offset + w ≤ length content
      → 0 < length total'
  length_more w total total' offset bytes above inside = omega (
    arith,
    ap length bytes,
    length-append total (take w (drop offset content)),
    length-take w (drop offset content),
    length-drop offset content,
  )

  -- What a round has read, and what is read behind it, is all that was wanted.
  continued :
      (w r n offset offset' : ℕ) (total total' : Bytes)
      → r + w ≡ n
      → offset' ≡ offset + w
      → total' ≡ total ++ take w (drop offset content)
      → total ++ take n (drop offset content) ≡ total' ++ take r (drop offset' content)
  continued w r n offset offset' total total' left place bytes =
      let whole : n ≡ w + r = omega arith in
      rw (whole, take-add, bytes, place, append_assoc, drop-drop w offset content)

  -- The loop reads on from where it is.
  read_loop_lem :
      (f now : ℕ) (s : State) (remaining offset : ℕ) (total : Bytes)
      → remaining ≤ f
      → offset + remaining < sign
      → IsCoherent o dir path content s
      → s.manager.downloading ≡ []
      → (0 < length total) ⊎ (offset < length content)
      → (read_loop o others f now s path remaining offset total).0
        ≡ got (total ++ take remaining (drop offset content))
  unfolding read_loop
  read_loop_lem zero now s zero offset total enough small k alone some_read = rw append-nil
  read_loop_lem zero now s (suc r) offset total enough small k alone some_read =
      absurd (omega arith)
  read_loop_lem (suc f) now s zero offset total enough small k alone some_read = rw append-nil
  read_loop_lem (suc f) now s (suc r) offset total enough small k alone some_read =
      let (steps, k', alone') =
        read_step_lem (suc r) offset total (omega arith) small some_read now s k alone in
      let pos : (suc r == 0) ≡ false = ground arith in
      elim (Round-cases (read_step o others now s path (suc r) offset total).0) [
        | inl (g, done) ↦ rw (pos, done) (rw done at steps)
        | inr (r', offset', total', more) ↦
            let again_steps : Steps (suc r) offset total (again r' offset' total') =
              rw more at steps in
            let (w, above, left, place, bytes, inside) = again_steps in
            rw (pos, more)
              (read_loop_lem f now (read_step o others now s path (suc r) offset total).1 r' offset'
                  total' (omega arith) (omega arith) k' alone'
                  (inl (length_more w total total' offset bytes above inside))
                ∙ ap got
                    (sym (continued w r' (suc r) offset offset' total total' left place bytes)))
      ]

  -- Over a coherent cache, with a reader that serves the object, no faults and no other download, a
  -- read of one byte or more that begins inside the object and ends below 2 ^ 63 returns the object's bytes from there, as many as were asked
  -- for or as many as there are, without an error.
  pub read_lem :
      (now : ℕ) (s : State) (offset size : ℕ)
      → 0 < size
      → offset + size < sign
      → offset < length content
      → IsCoherent o dir path content s
      → s.manager.downloading ≡ []
      → (read o others now s path offset size size).0
        ≡ record { bytes = take size (drop offset content); error = none }
  unfolding read
  read_lem now s offset size above small inside k alone =
      let valid : (not (lt64 0 size) || lt64 size size) ≡ false = ground arith in
      rw valid (read_loop_lem size now s size offset [] (omega arith) small k alone (inr inside))

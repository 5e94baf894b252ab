-- ===== src/Fuse/Handle/Laws.antt =====
-- Writes are read back, and what Flush marks is kept by Release.
use s3_2_smb.Base.{
  ℕ, zero, suc, Bytes, ◌≡◌, ◌≢◌, ◌∙◌, refl, ap, Bool, true, false, none, some, [], ◌∷◌, take, drop,
  length, eqb_refl, arith, Bool-cases, Option-cases, inl, inr,
}
use s3_2_smb.Base.Cuts.{take_of_length-le}
use s3_2_smb.Disk.{Disk, write_at, overlay, file, put, write_file, read_file, sync_file, stat}
use s3_2_smb.Disk.Laws.{file-put}
use s3_2_smb.Metadata.Paths.{normalize_path, is_empty}
use s3_2_smb.Metadata.Entry.{FileEntry, done, failed, Error}
use s3_2_smb.Metadata.Database.{Lawful, query_failed}
use s3_2_smb.Metadata.Repository.{get_entry, update_entry}
use s3_2_smb.Metadata.Repository.Laws.{
  Outcome-cases, update_entry_row, update_entry_dirty, get_entry_at,
}
use s3_2_smb.Fuse.World.{Environment, World, invalidate}
use s3_2_smb.Fuse.Dir.{FileHandle}
use s3_2_smb.Fuse.Handle.{
  write_staging, write_when, write, fetch_once, read_staging, save_flushed, flush_synced, flush,
  flushed, release, bytes_of,
}

take-overlay : (d f : Bytes) → take (length d) (overlay d f) ≡ d
unfolding overlay
take-overlay [] f = refl
take-overlay (c ∷ d) [] = ap (λ r. c ∷ r) (take_of_length-le (length d) d (omega arith))
take-overlay (c ∷ d) (x ∷ f) = ap (λ r. c ∷ r) (take-overlay d f)

-- The bytes that were written at an offset are read there.
pub read-write_at : (f d : Bytes) (n : ℕ) → take (length d) (drop n (write_at f n d)) ≡ d
unfolding write_at
read-write_at f d zero = take-overlay d f
read-write_at [] d (suc n) = read-write_at [] d n
read-write_at (x ∷ f) d (suc n) = read-write_at f d n

file-put_same : (d : Disk) (p c : Bytes) → file (put d p c) p ≡ some c
file-put_same d p c = file-put d p p c ∙ rw (eqb_refl p) refl

module _ (v : Environment) where
  read_put :
      (w : World v) (h : FileHandle) (offset n : ℕ) (c : Bytes)
      → w.disk.fault read_file h.staging_path ≡ none
      → read_staging v (record w { disk = put w.disk h.staging_path c }) h offset n
        ≡ done (take n (drop offset c))
  unfolding read_staging put
  read_put w h offset n c readable =
      rw (read_staging, readable)
        (ap (λ o. done (take n (drop offset (bytes_of o)))) (file-put_same w.disk h.staging_path c))

  write_staging_read :
      (w : World v) (h : FileHandle) (d : Bytes) (offset now n : ℕ)
      → let r = write_staging v w h d offset now in
        r.outcome ≡ done n
        → r.world.disk.fault read_file r.handle.staging_path ≡ none
        → read_staging v r.world r.handle offset (length d) ≡ done d
  unfolding write_staging read_staging
  write_staging_read w h d offset now n =
      elim (Option-cases (w.disk.fault write_file h.staging_path)) [
        | inr c ↦ let (m, g) = c in rw (write_staging, g) (λ bad readable. cc)
        | inl g ↦
            rw (write_staging, g)
              (λ good readable.
                read_put w (record h { dirty = true }) offset (length d)
                  (write_at (bytes_of (file w.disk h.staging_path)) offset d) readable
                ∙ ap done (read-write_at (bytes_of (file w.disk h.staging_path)) d offset))
      ]

  read-write_when :
      (is_open : Bool) (w : World v) (h : FileHandle) (d : Bytes) (offset now n : ℕ)
      → let r = write_when v is_open w h d offset now in
        r.outcome ≡ done n
        → r.world.disk.fault read_file r.handle.staging_path ≡ none
        → read_staging v r.world r.handle offset (length d) ≡ done d
  unfolding write_when
  read-write_when true w h d offset now n =
      write_staging_read (fetch_once v w h) (record h { fetched = true }) d offset now n
  read-write_when false w h d offset now n = λ bad readable. cc

  -- What a write put into the staging file is read back from there at once, whatever the file held
  -- before, if the write succeeded and the staging file can be read.
  pub read-write :
      (w : World v) (h : FileHandle) (d : Bytes) (offset now n : ℕ)
      → let r = write v w h d offset now in
        r.outcome ≡ done n
        → r.world.disk.fault read_file r.handle.staging_path ≡ none
        → read_staging v r.world r.handle offset (length d) ≡ done d
  unfolding write
  read-write w h d offset now n = read-write_when h.staging_open w h d offset now n

  -- An entry that is marked for the writeback keeps its staging file when the handle is released.
  release_keeps :
      (w : World v) (h : FileHandle) (r : FileEntry)
      → get_entry v.database w.db h.path ≡ done r
      → r.local_dirty ≡ true
      → (release v w h).1 ≡ w
  unfolding release
  release_keeps w h r got marked = elim (Bool-cases (is_empty h.staging_path)) [
    | inl e ↦ rw (release, e) refl
    | inr e ↦ rw (release, e, got, marked) refl
  ]

  module _ (l : Lawful v.database) where
    -- The database takes every write, and answers every query.
    pub record Reliable : Type 0 where
      pub takes :
          (s : v.database.State) (e : FileEntry) (x : Error)
          → update_entry v.database s e ≢ failed x
      pub answers : (s : v.database.State) (p m : Bytes) → v.database.first s p ≢ query_failed m

    -- The entry of a path is marked for the writeback.
    pub record Marked (db : v.database.State) (path : Bytes) : Type 0 where
      pub entry : FileEntry
      pub got : get_entry v.database db path ≡ done entry
      pub marked : entry.local_dirty ≡ true

    save_flushed_marks :
        (w : World v) (h : FileHandle) (e : FileEntry)
        → Reliable
        → e.local_dirty ≡ true
        → e.path ≡ h.path
        → let r = save_flushed v w h e in
          (r.0.path ≡ h.path) × (r.0.dirty ≡ false) × Marked r.1.db h.path
    unfolding save_flushed
    save_flushed_marks w h e ok_db marked at =
        elim (Outcome-cases (update_entry v.database w.db e)) [
          | inr c ↦ let (x, g) = c in absurd (ok_db.takes w.db e x g)
          | inl c ↦
              let (r, g) = c in
              let there : Marked r.0 h.path = record {
                entry = r.1;
                got =
                    get_entry_at v.database l r.0 h.path r.1
                      (ok_db.answers r.0 (normalize_path h.path))
                      (update_entry_row v.database l w.db r.0 e r.1 (normalize_path h.path) g
                        ∙ rw (at, eqb_refl (normalize_path h.path)) refl);
                marked = update_entry_dirty v.database l w.db r.0 e r.1 g marked;
              } in
              rw (save_flushed, g) (refl, refl, there)
        ]

    -- The handle's entry is of its path.
    abbrev pub IsOf : FileHandle → Type 0
    IsOf h = elim h.entry [ none ↦ Unit | some e ↦ e.path ≡ h.path ]

    flushed_path : (h : FileHandle) (size now : ℕ) → IsOf h → (flushed h size now).path ≡ h.path
    unfolding flushed
    flushed_path h size now own = elim (Option-cases h.entry) [
      | inl g ↦ rw g refl
      | inr c ↦ let (e, g) = c in rw g (rw g at own)
    ]

    flushed_dirty : (h : FileHandle) (size now : ℕ) → (flushed h size now).local_dirty ≡ true
    unfolding flushed
    flushed_dirty h size now = refl

    -- An open handle that was written to, whose entry is of its own path, is flushed without an
    -- error if the disk takes the two calls and the database keeps its promises, takes every write
    -- and answers every query: the handle is clean then, the entry of its path is marked for the
    -- writeback, and releasing the handle changes nothing in the world, the staging file included.
    pub release-flush :
        (w : World v) (h : FileHandle) (now : ℕ)
        → Reliable
        → IsOf h
        → h.dirty ≡ true
        → h.staging_open ≡ true
        → w.disk.fault sync_file h.staging_path ≡ none
        → w.disk.fault stat h.staging_path ≡ none
        → let (out, h1, w1) = flush v w h now in
          (out ≡ done tt) × (h1.dirty ≡ false) × Marked w1.db h.path × ((release v w1 h1).1 ≡ w1)
    unfolding flush flush_synced
    release-flush w h now ok_db own written is_open synced sized =
        let e = flushed h (length (bytes_of (file w.disk h.staging_path))) now in
        let r = save_flushed v (invalidate v w h.path) h e in
        let (same, clean, there) =
          save_flushed_marks (invalidate v w h.path) h e ok_db
            (flushed_dirty h (length (bytes_of (file w.disk h.staging_path))) now)
            (flushed_path h (length (bytes_of (file w.disk h.staging_path))) now own) in
        rw (flush, flush_synced, written, is_open, synced, sized)
          (refl, clean, there, release_keeps r.1 r.0 there.entry (rw same there.got) there.marked)

-- ===== src/Writeback/Daemon/Evictions.antt =====
-- The evictions of a tick keep the bytes of an entry that waits or is uploaded.
use s3_2_smb.Base.{
  ℕ, suc, Bytes, ◌≡◌, ◌≢◌, ◌∙◌, sym, refl, ap, ◌⊎◌, inl, inr, true, false, some, List, [], ◌∷◌, eqb,
  eqb_iff, arith, Bool-cases, Option-cases, Result-cases,
}
use s3_2_smb.Metadata.Paths.{is_empty, normalize_path}
use s3_2_smb.Metadata.Entry.{FileEntry}
use s3_2_smb.Metadata.Database.{Lawful, Member, clean_and_staged}
use s3_2_smb.S3client.{get_full_key}
use s3_2_smb.S3client.Laws.{LawfulBucket}
use s3_2_smb.Fuse.World.{Environment, World}
use s3_2_smb.Writeback.Upload.{Schedule}
use s3_2_smb.Writeback.Eviction.{evict_entry, evict_all, process_cache_eviction}
use s3_2_smb.Writeback.Eviction.Safety.{evict_entry-Turn, unstaged}
use s3_2_smb.Writeback.Eviction.Runs.{
  process_cache_eviction-Held, process_cache_eviction-dirty, Held,
}
use s3_2_smb.Writeback.Daemon.Shape.{Shape, same_db-Shape, trans-Shape, evict_entry-Shape}
use s3_2_smb.Writeback.Daemon.Durable.{Waiting, Uploaded, Unshared, Durable, Shape-Unshared}

module _ (v : Environment) (l : Lawful v.database) (b : LawfulBucket v.bucket) (e : FileEntry)
    (bytes : Bytes) (dirty : e.local_dirty ≡ true)
    (named : is_empty e.local_staging_path ≡ false) where
  module _ (w0 : World v) (held0 : Unshared v e w0) (r : Schedule) (now : ℕ) where
    -- The eviction leaves the bucket alone, and keeps the rows' shape.
    evict_all_keeps :
        (retention k : ℕ) (w : World v) (xs : List FileEntry)
        → ((x : FileEntry) → Member x xs → normalize_path x.path ≡ x.path)
        → ((evict_all v r now retention k w xs).1.objects ≡ w.objects)
          × Shape v w (evict_all v r now retention k w xs).1
    unfolding evict_all
    evict_all_keeps retention k w [] normals = (refl, same_db-Shape v w w refl)
    evict_all_keeps retention k w (x ∷ xs) normals = elim (Option-cases (r.cancelled k)) [
      | inr c ↦ let (m, h) = c in rw (evict_all, h) (refl, same_db-Shape v w w refl)
      | inl goes ↦
          let w' = evict_entry v r now retention w x in
          let turn = evict_entry-Turn v l w x (normals x (inl refl)) r now retention in
          let (objects, shape) =
            evict_all_keeps retention (suc k) w' xs (λ y m. normals y (inr m)) in
          rw (evict_all, goes)
            (
              objects ∙ turn.objects,
              trans-Shape v w w' (evict_all v r now retention (suc k) w' xs).1
                  (evict_entry-Shape v l r now retention w x) shape,
            )
    ]

    eviction_keeps :
        (retention : ℕ)
        → ((process_cache_eviction v r now retention w0).1.objects ≡ w0.objects)
          × Shape v w0 (process_cache_eviction v r now retention w0).1
    unfolding process_cache_eviction
    eviction_keeps retention = elim (Result-cases (v.database.find w0.db clean_and_staged)) [
      | inr c ↦ let (m, h) = c in rw (process_cache_eviction, h) (refl, same_db-Shape v w0 w0 refl)
      | inl c ↦
          let (xs, h) = c in
          rw (process_cache_eviction, h)
            (evict_all_keeps retention 0 w0 xs
              (λ x m. (held0 x.path x (l.find_sound w0.db clean_and_staged xs x h m).0).0))
    ]

    abbrev normals :
        (p : Bytes) (x : FileEntry) → v.database.row w0.db p ≡ some x → normalize_path p ≡ p
    normals p x h = (held0 p x h).0

    unmarked_apart :
        v.database.row w0.db e.path ≡ some e
        → (p : Bytes) (x : FileEntry) → v.database.row w0.db p ≡ some x
        → x.local_dirty ≡ false
        → e.local_staging_path ≢ x.local_staging_path
    unmarked_apart here p x row clean = elim (Bool-cases (eqb p e.path)) [
      | inl same ↦
          let at : p ≡ e.path = ground (arith, eqb_iff p e.path) in
          let both : some x ≡ some e = sym row ∙ ap (v.database.row w0.db) at ∙ here in
          let is : x ≡ e = cc in
          let clash : e.local_dirty ≡ false = ap (λ z. z.local_dirty) (sym is) ∙ clean in
          absurd (cc)
      | inr away ↦
          let other : p ≢ e.path = λ h. ground (arith, eqb_iff p e.path, h) in
          λ h. (held0 p x row).1 other (sym h)
    ]

    Held-uploaded :
        (w : World v) (x : FileEntry)
        → x.path ≡ e.path
        → x.local_dirty ≡ false
        → Held v x w
        → (y : FileEntry) × (v.database.row w.db e.path ≡ some y) × (y.local_dirty ≡ false)
    Held-uploaded w x at clean (inl h) = (x, ap (v.database.row w.db) (sym at) ∙ h, clean)
    Held-uploaded w x at clean (inr (c, h, g)) =
        (unstaged x, ap (v.database.row w.db) (sym at) ∙ h, clean)

    pub process_cache_eviction-Durable :
        (retention : ℕ)
        → Waiting v e bytes w0 ⊎ Uploaded v e bytes w0
        → Durable v e bytes (process_cache_eviction v r now retention w0).1
    process_cache_eviction-Durable retention safe =
        let w' = (process_cache_eviction v r now retention w0).1 in
        let (objects, shape) = eviction_keeps retention in
        let held' = Shape-Unshared v l b e bytes dirty named w0 w' shape held0 in
        elim safe [
          | inl (here, there) ↦
              let (row, file_same) =
                process_cache_eviction-dirty v l w0 normals r now retention e here dirty
                  (unmarked_apart here) in
              (inl (row, file_same ∙ there), held')
          | inr (x, here, clean, stored) ↦
              let at : x.path ≡ e.path = l.row_path w0.db e.path x here in
              let row : v.database.row w0.db x.path ≡ some x =
                ap (v.database.row w0.db) at ∙ here in
              let (y, row', clean') =
                Held-uploaded w' x at clean
                  (process_cache_eviction-Held v l w0 normals r now retention x row) in
              (
                inr (
                  y,
                  row',
                  clean',
                  ap (λ o. v.bucket.object o (get_full_key v.prefix e.path)) objects ∙ stored,
                ),
                held',
              )
        ]

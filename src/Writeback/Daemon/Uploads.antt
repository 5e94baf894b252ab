-- ===== src/Writeback/Daemon/Uploads.antt =====
-- The uploads of a tick keep the bytes of an entry that waits or is uploaded.
use s3_2_smb.Base.{
  ℕ, suc, Bytes, ◌≡◌, ◌∙◌, sym, refl, ap, ◌⊎◌, inl, inr, true, false, some, List, [], ◌∷◌, ok,
  Option-cases, Result-cases,
}
use s3_2_smb.Metadata.Paths.{is_empty}
use s3_2_smb.Metadata.Entry.{FileEntry}
use s3_2_smb.Metadata.Database.{Lawful, Member, DistinctPaths, dirty_is, selects}
use s3_2_smb.S3client.Laws.{LawfulBucket}
use s3_2_smb.Fuse.World.{Environment, World}
use s3_2_smb.Writeback.Upload.{Schedule, write_back_idle, write_back_all, process_writeback}
use s3_2_smb.Writeback.Daemon.Shape.{Shape, same_db-Shape, trans-Shape, idle-Shape}
use s3_2_smb.Writeback.Daemon.Durable.{
  Waiting, Uploaded, Unshared, Durable, Todo, turn-Todo, Shape-Unshared,
}

module _ (v : Environment) (l : Lawful v.database) (b : LawfulBucket v.bucket) (e : FileEntry)
    (bytes : Bytes) (dirty : e.local_dirty ≡ true)
    (named : is_empty e.local_staging_path ≡ false) where
  some-Todo :
      (xs : List FileEntry) (w : World v)
      → Todo v l b e bytes dirty named xs w
      → Waiting v e bytes w ⊎ Uploaded v e bytes w
  some-Todo xs w (inl waiting) = inl waiting
  some-Todo xs w (inr (uploaded, none_left)) = inr uploaded

  module _ (w0 : World v) (held0 : Unshared v e w0) (r : Schedule) (now : ℕ) where
    write_back_all_keeps :
        (idle k : ℕ) (w : World v) (xs : List FileEntry)
        → ((x : FileEntry) → Member x xs → v.database.row w0.db x.path ≡ some x)
        → ((x : FileEntry) → Member x xs → e.path ≡ x.path → e ≡ x)
        → DistinctPaths xs
        → Todo v l b e bytes dirty named xs w
        → (Waiting v e bytes (write_back_all v r now idle k w xs).1
            ⊎ Uploaded v e bytes (write_back_all v r now idle k w xs).1)
          × Shape v w (write_back_all v r now idle k w xs).1
    unfolding write_back_all
    write_back_all_keeps idle k w [] rows only distinct todo =
        (some-Todo [] w todo, same_db-Shape v w w refl)
    write_back_all_keeps idle k w (x ∷ xs) rows only distinct todo =
        elim (Option-cases (r.cancelled k)) [
          | inr c ↦
              let (m, h) = c in
              rw (write_back_all, h) (some-Todo (x ∷ xs) w todo, same_db-Shape v w w refl)
          | inl goes ↦
              let w' = write_back_idle v now idle w x (r.clock k) in
              let next =
                turn-Todo v l b e bytes dirty named w0 held0 now idle (r.clock k) w x xs
                  (rows x (inl refl)) (only x (inl refl)) distinct todo in
              let (safe, shape) =
                write_back_all_keeps idle (suc k) w' xs (λ y m. rows y (inr m))
                  (λ y m. only y (inr m)) distinct.1 next in
              rw (write_back_all, goes)
                (
                  safe,
                  trans-Shape v w w' (write_back_all v r now idle (suc k) w' xs).1
                      (idle-Shape v l now idle w x (r.clock k)) shape,
                )
        ]

    -- The rows that are found dirty, where the entry waits or is uploaded.
    found_only :
        (x : FileEntry)
        → v.database.row w0.db x.path ≡ some x
        → x.local_dirty ≡ true
        → Waiting v e bytes w0 ⊎ Uploaded v e bytes w0
        → e.path ≡ x.path
        → e ≡ x
    found_only x row marked (inl (here, there)) same =
        let both : some e ≡ some x = sym here ∙ ap (v.database.row w0.db) same ∙ row in cc
    found_only x row marked (inr (y, here, clean, stored)) same =
        let both : some y ≡ some x = sym here ∙ ap (v.database.row w0.db) same ∙ row in
        let is : y ≡ x = cc in
        let clash : x.local_dirty ≡ false = ap (λ z. z.local_dirty) (sym is) ∙ clean in absurd (cc)

    start-Todo :
        (xs : List FileEntry)
        → ((x : FileEntry)
            → Member x xs
            → (v.database.row w0.db x.path ≡ some x) × (x.local_dirty ≡ true))
        → Waiting v e bytes w0 ⊎ Uploaded v e bytes w0
        → Todo v l b e bytes dirty named xs w0
    start-Todo xs found (inl waiting) = inl waiting
    start-Todo xs found (inr (y, here, clean, stored)) = inr (
      (y, here, clean, stored),
      λ x m same.
          (let (row, marked) = found x m in
            let both : some y ≡ some x = sym here ∙ ap (v.database.row w0.db) (sym same) ∙ row in
            let is : y ≡ x = cc in
            let clash : x.local_dirty ≡ false = ap (λ z. z.local_dirty) (sym is) ∙ clean in cc),
    )

    dirty_found :
        (xs : List FileEntry)
        → v.database.find w0.db (dirty_is true) ≡ ok xs
        → (x : FileEntry) → Member x xs
        → (v.database.row w0.db x.path ≡ some x) × (x.local_dirty ≡ true)
    unfolding selects
    dirty_found xs h x m = l.find_sound w0.db (dirty_is true) xs x h m

    pub process_writeback-Durable :
        (idle : ℕ)
        → Waiting v e bytes w0 ⊎ Uploaded v e bytes w0
        → Durable v e bytes (process_writeback v r now idle w0).1
    unfolding process_writeback
    process_writeback-Durable idle safe =
        elim (Result-cases (v.database.find w0.db (dirty_is true))) [
          | inr c ↦ let (m, h) = c in rw (process_writeback, h) (safe, held0)
          | inl c ↦
              let (xs, h) = c in
              let found = dirty_found xs h in
              let (after, shape) =
                write_back_all_keeps idle 0 w0 xs (λ x m. (found x m).0)
                  (λ x m. found_only x (found x m).0 (found x m).1 safe)
                  (l.find_distinct w0.db (dirty_is true) xs h) (start-Todo xs found safe) in
              rw (process_writeback, h)
                (
                  after,
                  Shape-Unshared v l b e bytes dirty named w0
                      (write_back_all v r now idle 0 w0 xs).1 shape held0,
                )
        ]

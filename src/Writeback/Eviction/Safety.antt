-- ===== src/Writeback/Eviction/Safety.antt =====
-- What processCacheEviction leaves of each row and each file.
use s3_2_smb.Base.{
  ℕ, ◌+◌, Bytes, ◌≡◌, ◌≢◌, ◌∙◌, refl, sym, ap, ◌⊎◌, inl, inr, none, some, [], ◌∷◌, eqb_iff,
  eqb_refl, ltb, Bool-cases, Option-cases, arith,
}
use s3_2_smb.Disk.{stat, remove, file, unlink, delete, Disk}
use s3_2_smb.Disk.Laws.{file-delete}
use s3_2_smb.Metadata.Paths.{normalize_path}
use s3_2_smb.Metadata.Entry.{FileEntry}
use s3_2_smb.Metadata.Database.{Lawful, set_columns, set_local_staging_path}
use s3_2_smb.Metadata.Repository.{update_entry_fields}
use s3_2_smb.Metadata.Repository.Laws.{
  Outcome-cases, update_entry_fields_own, update_entry_fields_other,
}
use s3_2_smb.Fuse.World.{Environment, World}
use s3_2_smb.Writeback.Upload.{Schedule, set_fields}
use s3_2_smb.Writeback.Eviction.{forget_staging, remove_staging, evict_entry}

-- The entry without its staging file.
abbrev pub unstaged : FileEntry → FileEntry
unstaged e = record e { local_staging_path = [] }

module _ (v : Environment) (l : Lawful v.database) where
  -- A row is as it was, or it has no staging path any more, and the file is not there.
  abbrev pub Evicted : World v → FileEntry → Type 0
  Evicted w e =
      (v.database.row w.db e.path ≡ some e)
      ⊎ ((v.database.row w.db e.path ≡ some (unstaged e))
          × (file w.disk e.local_staging_path ≡ none))

  -- What one entry's turn leaves alone.
  pub record Turn (w w' : World v) (x : FileEntry) : Type 0 where
    pub rows : (q : Bytes) → q ≢ x.path → v.database.row w'.db q ≡ v.database.row w.db q
    pub files : (q : Bytes) → q ≢ x.local_staging_path → file w'.disk q ≡ file w.disk q
    pub gone : (q : Bytes) → file w.disk q ≡ none → file w'.disk q ≡ none
    pub own : Evicted w x → Evicted w' x
    pub objects : w'.objects ≡ w.objects

  module _ (w0 : World v) (x : FileEntry) (normal : normalize_path x.path ≡ x.path) where
    same-Turn : Turn w0 w0 x
    same-Turn = record {
      rows = λ q other. refl;
      files = λ q other. refl;
      gone = λ q h. h;
      own = λ h. h;
      objects = refl;
    }

    -- The removal of the file, before or without the update.
    removed : Disk → World v
    removed disk = record w0 { disk = disk }

    own_row :
        (w : World v)
        → w.db ≡ w0.db
        → Evicted w0 x
        → (r : FileEntry) × (v.database.row w.db x.path ≡ some r)
          × (set_columns (set_local_staging_path [] ∷ []) r ≡ unstaged x)
    unfolding set_columns
    own_row w same (inl h) = (x, ap (λ s. v.database.row s x.path) same ∙ h, refl)
    own_row w same (inr (h, g)) = (unstaged x, ap (λ s. v.database.row s x.path) same ∙ h, refl)

    keeps :
        (w : World v)
        → w.db ≡ w0.db
        → file w.disk x.local_staging_path ≡ none
        → Evicted w0 x
        → Evicted w x
    keeps w same h (inl g) = inl (ap (λ s. v.database.row s x.path) same ∙ g)
    keeps w same h (inr (g, k)) = inr (ap (λ s. v.database.row s x.path) same ∙ g, h)

    module _ (w : World v) (db : w.db ≡ w0.db) (bucket : w.objects ≡ w0.objects)
        (files' : (q : Bytes) → q ≢ x.local_staging_path → file w.disk q ≡ file w0.disk q)
        (gone' : (q : Bytes) → file w0.disk q ≡ none → file w.disk q ≡ none)
        (missing : file w.disk x.local_staging_path ≡ none) where
      forget_staging-Turn : Turn w0 (forget_staging v w x) x
      unfolding forget_staging set_fields
      forget_staging-Turn =
          let cs = set_local_staging_path [] ∷ [] in
          elim (Outcome-cases (update_entry_fields v.database w.db x.path cs)) [
            | inr c ↦
                let (m, h) = c in
                let turn : Turn w0 w x = record {
                  rows = λ q other. ap (λ s. v.database.row s q) db;
                  files = files';
                  gone = gone';
                  own = keeps w db missing;
                  objects = bucket;
                } in
                rw (forget_staging, set_fields, h) turn
            | inl c ↦
                let (s, h) = c in
                let turn : Turn w0 (record w { db = s }) x = record {
                  rows = λ q other.
                      update_entry_fields_other v.database l w.db s x.path cs h q
                        (λ k. other (k ∙ normal))
                      ∙ ap (λ d. v.database.row d q) db;
                  files = files';
                  gone = gone';
                  own = λ k.
                      (let (r, row, columns) = own_row w db k in
                        inr (
                          ap (v.database.row s) (sym normal)
                              ∙ update_entry_fields_own v.database l w.db s x.path cs h r
                                  (ap (v.database.row w.db) normal ∙ row)
                              ∙ ap some columns,
                          missing,
                        ));
                  objects = bucket;
                } in
                rw (forget_staging, set_fields, h) turn
          ]

    remove_staging-Turn :
        (bytes : Bytes)
        → file w0.disk x.local_staging_path ≡ some bytes
        → Turn w0 (remove_staging v w0 x) x
    unfolding remove_staging unlink
    remove_staging-Turn bytes there =
        elim (Option-cases (w0.disk.fault remove x.local_staging_path)) [
          | inr c ↦ let (m, h) = c in rw (remove_staging, unlink, h) same-Turn
          | inl works ↦
              let after = file-delete w0.disk x.local_staging_path in
              rw (remove_staging, unlink, works, there)
                (forget_staging-Turn (record w0 { disk = delete w0.disk x.local_staging_path }) refl
                  refl
                  (λ q other.
                    let at = after q in ground (arith, at, eqb_iff x.local_staging_path q))
                  (λ q h. let at = after q in ground (arith, at, h))
                  (let at = after x.local_staging_path in
                    at ∙ rw (eqb_refl x.local_staging_path) refl))
        ]

    pub evict_entry-Turn :
        (r : Schedule) (now retention : ℕ) → Turn w0 (evict_entry v r now retention w0 x) x
    unfolding evict_entry
    evict_entry-Turn r now retention =
        elim (Option-cases (w0.disk.fault stat x.local_staging_path)) [
          | inr c ↦ let (m, h) = c in rw (evict_entry, h) same-Turn
          | inl works ↦ elim (Option-cases (file w0.disk x.local_staging_path)) [
            | inl missing ↦
                rw (evict_entry, works, missing)
                  (forget_staging-Turn w0 refl refl (λ q other. refl) (λ q h. h) missing)
            | inr c ↦
                let (bytes, there) = c in
                elim (Bool-cases (ltb (r.accessed x.local_staging_path + retention) now)) [
                  | inl idle ↦
                      rw (evict_entry, works, there, idle) (remove_staging-Turn bytes there)
                  | inr fresh ↦ rw (evict_entry, works, there, fresh) same-Turn
                ]
          ]
        ]

-- ===== src/Sync/Parents/Laws.antt =====
-- What ensureParentDirs leaves of the table: no row is lost or changed, and each directory has one.
use mathlib.Core.Path.{subst}
use s3_2_smb.Base.{
  Bytes, ◌≡◌, ◌∙◌, sym, refl, ap, inl, inr, true, none, some, ◌∷◌, eqb, eqb_iff, eqb_refl, arith,
  Bool-cases, codes, ◌++◌,
}
use s3_2_smb.Metadata.Paths.{normalize_path}
use s3_2_smb.Metadata.Entry.{FileEntry, Error, err_not_found, Status, done, failed}
use s3_2_smb.Metadata.Database.{Database, Lawful}
use s3_2_smb.Metadata.Repository.{get_entry, update_entry}
use s3_2_smb.Metadata.Repository.Laws.{
  Outcome-cases, get_entry_row, get_entry_missing, update_entry_row,
}
use s3_2_smb.Sync.Objects.{Schedule, Work, member}
use s3_2_smb.Sync.Parents.{is_not_found, see, wrapped, directory, create_dir, ensure_dir}

module _ (d : Database) (l : Lawful d) (r : Schedule) where
  -- Every row of the first table is a row of the second.
  abbrev pub Grows : d.State → d.State → Type 0
  Grows s s' = (q : Bytes) (e : FileEntry) → d.row s q ≡ some e → d.row s' q ≡ some e

  -- A path has a row.
  abbrev pub HasRow : d.State → Bytes → Type 0
  HasRow s p = (e : FileEntry) × (d.row s (normalize_path p) ≡ some e)

  -- Each directory that a run saw has a row.
  abbrev pub Seen : Work d → Type 0
  Seen w = (p : Bytes) → member p w.seen_dirs ≡ true → HasRow w.db p

  -- The table grew, and what else a run works on is as it was, but for the directories it saw.
  pub record Ensured (w w' : Work d) : Type 0 where
    pub grows : Grows w.db w'.db
    pub disk : w'.disk ≡ w.disk
    pub s3_keys : w'.s3_keys ≡ w.s3_keys
    pub seen : Seen w → Seen w'

  pub same-Ensured : (w : Work d) → Ensured w w
  same-Ensured w = record { grows = λ q e h. h; disk = refl; s3_keys = refl; seen = λ h. h }

  pub trans-Ensured : (w w1 w2 : Work d) → Ensured w w1 → Ensured w1 w2 → Ensured w w2
  trans-Ensured w w1 w2 f g = record {
    grows = λ q e h. g.grows q e (f.grows q e h);
    disk = g.disk ∙ f.disk;
    s3_keys = g.s3_keys ∙ f.s3_keys;
    seen = λ h. g.seen (f.seen h);
  }

  pub HasRow-Grows : (s s' : d.State) (p : Bytes) → Grows s s' → HasRow s p → HasRow s' p
  HasRow-Grows s s' p grows (e, h) = (e, grows (normalize_path p) e h)

  see-Seen :
      (w : Work d) (p : Bytes)
      → HasRow w.db p
      → Seen w
      → Seen (record w { seen_dirs = p ∷ w.seen_dirs })
  unfolding member
  see-Seen w p there seen q = elim (Bool-cases (eqb p q)) [
    | inl same ↦
        let is : p ≡ q = ground (arith, eqb_iff p q) in
        rw (member, same) (λ h. subst (HasRow w.db) is there)
    | inr other ↦ rw (member, other) (seen q)
  ]

  missing_only : (e : Error) → is_not_found e ≡ true → e ≡ err_not_found
  missing_only err_not_found h = refl
  missing_only _ h = cc

  -- Writing an entry that had no row keeps the other rows.
  created-Grows :
      (s s' : d.State) (e x : FileEntry)
      → d.row s (normalize_path e.path) ≡ none
      → update_entry d s e ≡ done (s', x)
      → Grows s s'
  created-Grows s s' e x empty h q y there =
      let row = update_entry_row d l s s' e x q h in
      elim (Bool-cases (eqb (normalize_path e.path) q)) [
        | inr other ↦ row ∙ rw other there
        | inl same ↦
            let at : normalize_path e.path ≡ q =
              ground (arith, eqb_iff (normalize_path e.path) q) in
            let both : none ≡ some y = sym empty ∙ ap (d.row s) at ∙ there in absurd (cc)
      ]

  pub written_row :
      (s s' : d.State) (e x : FileEntry)
      → update_entry d s e ≡ done (s', x)
      → d.row s' (normalize_path e.path) ≡ some x
  written_row s s' e x h =
      update_entry_row d l s s' e x (normalize_path e.path) h
      ∙ rw (eqb_refl (normalize_path e.path)) refl

  Seen-Grows : (w w' : Work d) → Grows w.db w'.db → w'.seen_dirs ≡ w.seen_dirs → Seen w → Seen w'
  Seen-Grows w w' grows same seen p h =
      HasRow-Grows w.db w'.db p grows (seen p (ap (member p) (sym same) ∙ h))

  -- What a directory's turn comes to: unless it fails, the directory has a row.
  pub record Turn (w : Work d) (dir : Bytes) (x : Status × Work d) : Type 0 where
    pub ensured : Ensured w x.1
    pub there : x.0 ≡ done tt → Seen w → HasRow x.1.db dir

  module _ (w : Work d) (dir : Bytes) where
    failed-Turn : (e : Error) → Turn w dir (failed e, w)
    failed-Turn e = record { ensured = same-Ensured w; there = λ h. absurd (cc) }

    create_dir-Turn :
        get_entry d w.db dir ≡ failed err_not_found → Turn w dir (create_dir d r w dir)
    unfolding create_dir
    create_dir-Turn gone = elim (Outcome-cases (update_entry d w.db (directory d r w dir))) [
      | inr c ↦
          let (e, h) = c in
          rw (create_dir, h) (failed-Turn (wrapped (codes "failed to create directory " ++ dir) e))
      | inl c ↦
          let ((db, x), h) = c in
          let empty : d.row w.db (normalize_path dir) ≡ none =
            get_entry_missing d l w.db dir gone in
          let grows : Grows w.db db = created-Grows w.db db (directory d r w dir) x empty h in
          let own : HasRow db dir = (x, written_row w.db db (directory d r w dir) x h) in
          let w1 : Work d = record w { db = db } in
          let turn : Turn w dir (done tt, see d r w1 dir) = record {
            ensured = record {
              grows = grows;
              disk = refl;
              s3_keys = refl;
              seen = λ seen. see-Seen w1 dir own (Seen-Grows w w1 grows refl seen);
            };
            there = λ k seen. own;
          } in
          rw (create_dir, h) turn
    ]

    pub ensure_dir-Turn : Turn w dir (ensure_dir d r w dir)
    unfolding ensure_dir
    ensure_dir-Turn = elim (Bool-cases (member dir w.seen_dirs)) [
      | inl before ↦
          let turn : Turn w dir (done tt, w) = record {
            ensured = same-Ensured w;
            there = λ k seen. seen dir before;
          } in
          rw (ensure_dir, before) turn
      | inr new ↦ elim (Outcome-cases (get_entry d w.db dir)) [
        | inl c ↦
            let (e, h) = c in
            let own : HasRow w.db dir = (e, get_entry_row d l w.db dir e h) in
            let turn : Turn w dir (done tt, see d r w dir) = record {
              ensured = record {
                grows = λ q x k. k;
                disk = refl;
                s3_keys = refl;
                seen = see-Seen w dir own;
              };
              there = λ k seen. own;
            } in
            rw (ensure_dir, new, h) turn
        | inr c ↦
            let (e, h) = c in
            elim (Bool-cases (is_not_found e)) [
              | inr wrong ↦ rw (ensure_dir, new, h, wrong) (failed-Turn e)
              | inl gone ↦
                  rw (ensure_dir, new, h, gone)
                    (create_dir-Turn (h ∙ ap failed (missing_only e gone)))
            ]
      ]
    ]

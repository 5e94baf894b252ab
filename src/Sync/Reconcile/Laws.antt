-- ===== src/Sync/Reconcile/Laws.antt =====
-- Which rows reconcileDeletedEntries deletes.
use s3_2_smb.Base.{
  ℕ, suc, Bytes, ◌≡◌, ◌≢◌, ◌∙◌, sym, refl, ap, inl, inr, Bool, true, false, ◌&&◌, not, Option, none,
  some, List, [], ◌∷◌, eqb, eqb_iff, eqb_refl, arith, ok, Bool-cases, if◌then◌else◌,
}
use s3_2_smb.Metadata.Paths.{normalize_path}
use s3_2_smb.Metadata.Entry.{FileEntry, Error, failed}
use s3_2_smb.Metadata.Database.{Database, Lawful, Member, is_dir_is, selects}
use s3_2_smb.Metadata.Repository.{delete_entry}
use s3_2_smb.Metadata.Repository.Laws.{Outcome-cases, delete_entry_row}
use s3_2_smb.Metadata.Repository.Normal.{IsNormal}
use s3_2_smb.Sync.Objects.{Schedule, member}
use s3_2_smb.Sync.Reconcile.{purge, purge_all, reconcile_deleted_entries}

-- An entry of the path is in the list.
listed : Bytes → List FileEntry → Bool
listed q [] = false
listed q (x ∷ xs) = if eqb x.path q then true else listed q xs

listed_entry :
    (q : Bytes) (xs : List FileEntry)
    → listed q xs ≡ true
    → (x : FileEntry) × Member x xs × (x.path ≡ q)
unfolding listed
listed_entry q [] = λ h. absurd (cc)
listed_entry q (x ∷ xs) = elim (Bool-cases (eqb x.path q)) [
  | inl same ↦ λ h. (x, inl refl, ground (arith, eqb_iff x.path q))
  | inr other ↦ rw (listed, other) (λ h. (let (y, m, at) = listed_entry q xs h in (y, inr m, at)))
]

entry_listed : (e : FileEntry) (xs : List FileEntry) → Member e xs → listed e.path xs ≡ true
unfolding listed
entry_listed e [] m = absurd m
entry_listed e (x ∷ xs) (inl is) =
    let same : eqb x.path e.path ≡ true = ap (λ z. eqb z.path e.path) (sym is) ∙ eqb_refl e.path in
    rw (listed, same) refl
entry_listed e (x ∷ xs) (inr m) = let rest = entry_listed e xs m in ground arith

module _ (d : Database) (l : Lawful d) (r : Schedule) (s3_keys : List Bytes)
    (deletes : (s : d.State) (p : Bytes) (x : Error) → delete_entry d s p ≢ failed x)
    (lasts : (k : ℕ) → r.entry_cancelled k ≡ none) where
  purge_row :
      (s : d.State) (e : FileEntry) (q : Bytes)
      → normalize_path e.path ≡ e.path
      → d.row (purge d r s3_keys s e) q
        ≡ (if eqb e.path q && not (member q s3_keys) then none else d.row s q)
  unfolding purge
  purge_row s e q normal = elim (Bool-cases (member e.path s3_keys)) [
    | inl kept ↦
        rw (purge, kept)
          (elim (Bool-cases (eqb e.path q)) [
            | inr other ↦ rw other refl
            | inl same ↦
                let at : e.path ≡ q = ground (arith, eqb_iff e.path q) in
                let kept' : member q s3_keys ≡ true = ap (λ p. member p s3_keys) (sym at) ∙ kept in
                rw (same, kept') refl
          ])
    | inr gone ↦ elim (Outcome-cases (delete_entry d s e.path)) [
      | inr c ↦ let (x, h) = c in absurd (deletes s e.path x h)
      | inl c ↦
          let (s', h) = c in
          let row : d.row s' q ≡ (if eqb e.path q then none else d.row s q) =
            delete_entry_row d l s s' e.path q h
            ∙ ap (λ p. if eqb p q then none else d.row s q) normal in
          rw (purge, gone, h)
            (row ∙ elim (Bool-cases (eqb e.path q)) [
              | inr other ↦ rw other refl
              | inl same ↦
                  let at : e.path ≡ q = ground (arith, eqb_iff e.path q) in
                  let gone' : member q s3_keys ≡ false =
                    ap (λ p. member p s3_keys) (sym at) ∙ gone in
                  rw (same, gone') refl
            ])
    ]
  ]

  purge_all_row :
      (k : ℕ) (s : d.State) (xs : List FileEntry) (q : Bytes)
      → ((x : FileEntry) → Member x xs → normalize_path x.path ≡ x.path)
      → d.row (purge_all d r s3_keys k s xs).1 q
        ≡ (if listed q xs && not (member q s3_keys) then none else d.row s q)
  unfolding purge_all listed
  purge_all_row k s [] q normal = refl
  purge_all_row k s (x ∷ xs) q normal =
      let rest = purge_all_row (suc k) (purge d r s3_keys s x) xs q (λ y m. normal y (inr m)) in
      let one = purge_row s x q (normal x (inl refl)) in
      rw (purge_all, lasts k) (rest ∙ ground (arith, one))

  kept_row :
      (s : d.State) (xs : List FileEntry) (q : Bytes) (o : Option FileEntry)
      → d.find s (is_dir_is false) ≡ ok xs
      → d.row s q ≡ o
      → (if listed q xs && not (member q s3_keys) then none else o) ≡ (elim o [
        | none ↦ none
        | some e ↦ if not e.is_dir && not (member q s3_keys) then none else some e
      ])
  unfolding selects
  kept_row s xs q none h row = ground arith
  kept_row s xs q (some e) h row = elim (Bool-cases e.is_dir) [
    | inr file ↦
        let at : e.path ≡ q = l.row_path s q e row in
        let m : Member e xs =
          l.find_complete s (is_dir_is false) xs q e h row (ground (arith, file)) in
        let there : listed q xs ≡ true = ap (λ p. listed p xs) (sym at) ∙ entry_listed e xs m in
        rw (there, file) refl
    | inl dir ↦ elim (Bool-cases (listed q xs)) [
      | inr away ↦ rw (away, dir) refl
      | inl there ↦
          let (x, m, at) = listed_entry q xs there in
          let (there', chosen) = l.find_sound s (is_dir_is false) xs x h m in
          let both : some x ≡ some e = sym there' ∙ ap (d.row s) at ∙ row in
          let is : x ≡ e = cc in
          let file : not x.is_dir ≡ true = chosen in
          let clash : not e.is_dir ≡ true = ap (λ z. not z.is_dir) (sym is) ∙ file in
          absurd (ground (arith, clash, dir))
    ]
  ]

  -- Over a database that keeps its promises and takes every deletion, with normal paths only, a run
  -- of reconcileDeletedEntries that is not cancelled and whose query is answered deletes each row of
  -- a file whose path is no key, waiting for the writeback or not, and leaves every other row as it
  -- was.
  pub reconcile_deleted_entries_lem :
      (s : d.State) (xs : List FileEntry) (q : Bytes)
      → IsNormal d s
      → d.find s (is_dir_is false) ≡ ok xs
      → d.row (reconcile_deleted_entries d r s3_keys s).1 q ≡ (elim (d.row s q) [
        | none ↦ none
        | some e ↦ if not e.is_dir && not (member q s3_keys) then none else some e
      ])
  unfolding reconcile_deleted_entries
  reconcile_deleted_entries_lem s xs q normal h =
      rw (reconcile_deleted_entries, h)
        (purge_all_row 0 s xs q
            (λ x m. normal x.path x (l.find_sound s (is_dir_is false) xs x h m).0)
          ∙ kept_row s xs q (d.row s q) h refl)

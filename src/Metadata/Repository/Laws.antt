-- ===== src/Metadata/Repository/Laws.antt =====
-- What the repository's operations do to the rows, over a database that keeps its promises.
use s3_2_smb.Base.{
  eqb_refl, List, false, ap, Bytes, ◌≡◌, ◌≢◌, ◌∙◌, refl, Bool, true, Option, none, some, [], ◌∷◌,
  if◌then◌else◌, Result, ok, err, eqb, eqb_iff, arith, codes, Bool-cases, Result-cases, inl, inr,
  ◌⊎◌,
}
use s3_2_smb.Metadata.Paths.{normalize_path}
use s3_2_smb.Metadata.Entry.{
  FileEntry, done, failed, err_not_found, set_xattr, Error, Outcome, XattrMap,
}
use s3_2_smb.Metadata.Database.{
  Database, Lawful, found, record_not_found, query_failed, Found, path_is, set_xattrs, selects,
  unless, set_columns, Column,
}
use s3_2_smb.Metadata.Repository.{
  found_entry, wrap, get_entry, update_entry, update_entry_fields, delete_entry, save_xattrs,
  stored, set_xattr_of,
}

pub wrap_done : {A : Type 0} (text : Bytes) (r : Result A) (a : A) → wrap text r ≡ done a → r ≡ ok a
unfolding wrap
wrap_done text (ok x) a h = cc
wrap_done text (err m) a h = cc

found_done : (f : Found) (e : FileEntry) → found_entry f ≡ done e → f ≡ found e
unfolding found_entry
found_done (found x) e h = cc
found_done record_not_found e h = cc
found_done (query_failed m) e h = cc

delete_cases :
    (like : Bytes → Bytes → Bool) (p q : Bytes) (o : Option FileEntry)
    → ((e : FileEntry) → o ≡ some e → e.path ≡ q)
    → (elim o [ some e ↦ unless (selects like (path_is p) e) e | none ↦ none ])
      ≡ (if eqb p q then none else o)
unfolding selects
delete_cases like p q none h = ground arith
delete_cases like p q (some e) h =
    let at : e.path ≡ q = h e refl in ground (arith, eqb_iff e.path p, eqb_iff p q)

pub Outcome-cases {ℓ} :
    {A : Type ℓ} (o : Outcome A) → ((a : A) × (o ≡ done a)) ⊎ ((e : Error) × (o ≡ failed e))
Outcome-cases (done a) = inl (a, refl)
Outcome-cases (failed e) = inr (e, refl)

found_at :
    (f : Found) (row : Option FileEntry) (r : FileEntry)
    → ((m : Bytes) → f ≢ query_failed m)
    → ((e : FileEntry) → f ≡ found e → row ≡ some e)
    → (f ≡ record_not_found → row ≡ none)
    → row ≡ some r
    → found_entry f ≡ done r
unfolding found_entry
found_at (found x) row r answers found_row missing h = let there = found_row x refl in cc
found_at record_not_found row r answers found_row missing h = let gone = missing refl in cc
found_at (query_failed m) row r answers found_row missing h = absurd (answers m refl)

found_missing : (f : Found) → found_entry f ≡ failed err_not_found → f ≡ record_not_found
unfolding found_entry
found_missing (found x) h = cc
found_missing record_not_found h = refl
found_missing (query_failed m) h = cc

module _ (d : Database) (l : Lawful d) where
  -- An entry that is got is the row of its path.
  pub get_entry_row :
      (s : d.State) (p : Bytes) (e : FileEntry)
      → get_entry d s p ≡ done e
      → d.row s (normalize_path p) ≡ some e
  unfolding get_entry
  get_entry_row s p e h =
      l.first_found s (normalize_path p) e (found_done (d.first s (normalize_path p)) e h)

  -- An entry that is got carries the path it was got by.
  pub get_entry_path :
      (s : d.State) (p : Bytes) (e : FileEntry)
      → get_entry d s p ≡ done e
      → e.path ≡ normalize_path p
  get_entry_path s p e h = l.row_path s (normalize_path p) e (get_entry_row s p e h)

  -- Writing an entry changes the row of its path, and no other.
  pub update_entry_row :
      (s s' : d.State) (e r : FileEntry) (q : Bytes)
      → update_entry d s e ≡ done (s', r)
      → d.row s' q ≡ (if eqb (normalize_path e.path) q then some r else d.row s q)
  unfolding update_entry
  update_entry_row s s' e r q h =
      let e1 = record e { path = normalize_path e.path } in
      l.first_or_create_row s s' e1 r q
        (wrap_done (codes "failed to update entry") (d.first_or_create s e1) (s', r) h)

  delete_path :
      (p q : Bytes) (s : d.State)
      → (elim (d.row s q) [ some e ↦ unless (selects d.like (path_is p) e) e | none ↦ none ])
        ≡ (if eqb p q then none else d.row s q)
  delete_path p q s = delete_cases d.like p q (d.row s q) (l.row_path s q)

  -- Deleting an entry deletes the row of its path, and no other.
  pub delete_entry_row :
      (s s' : d.State) (p q : Bytes)
      → delete_entry d s p ≡ done s'
      → d.row s' q ≡ (if eqb (normalize_path p) q then none else d.row s q)
  unfolding delete_entry
  delete_entry_row s s' p q h =
      l.delete_row s s' (path_is (normalize_path p)) q
        (wrap_done (codes "failed to delete entry") (d.delete s (path_is (normalize_path p))) s' h)
      ∙ delete_path (normalize_path p) q s

  -- Saving attributes writes that column of that row, and nothing else.
  save_xattrs_row :
      (text : Bytes) (s s' : d.State) (e : FileEntry)
      → save_xattrs d text s e ≡ done s'
      → (m : XattrMap) × (stored d e.xattrs ≡ ok m)
        × ((q : Bytes)
            → d.row s' q ≡ (
                if eqb e.path q
                then (elim (d.row s q) [ some r ↦ some (record r { xattrs = m }) | none ↦ none ])
                else d.row s q))
  unfolding save_xattrs set_columns wrap
  save_xattrs_row text s s' e = elim (Result-cases (stored d e.xattrs)) [
    | inr c ↦ let (x, bad) = c in rw (save_xattrs, bad) (λ h. cc)
    | inl c ↦
        let (m, good) = c in
        rw (save_xattrs, good)
          (λ h. (
            m,
            refl,
            λ q.
                l.updates_row s s' e.path (set_xattrs m ∷ []) q
                  (wrap_done text (d.updates s e.path (set_xattrs m ∷ [])) s' h),
          ))
  ]

  -- Writing an entry whose path has no row yet makes it the row.
  pub update_entry_created :
      (s s' : d.State) (e r : FileEntry)
      → update_entry d s e ≡ done (s', r)
      → d.row s (normalize_path e.path) ≡ none
      → r ≡ record e { path = normalize_path e.path }
  unfolding update_entry
  update_entry_created s s' e r h fresh =
      let e1 = record e { path = normalize_path e.path } in
      l.created s s' e1 r
        (wrap_done (codes "failed to update entry") (d.first_or_create s e1) (s', r) h) fresh

  -- An entry that is not found has no row.
  pub get_entry_missing :
      (s : d.State) (p : Bytes)
      → get_entry d s p ≡ failed err_not_found
      → d.row s (normalize_path p) ≡ none
  unfolding get_entry
  get_entry_missing s p h =
      l.first_missing s (normalize_path p) (found_missing (d.first s (normalize_path p)) h)

  -- Where queries are answered, the row of a path is got.
  pub get_entry_at :
      (s : d.State) (p : Bytes) (r : FileEntry)
      → ((m : Bytes) → d.first s (normalize_path p) ≢ query_failed m)
      → d.row s (normalize_path p) ≡ some r
      → get_entry d s p ≡ done r
  unfolding get_entry
  get_entry_at s p r answers h =
      found_at (d.first s (normalize_path p)) (d.row s (normalize_path p)) r answers
        (l.first_found s (normalize_path p)) (l.first_missing s (normalize_path p)) h

  -- Writing an entry that is marked for the writeback marks its row.
  pub update_entry_dirty :
      (s s' : d.State) (e r : FileEntry)
      → update_entry d s e ≡ done (s', r)
      → e.local_dirty ≡ true
      → r.local_dirty ≡ true
  unfolding update_entry
  update_entry_dirty s s' e r h marked =
      let e1 = record e { path = normalize_path e.path } in
      (l.assigned s s' e1 r (
          wrap_done (codes "failed to update entry") (d.first_or_create s e1) (s', r)
            h)).local_dirty
        marked

  saved_row :
      (s s' : d.State) (path q : Bytes) (e : FileEntry) (m : XattrMap)
      → d.row s (normalize_path path) ≡ some e
      → e.path ≡ normalize_path path
      → d.row s' q ≡ (
          if eqb e.path q
          then (elim (d.row s q) [ some r ↦ some (record r { xattrs = m }) | none ↦ none ])
          else d.row s q)
      → d.row s' q
        ≡ (if eqb (normalize_path path) q then some (record e { xattrs = m }) else d.row s q)
  saved_row s s' path q e m here at h = elim (Bool-cases (eqb e.path q)) [
    | inl same ↦
        let there : q ≡ normalize_path path = ground (arith, eqb_iff e.path q) in
        let row : d.row s q ≡ some e = ap (d.row s) there ∙ here in
        let same' : eqb (normalize_path path) q ≡ true =
          ground (arith, eqb_iff (normalize_path path) q) in
        h ∙ rw (same, row, same') refl
    | inr other ↦
        let other' : eqb (normalize_path path) q ≡ false =
          ground (arith, eqb_iff (normalize_path path) q, eqb_iff e.path q) in
        h ∙ rw (other, other') refl
  ]

  -- Over a database that keeps its promises, setting an extended attribute of a path that succeeds
  -- finds an entry there and gives its row the attributes that are read back of the entry's with that
  -- one set, and changes nothing else in the table.
  pub set_xattr_of_row :
      (s s' : d.State) (path name value : Bytes)
      → set_xattr_of d s path name value ≡ done s'
      → (e : FileEntry) × (m : XattrMap) × (d.row s (normalize_path path) ≡ some e)
        × (stored d (set_xattr e name value).xattrs ≡ ok m)
        × ((q : Bytes)
            → d.row s' q
              ≡ (if eqb (normalize_path path) q then some (record e { xattrs = m }) else d.row s q))
  unfolding set_xattr_of set_xattr
  set_xattr_of_row s s' path name value = elim (Outcome-cases (get_entry d s path)) [
    | inr c ↦ let (x, g) = c in rw (set_xattr_of, g) (λ h. cc)
    | inl c ↦
        let (e, g) = c in
        rw (set_xattr_of, g)
          (λ h.
            let (m, reads, row) =
              save_xattrs_row (codes "failed to save xattr") s s' (set_xattr e name value) h in
            (
              e,
              m,
              get_entry_row s path e g,
              reads,
              λ q.
                  saved_row s s' path q e m (get_entry_row s path e g) (get_entry_path s path e g)
                    (row q),
            ))
  ]

  -- Updating columns of a path changes its row's columns, if it has one, and no other row.
  pub update_entry_fields_row :
      (s s' : d.State) (p : Bytes) (cs : List Column) (q : Bytes)
      → update_entry_fields d s p cs ≡ done s'
      → d.row s' q ≡ (
          if eqb (normalize_path p) q
          then (elim (d.row s q) [ some e ↦ some (set_columns cs e) | none ↦ none ])
          else d.row s q)
  unfolding update_entry_fields
  update_entry_fields_row s s' p cs q h =
      l.updates_row s s' (normalize_path p) cs q
        (wrap_done (codes "failed to update entry fields") (d.updates s (normalize_path p) cs) s' h)

  module _ (s s' : d.State) (p : Bytes) (cs : List Column)
      (h : update_entry_fields d s p cs ≡ done s') where
    pub update_entry_fields_own :
        (e : FileEntry)
        → d.row s (normalize_path p) ≡ some e
        → d.row s' (normalize_path p) ≡ some (set_columns cs e)
    update_entry_fields_own e here =
        update_entry_fields_row s s' p cs (normalize_path p) h
        ∙ rw (eqb_refl (normalize_path p), here) refl

    pub update_entry_fields_other : (q : Bytes) → q ≢ normalize_path p → d.row s' q ≡ d.row s q
    update_entry_fields_other q other =
        let row = update_entry_fields_row s s' p cs q h in
        ground (arith, row, eqb_iff (normalize_path p) q)

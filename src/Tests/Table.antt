-- ===== src/Tests/Table.antt =====
-- A database that keeps its promises: a list of entries of different paths.
use mathlib.Core.Path.{subst}
use s3_2_smb.Base.{
  ◌≡◌, ◌∙◌, sym, ap, refl, Bytes, Bool, true, false, ◌&&◌, ◌||◌, Option, none, some, List, [], ◌∷◌,
  if◌then◌else◌, eqb, eqb_iff, eqb_refl, length, ◌==◌, ok, arith, Bool-cases, Option-cases, inl,
  inr,
}
use s3_2_smb.Metadata.Entry.{FileEntry}
use s3_2_smb.Metadata.Repository.Listing.{lower}
use s3_2_smb.Tests.Json.{marshal, unmarshal}
use s3_2_smb.Metadata.Database.{
  Database, Lawful, Found, found, record_not_found, Where, selects, Column, set_columns, set_column,
  set_size, set_mod_time, set_s3_verified_at, set_xattrs, set_local_dirty, set_local_staging_path,
  unless, Member, DistinctPaths, Assigned,
}

-- LIKE of SQLite: % is any text, _ any byte, and ASCII letters match in either case. The rest of a
-- pattern, on any suffix of a text.
unfoldable pub suffixes : (Bytes → Bool) → Bytes → Bool
suffixes test [] = test []
suffixes test (c ∷ t) = test (c ∷ t) || suffixes test t

unfoldable pub like : Bytes → Bytes → Bool
unfolding suffixes
like [] [] = true
like [] (c ∷ t) = false
like (p ∷ ps) t =
    if p == b'%'
    then suffixes (like ps) t
    else (elim t [ [] ↦ false | c ∷ t' ↦ ((p == b'_') || (lower p == lower c)) && like ps t' ])

abbrev pub row_of : List FileEntry → Bytes → Option FileEntry
row_of [] p = none
row_of (e ∷ l) p = if eqb e.path p then some e else row_of l p

abbrev pub Distinct : List FileEntry → Type 0
Distinct [] = Unit
Distinct (e ∷ l) = (row_of l e.path ≡ none) × Distinct l

pub record Table : Type 0 where
  pub rows : List FileEntry
  pub distinct : Distinct rows

abbrev pub bind : Option FileEntry → (FileEntry → Option FileEntry) → Option FileEntry
bind none f = none
bind (some e) f = f e

-- Each row is replaced or dropped.
abbrev pub refine : (FileEntry → Option FileEntry) → List FileEntry → List FileEntry
refine f [] = []
refine f (e ∷ l) = let rest = refine f l in elim (f e) [ some e' ↦ e' ∷ rest | none ↦ rest ]

abbrev pub KeepsPath : (FileEntry → Option FileEntry) → Type 0
KeepsPath f = (e e' : FileEntry) → f e ≡ some e' → e'.path ≡ e.path

module _ (f : FileEntry → Option FileEntry) (keeps : KeepsPath f) where
  pub row_of-refine :
      (l : List FileEntry) (p : Bytes) → Distinct l → row_of (refine f l) p ≡ bind (row_of l p) f
  row_of-refine [] p d = refl
  row_of-refine (e ∷ l) p (fresh, d) = elim (Option-cases (f e)) [
    | inl gone ↦ ground (arith, row_of-refine l p d, eqb_iff e.path p, gone)
    | inr c ↦
        let (e', kept) = c in
        let at : e'.path ≡ e.path = keeps e e' kept in
        ground (arith, row_of-refine l p d, eqb_iff e.path p, eqb_iff e'.path p, kept, at)
  ]

  pub refine-Distinct : (l : List FileEntry) → Distinct l → Distinct (refine f l)
  refine-Distinct [] d = tt
  refine-Distinct (e ∷ l) (fresh, d) = elim (Option-cases (f e)) [
    | inl gone ↦ rw (gone, refine) (refine-Distinct l d)
    | inr c ↦
        let (e', kept) = c in
        rw (kept, refine)
          (
            rw (keeps e e' kept) (row_of-refine l e.path d ∙ rw (fresh, bind) refl),
            refine-Distinct l d,
          )
  ]

-- The four ways that the statements refine the rows.
abbrev pub picking : Where → FileEntry → Option FileEntry
picking w e = if selects like w e then some e else none

abbrev pub dropping : Where → FileEntry → Option FileEntry
dropping w e = unless (selects like w e) e

abbrev pub replacing : Bytes → FileEntry → Option FileEntry
replacing p e = if eqb e.path p then none else some e

abbrev pub updating : Bytes → List Column → FileEntry → Option FileEntry
updating p cs e = if eqb p e.path then some (set_columns cs e) else some e

set_columns_path : (cs : List Column) (e : FileEntry) → (set_columns cs e).path ≡ e.path
unfolding set_columns set_column
set_columns_path [] e = refl
set_columns_path (set_size n ∷ cs) e = set_columns_path cs (record e { size = n })
set_columns_path (set_mod_time n ∷ cs) e = set_columns_path cs (record e { mod_time = n })
set_columns_path (set_s3_verified_at n ∷ cs) e =
    set_columns_path cs (record e { s3_verified_at = n })
set_columns_path (set_xattrs n ∷ cs) e = set_columns_path cs (record e { xattrs = n })
set_columns_path (set_local_dirty n ∷ cs) e = set_columns_path cs (record e { local_dirty = n })
set_columns_path (set_local_staging_path n ∷ cs) e =
    set_columns_path cs (record e { local_staging_path = n })

pub picking-KeepsPath : (w : Where) → KeepsPath (picking w)
picking-KeepsPath w e e' h = ground arith

pub dropping-KeepsPath : (w : Where) → KeepsPath (dropping w)
dropping-KeepsPath w e e' h = ground arith

pub replacing-KeepsPath : (p : Bytes) → KeepsPath (replacing p)
replacing-KeepsPath p e e' h = ground arith

pub updating-KeepsPath : (p : Bytes) (cs : List Column) → KeepsPath (updating p cs)
updating-KeepsPath p cs e e' h = ground (arith, set_columns_path cs e)

row_of_path : (l : List FileEntry) (p : Bytes) (e : FileEntry) → row_of l p ≡ some e → e.path ≡ p
row_of_path [] p e h = cc
row_of_path (x ∷ l) p e h = ground (arith, row_of_path l p e, eqb_iff x.path p)

-- Among entries of different paths a member is the row of its path.
row_of-Member :
    (l : List FileEntry) (e : FileEntry) → Distinct l → Member e l → row_of l e.path ≡ some e
row_of-Member [] e d h = absurd h
row_of-Member (x ∷ l) e (fresh, d) (inl same) = rw same (rw (eqb_refl x.path) refl)
row_of-Member (x ∷ l) e (fresh, d) (inr later) =
    ground (arith, row_of-Member l e d later, eqb_iff x.path e.path)

-- Entries of different paths, said by their members.
Distinct-DistinctPaths : (l : List FileEntry) → Distinct l → DistinctPaths l
Distinct-DistinctPaths [] d = tt
Distinct-DistinctPaths (x ∷ l) (fresh, d) = (
  λ y m same.
      (let row : row_of l x.path ≡ some y =
          subst (λ p. row_of l p ≡ some y) same (row_of-Member l y d m) in
        cc),
  Distinct-DistinctPaths l d,
)

Member-row_of : (l : List FileEntry) (p : Bytes) (e : FileEntry) → row_of l p ≡ some e → Member e l
Member-row_of [] p e h = absurd (cc)
Member-row_of (x ∷ l) p e h = elim (Bool-cases (eqb x.path p)) [
  | inl same ↦ inl (ground arith)
  | inr other ↦ inr (Member-row_of l p e (ground arith))
]

pub replaced_gone : (l : List FileEntry) (p : Bytes) → bind (row_of l p) (replacing p) ≡ none
replaced_gone [] p = refl
replaced_gone (x ∷ l) p = ground (arith, replaced_gone l p)

abbrev pub add_row : FileEntry → Table → Table
add_row e t = record {
  rows = e ∷ refine (replacing e.path) t.rows;
  distinct = (
    row_of-refine (replacing e.path) (replacing-KeepsPath e.path) t.rows e.path t.distinct
        ∙ replaced_gone t.rows e.path,
    refine-Distinct (replacing e.path) (replacing-KeepsPath e.path) t.rows t.distinct,
  );
}

abbrev pub refine_table : (f : FileEntry → Option FileEntry) → KeepsPath f → Table → Table
refine_table f keeps t = record {
  rows = refine f t.rows;
  distinct = refine-Distinct f keeps t.rows t.distinct;
}

abbrev pub found_of : Option FileEntry → Found
found_of none = record_not_found
found_of (some e) = found e

abbrev pub database : Database
database = record {
  State = Table;
  row = λ t p. row_of t.rows p;
  marshal = marshal;
  unmarshal = unmarshal;
  like = like;
  first = λ t p. found_of (row_of t.rows p);
  find = λ t w. ok (refine (picking w) t.rows);
  first_or_create = λ t e. ok (add_row e t, e);
  count = λ t w. ok (length (refine (picking w) t.rows));
  updates = λ t p cs. ok (refine_table (updating p cs) (updating-KeepsPath p cs) t);
  delete = λ t w. ok (refine_table (dropping w) (dropping-KeepsPath w) t);
}

ok_inj : {A : Type 0} (a b : A) → ok a ≡ ok b → a ≡ b
ok_inj a b h = cc

found_some : (o : Option FileEntry) (e : FileEntry) → found_of o ≡ found e → o ≡ some e
found_some none e h = cc
found_some (some x) e h = cc

found_none : (o : Option FileEntry) → found_of o ≡ record_not_found → o ≡ none
found_none none h = refl
found_none (some x) h = cc

bind-picking :
    (w : Where) (o : Option FileEntry) (e : FileEntry)
    → bind o (picking w) ≡ some e
    → (o ≡ some e) × (selects like w e ≡ true)
bind-picking w none e h = cc
bind-picking w (some x) e h = ground arith

find_rows :
    (t : Table) (w : Where) (e : FileEntry)
    → Member e (refine (picking w) t.rows)
    → (row_of t.rows e.path ≡ some e) × (selects like w e ≡ true)
find_rows t w e m = bind-picking w (row_of t.rows e.path) e (
    sym (row_of-refine (picking w) (picking-KeepsPath w) t.rows e.path t.distinct)
    ∙ row_of-Member (refine (picking w) t.rows) e
        (refine-Distinct (picking w) (picking-KeepsPath w) t.rows t.distinct) m)

rows_find :
    (t : Table) (w : Where) (p : Bytes) (e : FileEntry)
    → row_of t.rows p ≡ some e
    → selects like w e ≡ true
    → Member e (refine (picking w) t.rows)
rows_find t w p e h sel = Member-row_of (refine (picking w) t.rows) p e (
    row_of-refine (picking w) (picking-KeepsPath w) t.rows p t.distinct
    ∙ rw (h, bind) (ground arith))

same-Assigned : (e : FileEntry) → Assigned e e
same-Assigned e = record {
  path = refl;
  size = λ _. refl;
  mod_time = λ _. refl;
  is_dir = λ h. h;
  etag = λ _. refl;
  xattrs = λ _. refl;
  s3_verified_at = λ _. refl;
  local_dirty = λ h. h;
  local_staging_path = λ _. refl;
}

bind-replacing :
    (p : Bytes) (o : Option FileEntry)
    → ((e : FileEntry) → o ≡ some e → eqb e.path p ≡ false)
    → bind o (replacing p) ≡ o
bind-replacing p none h = refl
bind-replacing p (some e) h = ground (arith, h e)

row_of-add_row :
    (e : FileEntry) (t : Table) (q : Bytes)
    → row_of (add_row e t).rows q ≡ (if eqb e.path q then some e else row_of t.rows q)
row_of-add_row e t q = elim (Bool-cases (eqb e.path q)) [
  | inl same ↦ rw same refl
  | inr other ↦ rw other (
      row_of-refine (replacing e.path) (replacing-KeepsPath e.path) t.rows q t.distinct
      ∙ bind-replacing e.path (row_of t.rows q) (λ x h.
        ground (arith, row_of_path t.rows q x h, eqb_iff x.path e.path, eqb_iff e.path q)))
]

bind-updating :
    (p q : Bytes) (cs : List Column) (o : Option FileEntry)
    → ((e : FileEntry) → o ≡ some e → e.path ≡ q)
    → bind o (updating p cs)
      ≡ (if eqb p q then (elim o [ some e ↦ some (set_columns cs e) | none ↦ none ]) else o)
bind-updating p q cs none h = ground arith
bind-updating p q cs (some e) h = let at : e.path ≡ q = h e refl in rw at (ground arith)

bind-dropping :
    (w : Where) (o : Option FileEntry)
    → bind o (dropping w) ≡ (elim o [ some e ↦ unless (selects like w e) e | none ↦ none ])
bind-dropping w none = refl
bind-dropping w (some e) = refl

module _ (t t' : Table) (e r : FileEntry) (h : database.first_or_create t e ≡ ok (t', r)) where
  abbrev written : Table × FileEntry
  written = (add_row e t, e)

  saved : written ≡ (t', r)
  saved = ok_inj written (t', r) h

  saved_entry : e ≡ r
  saved_entry = ap (λ s. s.1) saved

  saved_row : (q : Bytes) → row_of t'.rows q ≡ (if eqb e.path q then some r else row_of t.rows q)
  saved_row q =
      rw (sym saved_entry) (ap (λ s. row_of s.0.rows q) (sym saved) ∙ row_of-add_row e t q)

pub database-Lawful : Lawful database
database-Lawful = record {
  row_path = λ t p e h. row_of_path t.rows p e h;
  first_found = λ t p e h. found_some (row_of t.rows p) e h;
  first_missing = λ t p h. found_none (row_of t.rows p) h;
  find_sound = λ t w l e h m. find_rows t w e (subst (Member e) (sym (ok_inj _ l h)) m);
  find_complete = λ t w l p e h r sel. subst (Member e) (ok_inj _ l h) (rows_find t w p e r sel);
  find_distinct = λ t w l h. subst DistinctPaths (ok_inj _ l h) (
      Distinct-DistinctPaths (refine (picking w) t.rows)
        (refine-Distinct (picking w) (picking-KeepsPath w) t.rows t.distinct));
  created = λ t t' e r h fresh. sym (saved_entry t t' e r h);
  assigned = λ t t' e r h. subst (Assigned e) (saved_entry t t' e r h) (same-Assigned e);
  first_or_create_row = λ t t' e r q h. saved_row t t' e r h q;
  updates_row = λ t t' p cs q h.
      ap (λ (s : Table). row_of s.rows q) (sym (ok_inj _ t' h))
      ∙ row_of-refine (updating p cs) (updating-KeepsPath p cs) t.rows q t.distinct
      ∙ bind-updating p q cs (row_of t.rows q) (row_of_path t.rows q);
  delete_row = λ t t' w q h.
      ap (λ (s : Table). row_of s.rows q) (sym (ok_inj _ t' h))
      ∙ row_of-refine (dropping w) (dropping-KeepsPath w) t.rows q t.distinct
      ∙ bind-dropping w (row_of t.rows q);
}

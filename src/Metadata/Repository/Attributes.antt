-- ===== src/Metadata/Repository/Attributes.antt =====
-- An extended attribute that is set and got again, through the column's text.
use s3_2_smb.Base.{
  ℕ, Bytes, ◌≡◌, ◌≢◌, ◌∙◌, sym, refl, ap, inl, inr, Option, none, some, List, ◌∷◌, eqb, eqb_refl,
  erase, if◌then◌else◌, ok, Bool-cases,
}
use s3_2_smb.Metadata.Paths.{normalize_path}
use s3_2_smb.Metadata.Entry.{
  FileEntry, done, Outcome, failed, err_xattr_not_found, attributes, get_xattr, set_xattr, value,
  scan, scan_text,
}
use s3_2_smb.Metadata.Entry.Posix.{get_xattr-set_xattr}
use s3_2_smb.Metadata.Database.{Database, Lawful, query_failed}
use s3_2_smb.Metadata.Repository.{get_entry, get_xattr_of, set_xattr_of, stored}
use s3_2_smb.Metadata.Repository.Laws.{get_entry_row, get_entry_at, set_xattr_of_row}

-- The answer of GetXattr for an attribute that is there or not.
answer : Option Bytes → Outcome Bytes
answer (some x) = done x
answer none = failed err_xattr_not_found

-- The map of attributes once one is set.
abbrev pub changed_map : FileEntry → Bytes → Bytes → List (Bytes × Bytes)
changed_map e name x = (name, x) ∷ erase name (attributes e.xattrs)

module _ (d : Database) (l : Lawful d)
    (answers : (t : d.State) (p m : Bytes) → d.first t p ≢ query_failed m) where
  got :
      (s : d.State) (path name : Bytes) (e : FileEntry)
      → get_entry d s path ≡ done e
      → get_xattr_of d s path name ≡ answer (get_xattr e name)
  unfolding get_xattr_of answer
  got s path name e h = rw (get_xattr_of, h) refl

  module _ (e : FileEntry) (name x : Bytes) (c : ℕ) (text : Bytes)
      (prints : d.marshal (changed_map e name x) ≡ ok (c ∷ text))
      (reads : d.unmarshal (c ∷ text) ≡ ok (changed_map e name x)) where
    kept : stored d (set_xattr e name x).xattrs ≡ ok (set_xattr e name x).xattrs
    unfolding stored value scan scan_text set_xattr
    kept = rw (stored, value, prints, scan, scan_text, reads) refl

    chosen :
        (o : Option Bytes) (j : Bytes)
        → answer (if eqb name j then some x else o) ≡ (if eqb name j then done x else answer o)
    unfolding answer
    chosen o j = elim (Bool-cases (eqb name j)) [
      | inl same ↦ rw same refl
      | inr other ↦ rw other refl
    ]

    -- Over a database that keeps its promises and answers every query, where JSON prints the changed
    -- map as a text that it reads back as that map, what a successful SetXattr set is what GetXattr
    -- then gives under that name, and under any other name it gives what it gave before.
    pub get_xattr_of-set_xattr_of :
        (s s' : d.State) (path j : Bytes)
        → get_entry d s path ≡ done e
        → set_xattr_of d s path name x ≡ done s'
        → get_xattr_of d s' path j ≡ (if eqb name j then done x else get_xattr_of d s path j)
    unfolding set_xattr
    get_xattr_of-set_xattr_of s s' path j h set =
        let (e', m, row, column, rows) = set_xattr_of_row d l s s' path name x set in
        let both : some e' ≡ some e = sym row ∙ get_entry_row d l s path e h in
        let is : e' ≡ e = cc in
        let same : ok m ≡ ok (set_xattr e name x).xattrs =
          sym column ∙ ap (λ y. stored d (set_xattr y name x).xattrs) is ∙ kept in
        let map : m ≡ (set_xattr e name x).xattrs = cc in
        let now : d.row s' (normalize_path path) ≡ some (record e' { xattrs = m }) =
          rows (normalize_path path) ∙ rw (eqb_refl (normalize_path path)) refl in
        let set_row : d.row s' (normalize_path path) ≡ some (set_xattr e name x) =
          now ∙ rw (is, map) refl in
        got s' path j (set_xattr e name x)
          (get_entry_at d l s' path (set_xattr e name x) (answers s' (normalize_path path)) set_row)
        ∙ ap answer (get_xattr-set_xattr e name x j)
        ∙ chosen (get_xattr e j) j
        ∙ rw (sym (got s path j e h)) refl

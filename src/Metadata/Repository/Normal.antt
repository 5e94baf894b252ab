-- ===== src/Metadata/Repository/Normal.antt =====
-- The changes that the repository's operations make, as steps, and what holds of the table after any
-- number of them.
use s3_2_smb.Base.{
  Bytes, ◌≡◌, ◌∙◌, sym, ap, refl, inl, inr, Bool, true, false, Option, none, some, List, [], ◌∷◌,
  codes, ◌++◌, if◌then◌else◌, eqb, eqb_iff, arith, Bool-cases, Result-cases, ok,
}
use s3_2_smb.Metadata.Paths.{normalize_path}
use s3_2_smb.Metadata.Paths.Laws.{normalize_path_idem}
use s3_2_smb.Metadata.Entry.{FileEntry, done, set_xattr, remove_xattr}
use s3_2_smb.Metadata.Database.{
  Database, Lawful, Column, set_columns, selects, unless, Where, path_is, path_is_or_like,
  everything, set_xattrs,
}
use s3_2_smb.Metadata.Repository.{
  get_entry, update_entry, update_entry_fields, delete_entry, delete_entries_with_prefix,
  set_xattr_of, remove_xattr_of, save_xattrs, clear, stored, wrap,
}
use s3_2_smb.Metadata.Repository.Laws.{wrap_done, Outcome-cases, update_entry_row}

module _ (d : Database) where
  -- An operation on the repository that returns no error, and the state that it leaves.
  pub data Change : d.State → d.State → Type 0 where
    updated : {s s' : d.State} → (e r : FileEntry) → update_entry d s e ≡ done (s', r) → Change s s'
    fields_updated :
        {s s' : d.State}
        → (p : Bytes) (cs : List Column) → update_entry_fields d s p cs ≡ done s'
        → Change s s'
    deleted : {s s' : d.State} → (p : Bytes) → delete_entry d s p ≡ done s' → Change s s'
    prefix_deleted :
        {s s' : d.State} → (p : Bytes) → delete_entries_with_prefix d s p ≡ done s' → Change s s'
    xattr_set :
        {s s' : d.State}
        → (p name value : Bytes) → set_xattr_of d s p name value ≡ done s'
        → Change s s'
    xattr_removed :
        {s s' : d.State} → (p name : Bytes) → remove_xattr_of d s p name ≡ done s' → Change s s'
    cleared : {s s' : d.State} → clear d s ≡ done s' → Change s s'

  -- Any number of changes.
  pub data Changes : d.State → d.State → Type 0 where
    unchanged : {s : d.State} → Changes s s
    changed : {s s1 s2 : d.State} → Change s s1 → Changes s1 s2 → Changes s s2

  -- Every row's path is normal.
  abbrev pub IsNormal : d.State → Type 0
  IsNormal s = (p : Bytes) (e : FileEntry) → d.row s p ≡ some e → normalize_path p ≡ p

  -- Every row that is left was a row before.
  abbrev Shrinks : d.State → d.State → Type 0
  Shrinks s s' =
      (q : Bytes) (e : FileEntry) → d.row s' q ≡ some e → (x : FileEntry) × (d.row s q ≡ some x)

  shrunk : (s s' : d.State) → Shrinks s s' → IsNormal s → IsNormal s'
  shrunk s s' less normal q e h = let (x, g) = less q e h in normal q x g

  module _ (l : Lawful d) where
    kept :
        (o : Option FileEntry) (f : FileEntry → Option FileEntry) (e : FileEntry)
        → (elim o [ some x ↦ f x | none ↦ none ]) ≡ some e
        → (x : FileEntry) × (o ≡ some x)
    kept none f e h = absurd (cc)
    kept (some x) f e h = (x, refl)

    changed_one :
        (b : Bool) (o : Option FileEntry) (f : FileEntry → Option FileEntry) (e : FileEntry)
        → (if b then (elim o [ some x ↦ f x | none ↦ none ]) else o) ≡ some e
        → (x : FileEntry) × (o ≡ some x)
    changed_one true o f e h = kept o f e h
    changed_one false o f e h = (e, h)

    delete-Shrinks : (s s' : d.State) (w : Where) → d.delete s w ≡ ok s' → Shrinks s s'
    delete-Shrinks s s' w h q e g =
        kept (d.row s q) (λ x. unless (selects d.like w x) x) e (sym (l.delete_row s s' w q h) ∙ g)

    updates-Shrinks :
        (s s' : d.State) (p : Bytes) (cs : List Column) → d.updates s p cs ≡ ok s' → Shrinks s s'
    updates-Shrinks s s' p cs h q e g =
        changed_one (eqb p q) (d.row s q) (λ x. some (set_columns cs x)) e
          (sym (l.updates_row s s' p cs q h) ∙ g)

    updated-IsNormal :
        (s s' : d.State) (e r : FileEntry)
        → update_entry d s e ≡ done (s', r)
        → IsNormal s
        → IsNormal s'
    updated-IsNormal s s' e r h normal q x g = elim (Bool-cases (eqb (normalize_path e.path) q)) [
      | inl same ↦
          let at : normalize_path e.path ≡ q = ground (arith, eqb_iff (normalize_path e.path) q) in
          ap normalize_path (sym at) ∙ normalize_path_idem e.path ∙ at
      | inr other ↦
          let row = update_entry_row d l s s' e r q h in normal q x (sym (row ∙ rw other refl) ∙ g)
    ]

    save_xattrs-Shrinks :
        (text : Bytes) (s s' : d.State) (e : FileEntry)
        → save_xattrs d text s e ≡ done s'
        → Shrinks s s'
    unfolding save_xattrs wrap
    save_xattrs-Shrinks text s s' e = elim (Result-cases (stored d e.xattrs)) [
      | inr c ↦ let (x, bad) = c in rw (save_xattrs, bad) (λ h. cc)
      | inl c ↦
          let (m, good) = c in
          let cs = set_xattrs m ∷ [] in
          rw (save_xattrs, good)
            (λ h. updates-Shrinks s s' e.path cs (wrap_done text (d.updates s e.path cs) s' h))
    ]

    set_xattr_of-Shrinks :
        (s s' : d.State) (p name value : Bytes)
        → set_xattr_of d s p name value ≡ done s'
        → Shrinks s s'
    unfolding set_xattr_of
    set_xattr_of-Shrinks s s' p name value = elim (Outcome-cases (get_entry d s p)) [
      | inr c ↦ let (x, g) = c in rw (set_xattr_of, g) (λ h. cc)
      | inl c ↦
          let (e, g) = c in
          rw (set_xattr_of, g)
            (save_xattrs-Shrinks (codes "failed to save xattr") s s' (set_xattr e name value))
    ]

    remove_xattr_of-Shrinks :
        (s s' : d.State) (p name : Bytes) → remove_xattr_of d s p name ≡ done s' → Shrinks s s'
    unfolding remove_xattr_of
    remove_xattr_of-Shrinks s s' p name = elim (Outcome-cases (get_entry d s p)) [
      | inr c ↦ let (x, g) = c in rw (remove_xattr_of, g) (λ h. cc)
      | inl c ↦
          let (e, g) = c in
          rw (remove_xattr_of, g)
            (save_xattrs-Shrinks (codes "failed to save entry") s s' (remove_xattr e name))
    ]

    Change-IsNormal : (s s' : d.State) → Change s s' → IsNormal s → IsNormal s'
    unfolding update_entry_fields delete_entry delete_entries_with_prefix clear
    Change-IsNormal s s' (updated e r h) normal = updated-IsNormal s s' e r h normal
    Change-IsNormal s s' (fields_updated p cs h) normal =
        shrunk s s'
          (updates-Shrinks s s' (normalize_path p) cs (
            wrap_done (codes "failed to update entry fields") (d.updates s (normalize_path p) cs) s'
              h))
          normal
    Change-IsNormal s s' (deleted p h) normal =
        let w = path_is (normalize_path p) in
        shrunk s s'
          (delete-Shrinks s s' w (wrap_done (codes "failed to delete entry") (d.delete s w) s' h))
          normal
    Change-IsNormal s s' (prefix_deleted p h) normal =
        let w = path_is_or_like (normalize_path p) (normalize_path p ++ codes "/%") in
        shrunk s s'
          (delete-Shrinks s s' w (wrap_done (codes "failed to delete entries") (d.delete s w) s' h))
          normal
    Change-IsNormal s s' (xattr_set p name value h) normal =
        shrunk s s' (set_xattr_of-Shrinks s s' p name value h) normal
    Change-IsNormal s s' (xattr_removed p name h) normal =
        shrunk s s' (remove_xattr_of-Shrinks s s' p name h) normal
    Change-IsNormal s s' (cleared h) normal =
        shrunk s s'
          (delete-Shrinks s s' everything
            (wrap_done (codes "failed to clear entries") (d.delete s everything) s' h))
          normal

    -- Over a database that keeps its promises, where every row's path is normal, that is so after any
    -- number of the repository's changes.
    pub Changes-IsNormal : (s s' : d.State) → Changes s s' → IsNormal s → IsNormal s'
    Changes-IsNormal s s' unchanged normal = normal
    Changes-IsNormal s s' (changed {s1} c cs) normal =
        Changes-IsNormal s1 s' cs (Change-IsNormal s s1 c normal)

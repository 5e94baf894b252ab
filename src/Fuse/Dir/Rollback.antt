-- ===== src/Fuse/Dir/Rollback.antt =====
-- Mkdir takes its row back when the bucket does not take the marker.
use s3_2_smb.Base.{
  ℕ, Bytes, ◌≡◌, ◌≢◌, ◌∙◌, refl, ap, true, none, [], ◌∷◌, if◌then◌else◌, eqb, eqb_iff, eqb_refl,
  arith, Bool-cases, Option-cases, inl, inr, ◌==◌, ◌&&◌,
}
use s3_2_smb.Metadata.Paths.{normalize_path, join_path}
use s3_2_smb.Metadata.Paths.Laws.{normalize_path_idem}
use s3_2_smb.Metadata.Entry.{
  FileEntry, Error, done, failed, set_posix_owner, set_posix_mode, set_xattr,
}
use s3_2_smb.Metadata.Database.{Lawful}
use s3_2_smb.Metadata.Repository.{get_entry, update_entry, delete_entry}
use s3_2_smb.Metadata.Repository.Laws.{
  Outcome-cases, update_entry_row, delete_entry_row, get_entry_path,
}
use s3_2_smb.S3client.{create_directory}
use s3_2_smb.Fuse.World.{Environment, World}
use s3_2_smb.Fuse.Dir.{Owner, owned, persist_owner, roll_back, finish_mkdir, mkdir, fresh_entry}

owned_path : (e : FileEntry) (r : Owner) → (owned e r).path ≡ e.path
unfolding owned set_posix_owner set_posix_mode set_xattr
owned_path e r = elim (Bool-cases (r.mode == 0)) [ inl h ↦ rw h refl | inr h ↦ rw h refl ]

module _ (v : Environment) (l : Lawful v.database) where
  -- Only the row of one path differs.
  abbrev pub SameBut : Bytes → v.database.State → v.database.State → Type 0
  SameBut p s s' = (q : Bytes) → q ≢ p → v.database.row s' q ≡ v.database.row s q

  update_entry-SameBut :
      (s s' : v.database.State) (e r : FileEntry)
      → update_entry v.database s e ≡ done (s', r)
      → SameBut (normalize_path e.path) s s'
  update_entry-SameBut s s' e r h q other =
      let row = update_entry_row v.database l s s' e r q h in
      ground (arith, row, eqb_iff (normalize_path e.path) q)

  persist_owner-SameBut :
      (w : World v) (path : Bytes) (r : Owner)
      → SameBut (normalize_path path) w.db (persist_owner v w path r).db
  unfolding persist_owner
  persist_owner-SameBut w path r = elim (Bool-cases ((r.mode == 0 && r.uid == 0) && r.gid == 0)) [
    | inl none_asked ↦ rw (persist_owner, none_asked) (λ q other. refl)
    | inr asked ↦ elim (Outcome-cases (get_entry v.database w.db path)) [
      | inr c ↦ let (x, g) = c in rw (persist_owner, asked, g) (λ q other. refl)
      | inl c ↦
          let (e, g) = c in
          elim (Outcome-cases (update_entry v.database w.db (owned e r))) [
            | inr c ↦ let (x, k) = c in rw (persist_owner, asked, g, k) (λ q other. refl)
            | inl c ↦
                let (t, k) = c in
                let at : normalize_path (owned e r).path ≡ normalize_path path =
                  ap normalize_path (owned_path e r ∙ get_entry_path v.database l w.db path e g)
                  ∙ normalize_path_idem path in
                rw (persist_owner, asked, g, k)
                  (λ q other.
                    update_entry-SameBut w.db t.0 (owned e r) t.1 k q (λ h. other (h ∙ at)))
          ]
    ]
  ]

  -- Each write and each deletion is taken.
  pub record Takes : Type 0 where
    pub updates :
        (s : v.database.State) (e : FileEntry) (x : Error) → update_entry v.database s e ≢ failed x
    pub deletes :
        (s : v.database.State) (p : Bytes) (x : Error) → delete_entry v.database s p ≢ failed x

  -- The row of the path is gone, and every other row is as it was.
  abbrev pub Gone : Bytes → v.database.State → v.database.State → Type 0
  Gone p s s' = (v.database.row s' p ≡ none) × SameBut p s s'

  roll_back-Gone :
      (w : World v) (path : Bytes) → Takes → Gone (normalize_path path) w.db (roll_back v w path).db
  unfolding roll_back
  roll_back-Gone w path taken = elim (Outcome-cases (delete_entry v.database w.db path)) [
    | inr c ↦ let (x, h) = c in absurd (taken.deletes w.db path x h)
    | inl c ↦
        let (db, h) = c in
        let row : (q : Bytes)
            → v.database.row db q
              ≡ (if eqb (normalize_path path) q then none else v.database.row w.db q) =
          λ q. delete_entry_row v.database l w.db db path q h in
        rw (roll_back, h)
          (
            row (normalize_path path) ∙ rw (eqb_refl (normalize_path path)) refl,
            λ q other. ground (arith, row q, eqb_iff (normalize_path path) q),
          )
  ]

  finish_mkdir-Gone :
      (w : World v) (path : Bytes) (x : Error)
      → Takes
      → (finish_mkdir v w path).0 ≡ failed x
      → Gone (normalize_path path) w.db (finish_mkdir v w path).1.db
  unfolding finish_mkdir
  finish_mkdir-Gone w path x taken =
      let d = create_directory v.bucket v.prefix w.objects path in
      elim (Option-cases d.0) [
        | inl h ↦ rw (finish_mkdir, h) (λ bad. cc)
        | inr c ↦
            let (m, h) = c in
            rw (finish_mkdir, h) (λ _. roll_back-Gone (record w { objects = d.1 }) path taken)
      ]

  -- Over a database that keeps its promises and takes each write and deletion, a Mkdir that returns an
  -- error leaves no row under the new directory's path, and every other row as it was.
  pub mkdir-Gone :
      (w : World v) (dir name : Bytes) (r : Owner) (now : ℕ) (x : Error)
      → Takes
      → (mkdir v w dir name r now).0 ≡ failed x
      → Gone (normalize_path (join_path (dir ∷ name ∷ []))) w.db (mkdir v w dir name r now).1.db
  unfolding mkdir
  mkdir-Gone w dir name r now x taken =
      let path = join_path (dir ∷ name ∷ []) in
      let e = fresh_entry path now true in
      elim (Outcome-cases (update_entry v.database w.db e)) [
        | inr c ↦ let (y, h) = c in absurd (taken.updates w.db e y h)
        | inl c ↦
            let (t, h) = c in
            let w1 : World v = record w { db = t.0 } in
            rw (mkdir, h)
              (λ bad.
                let (gone, same) = finish_mkdir-Gone (persist_owner v w1 path r) path x taken bad in
                (
                  gone,
                  λ q other.
                      same q other
                      ∙ persist_owner-SameBut w1 path r q other
                      ∙ update_entry-SameBut w.db t.0 e t.1 h q other,
                ))
      ]

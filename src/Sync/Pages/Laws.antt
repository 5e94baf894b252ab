-- ===== src/Sync/Pages/Laws.antt =====
-- What a run of SyncFromS3 does to the rows that wait for the writeback.
use s3_2_smb.Base.{
  ℕ, zero, suc, Bytes, ◌≡◌, ◌≢◌, refl, sym, inl, inr, true, false, Option, none, some, ◌∷◌, Bool,
  Bool-cases, Option-cases, Result-cases, if◌then◌else◌,
}
use mathlib.Core.Path.{subst}
use s3_2_smb.Disk.{Disk}
use s3_2_smb.Metadata.Entry.{FileEntry, Status, done, failed}
use s3_2_smb.Metadata.Repository.Laws.{Outcome-cases}
use s3_2_smb.Metadata.Database.{Database, Lawful, query_failed}
use s3_2_smb.Sync.Objects.{SyncOptions, Listing, Schedule, Work}
use s3_2_smb.Sync.Turn.{sync_objects}
use s3_2_smb.Sync.Turn.Laws.{sync_objects_keep}
use s3_2_smb.Sync.Turn.Keys.{sync_objects_keys}
use s3_2_smb.Sync.Pages.{
  sync_pages, sync_cleared, clear_first, start, options, sync_from_s3, after_pages, reconcile,
}

module _ (d : Database) (s : Listing) (r : Schedule) (l : Lawful d)
    (answers : (t : d.State) (p m : Bytes) → d.first t p ≢ query_failed m) (e : FileEntry)
    (q : Bytes) (dirty : e.local_dirty ≡ true) where
  abbrev Keeps : Option (Status × Work d) → Type 0
  Keeps none = Unit
  Keeps (some (st, w)) = (d.row w.db q ≡ some e) × (w.s3_keys ≡ none)

  module _ (opts : SyncOptions) where
    sync_pages_keep :
        (fuel k : ℕ) (token : Option Bytes) (w : Work d)
        → (d.row w.db q ≡ some e) × (w.s3_keys ≡ none)
        → Keeps (sync_pages d s r opts fuel k token w)
    unfolding sync_pages
    sync_pages_keep zero k token w here = tt
    sync_pages_keep (suc fuel) k token w here = elim (Option-cases (r.page_cancelled k)) [
      | inr c ↦ let (m, h) = c in rw (sync_pages, h) here
      | inl goes ↦ elim (Result-cases (s.list_objects_v2 opts.prefix opts.max_keys token)) [
        | inr c ↦ let (m, h) = c in rw (sync_pages, goes, h) here
        | inl c ↦
            let (page, h) = c in
            let result = sync_objects d s opts r w page.contents in
            let kept : (d.row result.1.db q ≡ some e) × (result.1.s3_keys ≡ none) = (
              sync_objects_keep d s opts r l answers e q w page.contents here.0 dirty,
              sync_objects_keys d s opts r l w page.contents here.1,
            ) in
            elim (Outcome-cases result.0) [
              | inr x ↦ let (m, g) = x in rw (sync_pages, goes, h, g) kept
              | inl x ↦
                  let (u, g) = x in
                  elim (Bool-cases page.is_truncated) [
                    | inr last ↦ rw (sync_pages, goes, h, g, last) kept
                    | inl more ↦
                        rw (sync_pages, goes, h, g, more)
                          (sync_pages_keep fuel (suc k) page.next_continuation_token result.1 kept)
                  ]
            ]
      ]
    ]

    reconcile_keep :
        (w : Work d)
        → (d.row w.db q ≡ some e) × (w.s3_keys ≡ none)
        → Keeps (some (reconcile d s r opts w))
    unfolding reconcile
    reconcile_keep w (here, untracked) = rw (reconcile, untracked) (here, untracked)

    told :
        (b : Bool) (w : Work d)
        → (d.row w.db q ≡ some e) × (w.s3_keys ≡ none)
        → Keeps
            (some (done tt, if b then record w { reports = (w.synced, false) ∷ w.reports } else w))
    told true w kept = kept
    told false w kept = kept

    after_pages_keep :
        (x : Status × Work d) → Keeps (some x) → Keeps (some (after_pages d s r opts x))
    unfolding after_pages
    after_pages_keep (failed m, w) kept = kept
    after_pages_keep (done u, w) kept =
        reconcile_keep
          (if opts.on_progress then record w { reports = (w.synced, false) ∷ w.reports } else w)
          (told opts.on_progress w kept)

    cleared_keep :
        (fuel : ℕ) (w : Work d)
        → (d.row w.db q ≡ some e) × (w.s3_keys ≡ none)
        → Keeps (sync_cleared d s r opts fuel w)
    unfolding sync_cleared
    cleared_keep fuel w kept =
        let after = sync_pages_keep fuel 0 none w kept in
        elim (Option-cases (sync_pages d s r opts fuel 0 none w)) [
          | inl h ↦ rw (sync_cleared, h) tt
          | inr c ↦
              let (x, h) = c in rw (sync_cleared, h) (after_pages_keep x (subst Keeps h after))
        ]

    skip_clear :
        (w : Work d) → opts.clear_existing ≡ false → clear_first d s r opts w ≡ (done tt, w)
    unfolding clear_first
    skip_clear w unclear = rw (clear_first, unclear) refl

    untracked :
        (db : d.State) (disk : Disk)
        → opts.reconcile_deletions ≡ false
        → (start d s r opts db disk).s3_keys ≡ none
    untracked db disk h = rw h refl

  -- Over a database that keeps its promises and answers every query, a run of SyncFromS3 that neither
  -- clears the table first nor reconciles deletions leaves each row as it was that waits for the
  -- writeback, whatever the bucket lists and however the run ends.
  pub sync_from_s3_keeps :
      (opts : SyncOptions) (fuel : ℕ) (db : d.State) (disk : Disk) (st : Status) (w : Work d)
      → opts.clear_existing ≡ false
      → opts.reconcile_deletions ≡ false
      → d.row db q ≡ some e
      → sync_from_s3 d s r fuel (some opts) db disk ≡ some (st, w)
      → d.row w.db q ≡ some e
  unfolding sync_from_s3 options
  sync_from_s3_keeps opts fuel db disk st w unclear unreconciled here =
      let o = options d s r (some opts) in
      let w0 = start d s r o db disk in
      let skipped = skip_clear o w0 unclear in
      let kept : (d.row (clear_first d s r o w0).1.db q ≡ some e)
          × ((clear_first d s r o w0).1.s3_keys ≡ none) =
        subst (λ x. (d.row x.1.db q ≡ some e) × (x.1.s3_keys ≡ none)) (sym skipped)
          (here, untracked o db disk unreconciled) in
      rw (sync_from_s3, skipped)
        (λ h. (subst Keeps h (cleared_keep o fuel (clear_first d s r o w0).1 kept)).0)

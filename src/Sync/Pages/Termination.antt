-- ===== src/Sync/Pages/Termination.antt =====
-- How many pages a run of SyncFromS3 needs.
use s3_2_smb.Base.{
  ℕ, zero, suc, ◌<◌, Bytes, ◌≡◌, refl, inl, inr, true, Option, none, some, ok, codes, ◌++◌, arith,
  Bool-cases, Option-cases, Result-cases,
}
use s3_2_smb.Disk.{Disk}
use s3_2_smb.Metadata.Entry.{Status, done, failed, other}
use s3_2_smb.Metadata.Repository.Laws.{Outcome-cases}
use s3_2_smb.Metadata.Database.{Database}
use s3_2_smb.Sync.Objects.{SyncOptions, Listing, Schedule, Work, Page}
use s3_2_smb.Sync.Turn.{sync_objects}
use s3_2_smb.Sync.Pages.{
  sync_pages, sync_cleared, clear_first, start, options, sync_from_s3, after_pages,
}

module _ (d : Database) (s : Listing) (r : Schedule) where
  -- A run that did not run out of fuel.
  abbrev pub Ends : Option (Status × Work d) → Type 0
  Ends o = (x : Status × Work d) × (o ≡ some x)

  module _ (opts : SyncOptions) (rank : Option Bytes → ℕ)
      (falls : (token : Option Bytes) (page : Page)
        → s.list_objects_v2 opts.prefix opts.max_keys token ≡ ok page
        → page.is_truncated ≡ true
        → rank page.next_continuation_token < rank token) where
    sync_pages-Ends :
        (fuel k : ℕ) (token : Option Bytes) (w : Work d)
        → rank token < fuel
        → Ends (sync_pages d s r opts fuel k token w)
    unfolding sync_pages
    sync_pages-Ends zero k token w enough = absurd (omega arith)
    sync_pages-Ends (suc fuel) k token w enough = elim (Option-cases (r.page_cancelled k)) [
      | inr c ↦ let (m, h) = c in rw (sync_pages, h) ((failed (other m), w), refl)
      | inl goes ↦ elim (Result-cases (s.list_objects_v2 opts.prefix opts.max_keys token)) [
        | inr c ↦
            let (m, h) = c in
            rw (sync_pages, goes, h)
              ((failed (other (codes "failed to list objects: " ++ m)), w), refl)
        | inl c ↦
            let (page, h) = c in
            let result = sync_objects d s opts r w page.contents in
            elim (Outcome-cases result.0) [
              | inr x ↦ let (e, g) = x in rw (sync_pages, goes, h, g) ((failed e, result.1), refl)
              | inl x ↦
                  let (u, g) = x in
                  elim (Bool-cases page.is_truncated) [
                    | inr last ↦ rw (sync_pages, goes, h, g, last) ((done tt, result.1), refl)
                    | inl more ↦
                        rw (sync_pages, goes, h, g, more)
                          (sync_pages-Ends fuel (suc k) page.next_continuation_token result.1
                            (omega (arith, falls token page h more)))
                  ]
            ]
      ]
    ]

    cleared-Ends :
        (fuel : ℕ) (w : Work d) → rank none < fuel → Ends (sync_cleared d s r opts fuel w)
    unfolding sync_cleared
    cleared-Ends fuel w enough =
        let (x, h) = sync_pages-Ends fuel 0 none w enough in
        rw (sync_cleared, h) (after_pages d s r opts x, refl)

  -- Where a number falls from each truncated page's token to the next, a run of SyncFromS3 ends, with
  -- or without an error, once it has more fuel than the number of the first page.
  pub sync_from_s3-Ends :
      (opts : Option SyncOptions) (rank : Option Bytes → ℕ)
      → ((token : Option Bytes) (page : Page)
          → s.list_objects_v2 (options d s r opts).prefix (options d s r opts).max_keys token
            ≡ ok page
          → page.is_truncated ≡ true
          → rank page.next_continuation_token < rank token)
      → (fuel : ℕ) (db : d.State) (disk : Disk) → rank none < fuel
      → Ends (sync_from_s3 d s r fuel opts db disk)
  unfolding sync_from_s3
  sync_from_s3-Ends opts rank falls fuel db disk enough =
      let o = options d s r opts in
      let first = clear_first d s r o (start d s r o db disk) in
      elim (Outcome-cases first.0) [
        | inr c ↦ let (e, h) = c in rw (sync_from_s3, h) ((failed e, first.1), refl)
        | inl c ↦
            let (u, h) = c in rw (sync_from_s3, h) (cleared-Ends o rank falls fuel first.1 enough)
      ]

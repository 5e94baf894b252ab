-- ===== src/Sync/Parents/Ensure.antt =====
-- What a whole call of ensureParentDirs leaves.
use s3_2_smb.Base.{
  Bytes, ◌≡◌, ◌⊎◌, inl, inr, true, List, [], ◌∷◌, ◌++◌, eqb, eqb_iff, arith, Bool-cases,
}
use mathlib.Core.Path.{subst}
use s3_2_smb.Metadata.Entry.{Status, done, failed}
use s3_2_smb.Metadata.Database.{Database, Lawful}
use s3_2_smb.Metadata.Repository.Laws.{Outcome-cases}
use s3_2_smb.Sync.Objects.{Schedule, Work, member, parent_dirs}
use s3_2_smb.Sync.Parents.{ensure_dir, ensure_dirs, ensure_parent_dirs}
use s3_2_smb.Sync.Parents.Laws.{
  Grows, HasRow, Seen, Ensured, same-Ensured, trans-Ensured, HasRow-Grows, ensure_dir-Turn,
}
use s3_2_smb.Sync.Parents.Split.{member-parent_dirs}

module _ (d : Database) (l : Lawful d) (r : Schedule) where
  -- Unless it fails, each of the directories has a row.
  record Run (w : Work d) (dirs : List Bytes) (x : Status × Work d) : Type 0 where
    ensured : Ensured d l r w x.1
    all : x.0 ≡ done tt → Seen d l r w → (p : Bytes) → member p dirs ≡ true → HasRow d l r x.1.db p

  is_member :
      (p dir : Bytes) (dirs : List Bytes)
      → member p (dir ∷ dirs) ≡ true
      → (dir ≡ p) ⊎ (member p dirs ≡ true)
  unfolding member
  is_member p dir dirs = elim (Bool-cases (eqb dir p)) [
    | inl same ↦ λ h. inl (ground (arith, eqb_iff dir p))
    | inr other ↦ rw (member, other) (λ h. inr h)
  ]

  ensure_dirs-Run : (w : Work d) (dirs : List Bytes) → Run w dirs (ensure_dirs d r w dirs)
  unfolding ensure_dirs member
  ensure_dirs-Run w [] = record { ensured = same-Ensured d l r w; all = λ k seen p h. absurd (cc) }
  ensure_dirs-Run w (dir ∷ dirs) =
      let turn = ensure_dir-Turn d l r w dir in
      let w1 = (ensure_dir d r w dir).1 in
      elim (Outcome-cases (ensure_dir d r w dir).0) [
        | inr c ↦
            let (e, h) = c in
            let run : Run w (dir ∷ dirs) (failed e, w1) = record {
              ensured = turn.ensured;
              all = λ k seen p m. absurd (cc);
            } in
            rw (ensure_dirs, h) run
        | inl c ↦
            let (u, h) = c in
            let rest = ensure_dirs-Run w1 dirs in
            let run : Run w (dir ∷ dirs) (ensure_dirs d r w1 dirs) = record {
              ensured =
                  trans-Ensured d l r w w1 (ensure_dirs d r w1 dirs).1 turn.ensured rest.ensured;
              all = λ k seen p m. elim (is_member p dir dirs m) [
                | inl is ↦
                    let own : HasRow d l r w1.db dir = turn.there h seen in
                    subst (HasRow d l r (ensure_dirs d r w1 dirs).1.db) is (
                      HasRow-Grows d l r w1.db (ensure_dirs d r w1 dirs).1.db dir rest.ensured.grows
                        own)
                | inr later ↦ rest.all k (turn.ensured.seen seen) p later
              ];
            } in
            rw (ensure_dirs, h) run
      ]

  pub ensure_parent_dirs-Ensured :
      (w : Work d) (path : Bytes) → Ensured d l r w (ensure_parent_dirs d r w path).1
  unfolding ensure_parent_dirs
  ensure_parent_dirs-Ensured w path = (ensure_dirs-Run w (parent_dirs path)).ensured

  -- Over a database that keeps its promises, where each directory that the run saw has a row, a call
  -- of ensureParentDirs that returns no error leaves a row for each directory above the path; no row
  -- that was there is lost or changed, and each directory that the run saw then has a row.
  pub ensure_parent_dirs-HasRow :
      (w : Work d) (dir rest : Bytes)
      → Seen d l r w
      → (ensure_parent_dirs d r w (dir ++ b'/' ∷ rest)).0 ≡ done tt
      → HasRow d l r (ensure_parent_dirs d r w (dir ++ b'/' ∷ rest)).1.db dir
        × Grows d l r w.db (ensure_parent_dirs d r w (dir ++ b'/' ∷ rest)).1.db
        × Seen d l r (ensure_parent_dirs d r w (dir ++ b'/' ∷ rest)).1
  unfolding ensure_parent_dirs
  ensure_parent_dirs-HasRow w dir rest seen h =
      let dirs = parent_dirs (dir ++ b'/' ∷ rest) in
      let run = ensure_dirs-Run w dirs in
      (run.all h seen dir (member-parent_dirs dir rest), run.ensured.grows, run.ensured.seen seen)

-- ===== src/Tests/Like.antt =====
-- The LIKE of the concrete database, and a listing of its one file.
use s3_2_smb.Base.{
  ℕ, Bytes, ◌≡◌, ◌≢◌, ◌∙◌, ◌↔◌, refl, ap, inl, inr, Bool, true, false, ◌&&◌, [], ◌∷◌, ◌++◌, codes,
  some, ◌==◌, arith, Bool-cases,
}
use s3_2_smb.Metadata.Paths.{normalize_path, is_empty}
use s3_2_smb.Metadata.Database.{Member, selects}
use s3_2_smb.Metadata.Repository.{list_entries}
use s3_2_smb.Metadata.Repository.Listing.{LikeLaw, lower, is_child, list_entries_lem}
use s3_2_smb.Tests.Table.{database, database-Lawful, like, suffixes}
use s3_2_smb.Tests.Sample.{world, some_file}

abbrev Ends : (Bytes → Bool) → Bytes → Type 0
Ends test t = (a : Bytes) × (b : Bytes) × (t ≡ a ++ b) × (test b ≡ true)

suffixes_end : (test : Bytes → Bool) (t : Bytes) → suffixes test t ≡ true → Ends test t
unfolding suffixes
suffixes_end test [] = λ h. ([], [], refl, h)
suffixes_end test (x ∷ t) = elim (Bool-cases (test (x ∷ t))) [
  | inl here ↦ λ h. ([], x ∷ t, refl, here)
  | inr later ↦
      rw (suffixes, later)
        (λ h. (let (a, b, at, k) = suffixes_end test t h in (x ∷ a, b, ap (λ r. x ∷ r) at, k)))
]

end_suffixes : (test : Bytes → Bool) (a b : Bytes) → test b ≡ true → suffixes test (a ++ b) ≡ true
unfolding suffixes
end_suffixes test [] [] h = h
end_suffixes test [] (x ∷ b) h = rw h refl
end_suffixes test (x ∷ a) b h = let rest = end_suffixes test a b h in ground (arith, rest)

like_letter :
    (c x : ℕ) (p t : Bytes)
    → c ≢ b'%'
    → c ≢ b'_'
    → like (c ∷ p) (x ∷ t) ≡ (lower c == lower x) && like p t
unfolding like
like_letter c x p t percent any =
    let first : (c == b'%') ≡ false = ground (arith, percent) in
    let second : (c == b'_') ≡ false = ground (arith, any) in rw (first, second) refl

like_letter_left : (c : ℕ) (p : Bytes) → c ≢ b'%' → like (c ∷ p) [] ≡ false
unfolding like
like_letter_left c p percent =
    let first : (c == b'%') ≡ false = ground (arith, percent) in rw first refl

like_percent : (p t : Bytes) → (like (b'%' ∷ p) t ≡ true) ↔ Ends (like p) t
unfolding like
like_percent p t = (
  suffixes_end (like p) t,
  λ k. (let (a, b, at, h) = k in ap (suffixes (like p)) at ∙ end_suffixes (like p) a b h),
)

like-LikeLaw : LikeLaw like
unfolding like
like-LikeLaw = record {
  none_left = refl;
  text_left = λ x t. refl;
  percent = like_percent;
  letter = like_letter;
  letter_left = like_letter_left;
}

list_entries_lem_example : Member some_file (some_file ∷ []) ↔ (
    (database.row world.db (codes "d/f") ≡ some some_file)
    × (is_child (normalize_path (codes "d")) (codes "d/f") ≡ true))
unfolding list_entries normalize_path like is_empty selects
list_entries_lem_example =
    list_entries_lem database like-LikeLaw database-Lawful world.db (codes "d") (some_file ∷ [])
      ((λ k. omega (arith, k)), (λ k. omega (arith, k)), tt) refl some_file

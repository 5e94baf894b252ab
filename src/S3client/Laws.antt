-- ===== src/S3client/Laws.antt =====
-- What the calls on a bucket promise, and what the keys that they are made with keep apart.
use s3_2_smb.Base.{
  append_cancel, codes, ℕ, Bytes, ◌≡◌, ◌≢◌, sym, ap, refl, Option, none, some, [], ◌∷◌, ◌++◌,
  length, length-append, arith,
}
use s3_2_smb.Metadata.Paths.{is_empty}
use s3_2_smb.S3client.{Bucket, failure, get_full_key, put_object_from_reader}

-- A call that reports no error has its effect, and any call leaves the other keys alone.
pub record LawfulBucket (b : Bucket) : Type 0 where
  pub put_sized_stores :
      (s : b.State) (k c : Bytes) (n : ℕ)
      → (b.put_sized s k c n).0 ≡ none
      → b.object (b.put_sized s k c n).1 k ≡ some c
  pub put_sized_other :
      (s : b.State) (k c j : Bytes) (n : ℕ)
      → j ≢ k
      → b.object (b.put_sized s k c n).1 j ≡ b.object s j
  pub delete_object_deletes :
      (s : b.State) (k : Bytes)
      → (b.delete_object s k).0 ≡ none
      → b.object (b.delete_object s k).1 k ≡ none
  pub delete_object_other :
      (s : b.State) (k j : Bytes) → j ≢ k → b.object (b.delete_object s k).1 j ≡ b.object s j

prefix_longer : (p k : Bytes) (x : ℕ) → p ≢ (p ++ b'/' ∷ []) ++ x ∷ k
prefix_longer p k x h = omega (
  arith,
  ap length h,
  length-append {0} (p ++ b'/' ∷ []) (x ∷ k),
  length-append {0} p (b'/' ∷ []),
)

-- Different keys are different with the prefix in front.
pub get_full_key_inj : (prefix j k : Bytes) → get_full_key prefix j ≡ get_full_key prefix k → j ≡ k
unfolding get_full_key is_empty
get_full_key_inj [] j k h = h
get_full_key_inj (c ∷ p) [] [] h = refl
get_full_key_inj (c ∷ p) [] (x ∷ k) h = absurd (prefix_longer (c ∷ p) k x h)
get_full_key_inj (c ∷ p) (x ∷ j) [] h = absurd (prefix_longer (c ∷ p) j x (sym h))
get_full_key_inj (c ∷ p) (x ∷ j) (y ∷ k) h = append_cancel ((c ∷ p) ++ b'/' ∷ []) (x ∷ j) (y ∷ k) h

failure-none : (what key : Bytes) (o : Option Bytes) → failure what key o ≡ none → o ≡ none
failure-none what key none h = refl
failure-none what key (some m) h = cc

module _ (b : Bucket) (prefix : Bytes) where
  -- An upload without an error stores the body.
  pub put_object_from_reader_stores :
      LawfulBucket b
      → (s : b.State) (k c : Bytes) (n : ℕ) → (put_object_from_reader b prefix s k c n).0 ≡ none
      → b.object (put_object_from_reader b prefix s k c n).1 (get_full_key prefix k) ≡ some c
  unfolding put_object_from_reader
  put_object_from_reader_stores l s k c n h = l.put_sized_stores s (get_full_key prefix k) c n (
      failure-none (codes "failed to put object ") (get_full_key prefix k)
        (b.put_sized s (get_full_key prefix k) c n).0 h)

  -- An upload leaves the other paths' objects alone.
  pub put_object_from_reader_other :
      LawfulBucket b
      → (s : b.State) (k c j : Bytes) (n : ℕ) → j ≢ k
      → b.object (put_object_from_reader b prefix s k c n).1 (get_full_key prefix j)
        ≡ b.object s (get_full_key prefix j)
  unfolding put_object_from_reader
  put_object_from_reader_other l s k c j n other =
      l.put_sized_other s (get_full_key prefix k) c (get_full_key prefix j) n
        (λ h. other (get_full_key_inj prefix j k h))

-- ===== src/Metadata/Paths/Laws.antt =====
-- Normal forms of paths, and joining against taking apart.
use s3_2_smb.Base.{
  ℕ, Bytes, ◌≡◌, ◌≢◌, refl, sym, ◌∙◌, Bool, true, false, none, some, [], ◌∷◌, ◌++◌, ◌==◌,
  if◌then◌else◌, arith, inl, inr, Bool-cases,
}
use s3_2_smb.Metadata.Paths.{
  is_empty, trim_left, trim_right, normalize_path, split_last, parent_path, base_name, join,
  parent_of, base_of, non_empty, join_path,
}

-- Neither end is a slash.
unfoldable pub begins : ℕ → Bytes → Bool
begins c [] = false
begins c (x ∷ s) = x == c

unfoldable pub ends : ℕ → Bytes → Bool
ends c [] = false
ends c (x ∷ []) = x == c
ends c (x ∷ y ∷ s) = ends c (y ∷ s)

begins-trim_left : (c : ℕ) (s : Bytes) → begins c (trim_left c s) ≡ false
unfolding begins trim_left
begins-trim_left c [] = refl
begins-trim_left c (x ∷ s) = ground (arith, begins-trim_left c s)

trim_left_same : (c : ℕ) (s : Bytes) → begins c s ≡ false → trim_left c s ≡ s
unfolding begins trim_left
trim_left_same c [] h = refl
trim_left_same c (x ∷ s) h = ground arith

begins-trim_right : (c : ℕ) (s : Bytes) → begins c s ≡ false → begins c (trim_right c s) ≡ false
unfolding begins trim_right
begins-trim_right c [] h = refl
begins-trim_right c (x ∷ s) h = ground arith

trim_right_idem : (c : ℕ) (s : Bytes) → trim_right c (trim_right c s) ≡ trim_right c s
unfolding trim_right
trim_right_idem c [] = refl
trim_right_idem c (x ∷ s) = ground (arith, trim_right_idem c s)

trim_right_same : (c : ℕ) (s : Bytes) → ends c s ≡ false → trim_right c s ≡ s
unfolding ends trim_right is_empty
trim_right_same c [] h = refl
trim_right_same c (x ∷ []) h = ground arith
trim_right_same c (x ∷ y ∷ s) h = ground (arith, trim_right_same c (y ∷ s) h)

-- Normalizing a path twice is normalizing it once.
pub normalize_path_idem : (p : Bytes) → normalize_path (normalize_path p) ≡ normalize_path p
unfolding normalize_path
normalize_path_idem p =
    let t = trim_left b'/' p in
    rw
      (trim_left_same b'/' (trim_right b'/' t) (begins-trim_right b'/' t (begins-trim_left b'/' p)))
      (trim_right_idem b'/' t)

normalize_path_same :
    (s : Bytes) → begins b'/' s ≡ false → ends b'/' s ≡ false → normalize_path s ≡ s
unfolding normalize_path
normalize_path_same s b e = rw (trim_left_same b'/' s b) (trim_right_same b'/' s e)

-- A name: not empty, and without a slash.
abbrev NoByte : ℕ → Bytes → Type 0
NoByte c [] = Unit
NoByte c (x ∷ s) = (x ≢ c) × NoByte c s

abbrev pub IsName : Bytes → Type 0
IsName n = (is_empty n ≡ false) × NoByte b'/' n

NoByte-begins : (c : ℕ) (s : Bytes) → NoByte c s → begins c s ≡ false
unfolding begins
NoByte-begins c [] h = refl
NoByte-begins c (x ∷ s) h = ground arith

NoByte-ends : (c : ℕ) (s : Bytes) → NoByte c s → ends c s ≡ false
unfolding ends
NoByte-ends c [] h = refl
NoByte-ends c (x ∷ []) h = ground arith
NoByte-ends c (x ∷ y ∷ s) h = NoByte-ends c (y ∷ s) h.1

split_last_name : (c : ℕ) (s : Bytes) → NoByte c s → split_last c s ≡ none
unfolding split_last
split_last_name c [] h = refl
split_last_name c (x ∷ s) h = ground (arith, split_last_name c s h.1)

split_last_joined : (c : ℕ) (d n : Bytes) → NoByte c n → split_last c (d ++ c ∷ n) ≡ some (d, n)
unfolding split_last
split_last_joined c [] n h = ground (arith, split_last_name c n h)
split_last_joined c (x ∷ d) n h = ground (arith, split_last_joined c d n h)

begins-append : (c : ℕ) (d s : Bytes) → is_empty d ≡ false → begins c (d ++ s) ≡ begins c d
unfolding begins is_empty
begins-append c [] s h = cc
begins-append c (x ∷ d) s h = refl

ends-append : (c y : ℕ) (d s : Bytes) → ends c (d ++ y ∷ s) ≡ ends c (y ∷ s)
unfolding ends
ends-append c y [] s = refl
ends-append c y (x ∷ []) s = refl
ends-append c y (x ∷ z ∷ d) s = ends-append c y (z ∷ d) s

ends_cons : (c y : ℕ) (s : Bytes) → is_empty s ≡ false → ends c (y ∷ s) ≡ ends c s
unfolding ends is_empty
ends_cons c y [] h = cc
ends_cons c y (x ∷ s) h = refl

ends_last : (c x : ℕ) (s : Bytes) → is_empty s ≡ true → (x == c) ≡ false → ends c (x ∷ s) ≡ false
unfolding ends is_empty
ends_last c x [] h other = other
ends_last c x (y ∷ s) h other = cc

some_append : (d : Bytes) (c : ℕ) (s : Bytes) → is_empty (d ++ c ∷ s) ≡ false
unfolding is_empty
some_append [] c s = refl
some_append (x ∷ d) c s = refl

empty_is_nil : (s : Bytes) → is_empty s ≡ true → s ≡ []
unfolding is_empty
empty_is_nil [] h = refl
empty_is_nil (x ∷ s) h = cc

ends-trim_right : (c : ℕ) (s : Bytes) → ends c (trim_right c s) ≡ false
unfolding trim_right is_empty ends
ends-trim_right c [] = refl
ends-trim_right c (x ∷ s) = elim (Bool-cases (is_empty (trim_right c s))) [
  | inl none_left ↦ elim (Bool-cases (x == c)) [
    | inl same ↦ ground arith
    | inr other ↦ rw (none_left, trim_right, other) (ends_last c x (trim_right c s) none_left other)
  ]
  | inr some_left ↦
      rw (some_left, trim_right) (ends_cons c x (trim_right c s) some_left ∙ ends-trim_right c s)
]

begins-normalize_path : (p : Bytes) → begins b'/' (normalize_path p) ≡ false
unfolding normalize_path
begins-normalize_path p = begins-trim_right b'/' (trim_left b'/' p) (begins-trim_left b'/' p)

ends-normalize_path : (p : Bytes) → ends b'/' (normalize_path p) ≡ false
unfolding normalize_path
ends-normalize_path p = ends-trim_right b'/' (trim_left b'/' p)

-- The path of a name in a directory.
unfoldable pub child_path : Bytes → Bytes → Bytes
child_path dir name =
    if is_empty (normalize_path dir) then name else normalize_path dir ++ b'/' ∷ name

module _ (dir name : Bytes) (n : IsName name) where
  name_normal : normalize_path name ≡ name
  name_normal = normalize_path_same name (NoByte-begins b'/' name n.1) (NoByte-ends b'/' name n.1)

  child_path_root : is_empty (normalize_path dir) ≡ true → child_path dir name ≡ name
  unfolding child_path
  child_path_root root = rw root

  child_path_below :
      is_empty (normalize_path dir) ≡ false
      → child_path dir name ≡ normalize_path dir ++ b'/' ∷ name
  unfolding child_path
  child_path_below below = rw below

  -- `JoinPath` of a directory and a name.
  pub join_path-child_path : join_path (dir ∷ name ∷ []) ≡ child_path dir name
  unfolding join_path join non_empty
  join_path-child_path = elim (Bool-cases (is_empty (normalize_path dir))) [
    | inl root ↦ rw (child_path_root root, root, name_normal, n.0)
    | inr below ↦ rw (child_path_below below, below, name_normal, n.0, join)
  ]

  child_path-normal : normalize_path (child_path dir name) ≡ child_path dir name
  unfolding child_path
  child_path-normal = elim (Bool-cases (is_empty (normalize_path dir))) [
    | inl root ↦ rw (root, child_path) name_normal
    | inr below ↦
        rw (below, child_path)
          (normalize_path_same (normalize_path dir ++ b'/' ∷ name)
            (begins-append b'/' (normalize_path dir) (b'/' ∷ name) below
              ∙ begins-normalize_path dir)
            (ends-append b'/' b'/' (normalize_path dir) name
              ∙ ends_cons b'/' b'/' name n.0
              ∙ NoByte-ends b'/' name n.1))
  ]

  child_path-some : is_empty (child_path dir name) ≡ false
  unfolding child_path
  child_path-some = ground (arith, n.0, some_append (normalize_path dir) b'/' name)

  parent_base-child_path :
      (parent_of (child_path dir name) ≡ normalize_path dir)
      × (base_of (child_path dir name) ≡ name)
  unfolding parent_of base_of
  parent_base-child_path = elim (Bool-cases (is_empty (normalize_path dir))) [
    | inl root ↦
        rw (child_path_root root, n.0, split_last_name b'/' name n.1)
          (sym (empty_is_nil (normalize_path dir) root), child_path_root root)
    | inr below ↦
        rw
          (
            child_path_below below,
            some_append (normalize_path dir) b'/' name,
            split_last_joined b'/' (normalize_path dir) name n.1,
          )
          (refl, refl)
  ]

  -- For a name that is not empty and has no slash, the parent of its path in a directory is the
  -- directory's normal form, and the base is the name.
  pub parent_base-join_path :
      (parent_path (join_path (dir ∷ name ∷ [])) ≡ normalize_path dir)
      × (base_name (join_path (dir ∷ name ∷ [])) ≡ name)
  unfolding parent_path base_name
  parent_base-join_path = rw (join_path-child_path, child_path-normal) parent_base-child_path

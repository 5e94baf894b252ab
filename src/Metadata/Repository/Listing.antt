-- ===== src/Metadata/Repository/Listing.antt =====
-- Which rows ListEntries finds, by what SQLite documents of LIKE.
use s3_2_smb.Base.{
  ℕ, ◌+◌, Bytes, ◌≡◌, ◌≢◌, ◌∙◌, ◌↔◌, sym, refl, ap, inl, inr, Bool, true, false, ◌&&◌, not, Option,
  none, some, List, [], ◌∷◌, ◌++◌, codes, ◌==◌, leb, if◌then◌else◌, arith, Bool-cases,
}
use s3_2_smb.Disk.{contains_byte}
use s3_2_smb.Metadata.Paths.{normalize_path, is_empty}
use s3_2_smb.Metadata.Entry.{FileEntry, done}
use s3_2_smb.Metadata.Database.{Database, Lawful, Member, selects}
use s3_2_smb.Metadata.Repository.{children, list_entries}
use s3_2_smb.Metadata.Repository.Laws.{wrap_done}

-- A letter without its case.
abbrev pub lower : ℕ → ℕ
lower c = if leb 65 c && leb c 90 then c + 32 else c

-- A percent sign matches any text, and a letter matches itself in either case.
pub record LikeLaw (like : Bytes → Bytes → Bool) : Type 0 where
  pub none_left : like [] [] ≡ true
  pub text_left : (x : ℕ) (t : Bytes) → like [] (x ∷ t) ≡ false
  pub percent :
      (p t : Bytes)
      → (like (b'%' ∷ p) t ≡ true) ↔ ((a : Bytes) × (b : Bytes) × (t ≡ a ++ b) × (like p b ≡ true))
  pub letter :
      (c x : ℕ) (p t : Bytes)
      → c ≢ b'%'
      → c ≢ b'_'
      → like (c ∷ p) (x ∷ t) ≡ (lower c == lower x) && like p t
  pub letter_left : (c : ℕ) (p : Bytes) → c ≢ b'%' → like (c ∷ p) [] ≡ false

-- A text without the two signs that LIKE reads otherwise.
abbrev pub Plain : Bytes → Type 0
Plain [] = Unit
Plain (c ∷ s) = (c ≢ b'%') × (c ≢ b'_') × Plain s

-- What stands behind a prefix, whose case does not matter.
unfoldable pub rest_of : Bytes → Bytes → Option Bytes
rest_of [] t = some t
rest_of (c ∷ p) [] = none
rest_of (c ∷ p) (x ∷ t) = if lower c == lower x then rest_of p t else none

abbrev pub has_no_slash : Option Bytes → Bool
has_no_slash none = false
has_no_slash (some name) = not (contains_byte b'/' name)

-- The path is a name below the directory, but for the case of the directory's letters.
unfoldable pub is_child : Bytes → Bytes → Bool
unfolding rest_of
is_child dir path =
    if is_empty dir
    then not (contains_byte b'/' path)
    else has_no_slash (rest_of (dir ++ b'/' ∷ []) path)

append_nil : (t : Bytes) → t ≡ t ++ []
append_nil [] = refl
append_nil (x ∷ t) = ap (λ r. x ∷ r) (append_nil t)

contains_byte-append : (c : ℕ) (a b : Bytes) → contains_byte c (a ++ c ∷ b) ≡ true
unfolding contains_byte
contains_byte-append c [] b = ground arith
contains_byte-append c (x ∷ a) b = let rest = contains_byte-append c a b in ground (arith, rest)

contains_byte_parts :
    (c : ℕ) (t : Bytes) → contains_byte c t ≡ true → (a : Bytes) × (b : Bytes) × (t ≡ a ++ c ∷ b)
unfolding contains_byte
contains_byte_parts c [] = λ h. absurd (cc)
contains_byte_parts c (x ∷ t) = elim (Bool-cases (x == c)) [
  | inl same ↦ λ h. ([], t, (let is : x ≡ c = ground (arith, same) in ap (λ y. y ∷ t) is))
  | inr other ↦
      rw (contains_byte, other)
        (λ h. (let (a, b, at) = contains_byte_parts c t h in (x ∷ a, b, ap (λ r. x ∷ r) at)))
]

module _ (like : Bytes → Bytes → Bool) (law : LikeLaw like) where
  abbrev after : Bytes → Option Bytes → Bool
  after q none = false
  after q (some u) = like q u

  like-append : (p q t : Bytes) → Plain p → like (p ++ q) t ≡ after q (rest_of p t)
  unfolding rest_of
  like-append [] q t plain = refl
  like-append (c ∷ p) q [] (percent, any, plain) = law.letter_left c (p ++ q) percent
  like-append (c ∷ p) q (x ∷ t) (percent, any, plain) =
      let rest = like-append p q t plain in
      let one = law.letter c x (p ++ q) t percent any in
      elim (Bool-cases (lower c == lower x)) [
        | inl same ↦ one ∙ rw (rest_of, same) rest
        | inr other ↦ one ∙ rw (rest_of, other) refl
      ]

  like_any : (u : Bytes) → like (b'%' ∷ []) u ≡ true
  like_any u = (law.percent [] u).1 (u, [], append_nil u, law.none_left)

  slash_first : (b : Bytes) → like (b'/' ∷ b'%' ∷ []) b ≡ true → (t : Bytes) × (b ≡ b'/' ∷ t)
  slash_first [] h =
      let left = law.letter_left b'/' (b'%' ∷ []) (λ k. omega (arith, k)) in absurd (cc)
  slash_first (x ∷ t) h =
      let one = law.letter b'/' x (b'%' ∷ []) t (λ k. omega (arith, k)) (λ k. omega (arith, k)) in
      let is : x ≡ b'/' = ground (arith, one, h) in (t, ap (λ y. y ∷ t) is)

  like_slash : (u : Bytes) → like (codes "%/%") u ≡ contains_byte b'/' u
  like_slash u = elim (Bool-cases (contains_byte b'/' u)) [
    | inl there ↦
        let (a, b, at) = contains_byte_parts b'/' u there in
        let one =
          law.letter b'/' b'/' (b'%' ∷ []) b (λ k. omega (arith, k)) (λ k. omega (arith, k)) in
        let behind : like (b'/' ∷ b'%' ∷ []) (b'/' ∷ b) ≡ true = one ∙ like_any b in
        (law.percent (b'/' ∷ b'%' ∷ []) u).1 (a, b'/' ∷ b, at, behind) ∙ sym there
    | inr absent ↦ elim (Bool-cases (like (codes "%/%") u)) [
      | inr h ↦ h ∙ sym absent
      | inl h ↦
          let (a, b, at, k) = (law.percent (b'/' ∷ b'%' ∷ []) u).0 h in
          let (t, is) = slash_first b k in
          let there : contains_byte b'/' u ≡ true =
            ap (contains_byte b'/') (at ∙ ap (λ r. a ++ r) is) ∙ contains_byte-append b'/' a t in
          absurd (cc)
    ]
  ]

  Plain-append : (p q : Bytes) → Plain p → Plain q → Plain (p ++ q)
  Plain-append [] q f g = g
  Plain-append (c ∷ p) q (percent, any, f) g = (percent, any, Plain-append p q f g)

  below : (o : Option Bytes) → (after (b'%' ∷ []) o && not (after (codes "%/%") o)) ≡ has_no_slash o
  below none = refl
  below (some u) = rw (like_any u, like_slash u) refl

module _ (d : Database) (law : LikeLaw d.like) where
  children_child :
      (dir : Bytes) (e : FileEntry)
      → Plain (normalize_path dir)
      → selects d.like (children d dir) e ≡ is_child (normalize_path dir) e.path
  unfolding children selects is_child
  children_child dir e plain = elim (Bool-cases (is_empty (normalize_path dir))) [
    | inl root ↦ rw (children, is_child, root) (ap not (like_slash d.like law e.path))
    | inr deeper ↦
        let p = normalize_path dir ++ b'/' ∷ [] in
        let plain' : Plain p =
          Plain-append d.like law (normalize_path dir) (b'/' ∷ []) plain
            ((λ k. omega (arith, k)), (λ k. omega (arith, k)), tt) in
        let here = like-append d.like law p (b'%' ∷ []) e.path plain' in
        let deeper' = like-append d.like law p (codes "%/%") e.path plain' in
        rw (children, is_child, deeper, here, deeper') (below d.like law (rest_of p e.path))
  ]

  -- Over a database that keeps its promises and has SQLite's LIKE, where the directory's normal path
  -- has no percent sign and no underscore, ListEntries, if it returns no error, gives exactly the rows
  -- whose path is a name below the directory, in whatever case the directory is written there.
  pub list_entries_lem :
      Lawful d
      → (s : d.State) (dir : Bytes) (es : List FileEntry) → Plain (normalize_path dir)
      → list_entries d s dir ≡ done es
      → (e : FileEntry)
      → Member e es ↔ ((d.row s e.path ≡ some e) × (is_child (normalize_path dir) e.path ≡ true))
  unfolding list_entries
  list_entries_lem l s dir es plain h e =
      let found = wrap_done (codes "failed to list entries") (d.find s (children d dir)) es h in
      let same = children_child dir e plain in
      (
        λ m.
            (let (row, chosen) = l.find_sound s (children d dir) es e found m in
              (row, sym same ∙ chosen)),
        λ k. l.find_complete s (children d dir) es e.path e found k.0 (same ∙ k.1),
      )

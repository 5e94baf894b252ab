-- ===== src/Metadata/Paths.antt =====
-- metadata/repository.go: the functions on paths.
pub mod Laws
use s3_2_smb.Base.{
  ℕ, Bytes, Bool, true, false, Option, none, some, List, [], ◌∷◌, ◌++◌, ◌==◌, ◌&&◌, if◌then◌else◌,
}

unfoldable pub is_empty : Bytes → Bool
is_empty [] = true
is_empty (c ∷ s) = false

-- strings.TrimLeft and strings.TrimRight of one byte.
unfoldable pub trim_left : ℕ → Bytes → Bytes
trim_left c [] = []
trim_left c (x ∷ s) = if x == c then trim_left c s else x ∷ s

unfoldable pub trim_right : ℕ → Bytes → Bytes
unfolding is_empty
trim_right c [] = []
trim_right c (x ∷ s) =
    let rest = trim_right c s in if is_empty rest && (x == c) then [] else x ∷ rest

unfoldable pub normalize_path : Bytes → Bytes
unfolding trim_left trim_right
normalize_path path = trim_right b'/' (trim_left b'/' path)

-- What stands before and behind the last byte `c`, for strings.LastIndex.
unfoldable pub split_last : ℕ → Bytes → Option (Bytes × Bytes)
split_last c [] = none
split_last c (x ∷ s) = elim (split_last c s) [
  | some (before, behind) ↦ some (x ∷ before, behind)
  | none ↦ if x == c then some ([], s) else none
]

-- `ParentPath` and `BaseName` of a path that is normalized.
unfoldable pub parent_of : Bytes → Bytes
unfolding split_last
parent_of path =
    if is_empty path
    then []
    else (elim (split_last b'/' path) [ none ↦ [] | some (before, _) ↦ before ])

unfoldable pub base_of : Bytes → Bytes
unfolding split_last
base_of path =
    if is_empty path
    then []
    else (elim (split_last b'/' path) [ none ↦ path | some (_, behind) ↦ behind ])

unfoldable pub parent_path : Bytes → Bytes
parent_path path = parent_of (normalize_path path)

unfoldable pub base_name : Bytes → Bytes
base_name path = base_of (normalize_path path)

-- strings.Join.
unfoldable pub join : Bytes → List Bytes → Bytes
join sep [] = []
join sep (p ∷ []) = p
join sep (p ∷ q ∷ ps) = p ++ (sep ++ join sep (q ∷ ps))

-- The parts of `JoinPath` that are not empty once they are normalized.
unfoldable pub non_empty : List Bytes → List Bytes
non_empty [] = []
non_empty (p ∷ ps) =
    let rest = non_empty ps in if is_empty (normalize_path p) then rest else normalize_path p ∷ rest

unfoldable pub join_path : List Bytes → Bytes
join_path parts = join (b'/' ∷ []) (non_empty parts)

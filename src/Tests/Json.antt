-- ===== src/Tests/Json.antt =====
-- A text for a map of strings that stands for its JSON: a brace, then each name and each value behind
-- its length.
use s3_2_smb.Base.{
  ℕ, zero, suc, Bytes, List, [], ◌∷◌, ◌++◌, codes, length, take, drop, Result, ok, err,
}

unfoldable pub print_map : List (Bytes × Bytes) → Bytes
print_map [] = []
print_map ((k, c) ∷ m) = length k ∷ (k ++ length c ∷ (c ++ print_map m))

unfoldable pub scan_map : ℕ → Bytes → Result (List (Bytes × Bytes))
scan_map zero s = err (codes "unexpected end")
scan_map (suc fuel) [] = ok []
scan_map (suc fuel) (n ∷ s) = elim (drop n s) [
  | [] ↦ err (codes "unexpected end")
  | k ∷ t ↦ elim (scan_map fuel (drop k t)) [ err x ↦ err x | ok m ↦ ok ((take n s, take k t) ∷ m) ]
]

abbrev pub marshal : List (Bytes × Bytes) → Result Bytes
unfolding print_map
marshal m = ok (b'{' ∷ print_map m)

abbrev pub unmarshal : Bytes → Result (List (Bytes × Bytes))
unfolding scan_map
unmarshal s = scan_map (length s) (drop 1 s)

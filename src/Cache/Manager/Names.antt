-- ===== src/Cache/Manager/Names.antt =====
-- The names of chunk files and the keys of chunks.
pub mod Laws
use s3_2_smb.Base.{
  ℕ, ◌+◌, ◌*◌, ◌-◌, Bytes, Bool, true, false, Option, none, some, List, [], ◌∷◌, ◌++◌, ◌==◌, ◌&&◌,
  ◌||◌, if◌then◌else◌, codes, word, sign, ltb, leb, ◌≡◌, ◌≢◌, arith, ap, sym, ◌∙◌,
}
use s3_2_smb.Base.Digits.{
  print_number, is_digit, print_number_inj, print_number-AllDigits, not_AllDigits, AllDigits,
}
use s3_2_smb.Disk.{cut_prefix}

-- fmt's %d of an int.
unfoldable pub print_int : ℕ → Bytes
unfolding print_number
print_int n = if ltb n sign then print_number 10 n else b'-' ∷ print_number 10 (word - n)

-- fmt.Sprintf(ChunkFilePattern, chunkID).
unfoldable pub chunk_file_name : ℕ → Bytes
unfolding print_int
chunk_file_name chunk_id = codes "chunk_" ++ print_int chunk_id

unfoldable pub chunk_key : Bytes → ℕ → Bytes
unfolding print_int
chunk_key path chunk_id = path ++ b':' ∷ print_int chunk_id

-- The blanks that Sscanf skips before a number.
unfoldable pub skip_blanks : Bytes → Bytes
skip_blanks [] = []
skip_blanks (c ∷ s) = if (c == 32) || (c == 9) then skip_blanks s else c ∷ s

-- The number that a text begins with, after `n`; what follows its digits is not read.
unfoldable pub scan_digits : ℕ → ℕ → Bytes → ℕ
scan_digits b n [] = n
scan_digits b n (c ∷ s) =
    let more = scan_digits b (n * b + (c - 48)) s in if is_digit b c then more else n

-- A number in base b below a bound, with at least one digit.
unfoldable pub scan_unsigned : ℕ → ℕ → Bytes → Option ℕ
unfolding scan_digits
scan_unsigned b bound [] = none
scan_unsigned b bound (c ∷ s) =
    let n = scan_digits b 0 (c ∷ s) in if is_digit b c && ltb n bound then some n else none

-- %d into an int: a sign, then digits.
unfoldable pub scan_int : Bytes → Option ℕ
unfolding scan_unsigned
scan_int [] = none
scan_int (c ∷ s) =
    if c == b'-'
    then (elim (scan_unsigned 10 (sign + 1) s) [
      | some n ↦ some (if n == 0 then 0 else word - n)
      | none ↦ none
    ])
    else if c == b'+'
    then scan_unsigned 10 sign s
    else scan_unsigned 10 sign (c ∷ s)

-- fmt.Sscanf(name, ChunkFilePattern, &chunkID).
unfoldable pub scan_chunk_name : Bytes → Option ℕ
unfolding cut_prefix scan_int skip_blanks
scan_chunk_name name = elim (cut_prefix (codes "chunk_") name) [
  | some rest ↦ scan_int (skip_blanks rest)
  | none ↦ none
]

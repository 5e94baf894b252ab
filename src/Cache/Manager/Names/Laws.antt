-- ===== src/Cache/Manager/Names/Laws.antt =====
-- Chunk files and keys are told apart by the chunk's number.
use s3_2_smb.Base.{append_cancel, ℕ, ◌<◌, ◌≡◌, ◌≢◌, sym, ◌∙◌, ◌++◌, arith, sign, codes}
use s3_2_smb.Base.Digits.{print_number, print_number_inj, print_number-AllDigits, not_AllDigits}
use s3_2_smb.Cache.Manager.Names.{print_int, chunk_file_name}

print_int_small : (n : ℕ) → n < sign → print_int n ≡ print_number 10 n
unfolding print_int
print_int_small n h = ground arith

pub chunk_file_name_inj :
    (m n : ℕ) → m < sign → n < sign → chunk_file_name m ≡ chunk_file_name n → m ≡ n
unfolding chunk_file_name
chunk_file_name_inj m n small small' h = print_number_inj 10 (omega arith) m n (
    sym (print_int_small m small)
    ∙ append_cancel (codes "chunk_") (print_int m) (print_int n) h
    ∙ print_int_small n small')

pub temp_name_ne :
    (m n : ℕ) → m < sign → n < sign → chunk_file_name m ++ codes ".tmp" ≢ chunk_file_name n
unfolding chunk_file_name
temp_name_ne m n small small' h =
    let same = append_cancel (codes "chunk_") (print_int m ++ codes ".tmp") (print_int n) h in
    not_AllDigits 10 b'.' (print_int m) (codes "tmp") (omega arith)
      (rw (same, print_int_small n small') (print_number-AllDigits 10 (omega arith) n))

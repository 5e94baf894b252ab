-- ===== src/Base/Word.antt =====
-- Go's int64 and uint64 as bit patterns below 2 ^ 64: a pattern p of an int64 stands for p, or for
-- p - 2 ^ 64 when it is 2 ^ 63 or more. Conversions between the two types keep the pattern.
use Prim.Native.Nat.{ℕ, ◌+◌, ◌-◌, ◌/◌, ◌%◌, ◌^◌}
use mathlib.Core.Bool.{Bool}
use s3_2_smb.Base.Tests.{ltb, if◌then◌else◌}

abbrev pub word : ℕ
word = 2 ^ 64

abbrev pub sign : ℕ
sign = 2 ^ 63

abbrev pub add64 : ℕ → ℕ → ℕ
add64 a b = (a + b) % word

abbrev pub sub64 : ℕ → ℕ → ℕ
sub64 a b = (a + word - b) % word

-- The signed order.
abbrev pub lt64 : ℕ → ℕ → Bool
lt64 a b = ltb ((a + sign) % word) ((b + sign) % word)

-- Division of an int64 by a positive constant, towards zero.
abbrev pub div64 : ℕ → ℕ → ℕ
div64 a d = if ltb a sign then a / d else (word - (word - a) / d) % word

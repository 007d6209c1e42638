-- ===== src/Common/Words.antt =====
-- Go's `uint64`: a value below 2^64, with wrap-around written out.
use Prim.Native.Nat.{ℕ, ◌+◌, ◌-◌, ◌%◌}

abbrev pub u64_mod : ℕ
u64_mod = 18446744073709551616

-- a + b and a - b on `uint64`
abbrev pub add64 : ℕ → ℕ → ℕ
add64 a b = (a + b) % u64_mod

abbrev pub sub64 : ℕ → ℕ → ℕ
sub64 a b = (a + u64_mod - b) % u64_mod

-- the largest `int64`, which bounds the length of a slice
abbrev pub max_int64 : ℕ
max_int64 = 9223372036854775807

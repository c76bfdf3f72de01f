-- ===== src/Base/Word.antt =====
-- Go's fixed-width integers as bit patterns: an `int64` (and an `int`, on the 64-bit platforms the
-- gateway runs on) is its pattern below 2 ^ 64, and its order is that of the shifted patterns.
use Prim.Native.Nat.{ℕ, ◌+◌, ◌%◌}
use mathlib.Core.Bool.{Bool}
use de_oss.Base.Tests.{ltb, leb}

abbrev pub two_32 : ℕ
two_32 = 4294967296

abbrev pub two_63 : ℕ
two_63 = 9223372036854775808

abbrev pub two_64 : ℕ
two_64 = 18446744073709551616

-- Signed `a < b` and `a <= b` on 64-bit patterns.
abbrev pub lt_i64 : ℕ → ℕ → Bool
lt_i64 a b = ltb ((a + two_63) % two_64) ((b + two_63) % two_64)

abbrev pub le_i64 : ℕ → ℕ → Bool
le_i64 a b = leb ((a + two_63) % two_64) ((b + two_63) % two_64)

-- 64-bit and 32-bit addition wrap around.
abbrev pub add_64 : ℕ → ℕ → ℕ
add_64 a b = (a + b) % two_64

abbrev pub add_32 : ℕ → ℕ → ℕ
add_32 a b = (a + b) % two_32

-- ===== src/Prelude/Int.antt =====
-- Signed integers over the native numbers, for the durations and flags that may be negative.
use Prim.Native.Nat.{ℕ, zero, suc, ◌-◌, ◌%◌}
use mathlib.Core.Bool.{Bool, true, false}
use xdauth.Prelude.Tests.{ltb, if◌then◌else◌}

-- `negsuc n` is -(n + 1).
pub data ℤ : Type 0 where
  pos : ℕ → ℤ
  negsuc : ℕ → ℤ

abbrev pub pos_part : ℤ → ℕ
pos_part (pos n) = n
pos_part (negsuc n) = 0

-- `n <= 0`
abbrev pub is_nonpos : ℤ → Bool
is_nonpos (pos zero) = true
is_nonpos (pos (suc n)) = false
is_nonpos (negsuc n) = true

abbrev pub two_63 : ℕ
two_63 = 9223372036854775808

abbrev pub two_64 : ℕ
two_64 = 18446744073709551616

-- A number below 2^64 as an `int64`, in two's complement.
abbrev pub as_int64 : ℕ → ℤ
as_int64 m = if ltb m two_63 then pos m else negsuc (two_64 - 1 - m)

-- The `int64` that Go's arithmetic gives for this result.
abbrev pub wrap_int64 : ℤ → ℤ
wrap_int64 (pos n) = as_int64 (n % two_64)
wrap_int64 (negsuc n) = as_int64 (two_64 - 1 - n % two_64)

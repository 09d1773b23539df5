-- ===== src/Prelude/Int32.antt =====
-- Go's conversion `int32(x)`, which keeps the low 32 bits, and what an `int` of the database holds.
use Prim.Native.Nat.{ℕ, ◌-◌, ◌%◌}
use mathlib.Core.Bool.{Bool, not, ◌&&◌}
use expense_splitter.Prelude.Tests.{ltb, if◌then◌else◌}
use expense_splitter.Prelude.Int.{ℤ, pos, negsuc, ltb_ℤ}

-- The integer that a pattern of 32 bits stands for.
abbrev of_bits : ℕ → ℤ
of_bits m = if ltb m 2147483648 then pos m else negsuc (4294967296 - m - 1)

unfoldable pub int32 : ℤ → ℤ
int32 (pos n) = of_bits (n % 4294967296)
int32 (negsuc n) = of_bits (4294967296 - 1 - n % 4294967296)

-- From -2 ^ 31 to 2 ^ 31 - 1.
abbrev pub is_int4 : ℤ → Bool
is_int4 n = ltb_ℤ n (pos 2147483648) && not (ltb_ℤ n (negsuc 2147483647))

-- ===== src/Prelude/Int64.antt =====
-- Go's `int64`: two's complement arithmetic on integers that wraps around at 64 bits.
use Prim.Native.Nat.{ℕ, ◌+◌, ◌-◌, ◌*◌, ◌/◌, ◌%◌, ◌≤◌, ◌<◌}
use mathlib.Core.Path.{◌≡◌}
use native.Mathlib.Nat.{div-le_self}
use native.Mathlib.Omega.{arith}
use expense_splitter.Prelude.Tests.{ltb, if◌then◌else◌}
use expense_splitter.Prelude.Int.{ℤ, pos, negsuc, pos_part, neg_part, ◌+ℤ◌, ◌-ℤ◌, ◌*ℤ◌, quot}

-- 2 ^ 64 bit patterns; those below 2 ^ 63 stand for themselves.
abbrev pub two_63 : ℕ
two_63 = 9223372036854775808

abbrev pub two_64 : ℕ
two_64 = 18446744073709551616

-- The integer that a bit pattern stands for.
abbrev of_bits : ℕ → ℤ
of_bits m = if ltb m two_63 then pos m else negsuc (two_64 - m - 1)

-- The value in range that is equal modulo 2 ^ 64.
unfoldable pub wrap64 : ℤ → ℤ
wrap64 (pos n) = of_bits (n % two_64)
wrap64 (negsuc n) = of_bits (two_64 - 1 - n % two_64)

unfoldable pub add64 : ℤ → ℤ → ℤ
add64 a b = wrap64 (a +ℤ b)

unfoldable pub sub64 : ℤ → ℤ → ℤ
sub64 a b = wrap64 (a -ℤ b)

unfoldable pub mul64 : ℤ → ℤ → ℤ
mul64 a b = wrap64 (a *ℤ b)

unfoldable pub neg64 : ℤ → ℤ
neg64 a = wrap64 (pos 0 -ℤ a)

unfoldable pub quot64 : ℤ → ℤ → ℤ
quot64 a b = wrap64 (quot a b)

-- An `int64` holds the integers from -2 ^ 63 to 2 ^ 63 - 1.
abbrev pub InRange : ℤ → Type 0
InRange a = (pos_part a < two_63) × (neg_part a ≤ two_63)

pub wrap64-InRange : (a : ℤ) → InRange (wrap64 a)
unfolding wrap64
wrap64-InRange (pos n) = ground arith
wrap64-InRange (negsuc n) = ground arith

pub wrap64_self : (a : ℤ) → InRange a → wrap64 a ≡ a
unfolding wrap64
wrap64_self (pos n) h = ground arith
wrap64_self (negsuc n) h = ground arith

pub add64_exact : (a b : ℤ) → InRange (a +ℤ b) → add64 a b ≡ a +ℤ b
unfolding add64
add64_exact a b h = wrap64_self (a +ℤ b) h

pub sub64_exact : (a b : ℤ) → InRange (a -ℤ b) → sub64 a b ≡ a -ℤ b
unfolding sub64
sub64_exact a b h = wrap64_self (a -ℤ b) h

-- On amounts that are not negative and fit, the operations are those of the natural numbers.
pub add64-pos : (a b : ℕ) → a + b < two_63 → add64 (pos a) (pos b) ≡ pos (a + b)
unfolding add64 wrap64 ◌+ℤ◌
add64-pos a b h = ground arith

pub sub64-pos : (a b : ℕ) → b ≤ a → a < two_63 → sub64 (pos a) (pos b) ≡ pos (a - b)
unfolding sub64 wrap64 ◌-ℤ◌
sub64-pos a b h k = ground arith

pub mul64-pos : (a b : ℕ) → a * b < two_63 → mul64 (pos a) (pos b) ≡ pos (a * b)
unfolding mul64 wrap64 ◌*ℤ◌
mul64-pos a b h = ground arith

pub quot64-pos : (a b : ℕ) → a < two_63 → quot64 (pos a) (pos b) ≡ pos (a / b)
unfolding quot64 wrap64 quot
quot64-pos a b h = ground (arith, div-le_self a b)

-- Wrapping a part of a sum first changes nothing.
pub wrap64_left : (a b : ℤ) → wrap64 (wrap64 a +ℤ b) ≡ wrap64 (a +ℤ b)
unfolding wrap64 ◌+ℤ◌
wrap64_left (pos a) (pos b) = ground arith
wrap64_left (pos a) (negsuc b) = ground arith
wrap64_left (negsuc a) (pos b) = ground arith
wrap64_left (negsuc a) (negsuc b) = ground arith

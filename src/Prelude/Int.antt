-- ===== src/Prelude/Int.antt =====
-- Integers over the native numbers, and the two's complement of an i64.
use kavach_npu.Prelude.Tests.{ltb, leb, if◌then◌else◌}
use Prim.Native.Nat.{ℕ, ◌+◌, ◌-◌, ◌%◌, ◌^◌, ◌<◌}
use mathlib.Core.Path.{◌≡◌}
use mathlib.Core.Bool.{Bool, true, false}
use native.Mathlib.Omega.{arith}

pub data ℤ : Type 0 where
  pos negsuc : ℕ → ℤ

-- The difference of two naturals.
abbrev pub difference : ℕ → ℕ → ℤ
difference m n = if leb n m then pos (m - n) else negsuc (n - m - 1)

-- The 64 bits of an integer.
unfoldable pub to_bits : ℤ → ℕ
to_bits (pos n) = n % 2 ^ 64
to_bits (negsuc n) = 2 ^ 64 - 1 - n % 2 ^ 64

-- The i64 of 64 bits.
unfoldable pub of_bits : ℕ → ℤ
of_bits n = if ltb n (2 ^ 63) then pos n else negsuc (2 ^ 64 - 1 - n)

-- `x as i64`
abbrev pub as_i64 : ℤ → ℤ
as_i64 x = of_bits (to_bits x)

-- `a - b` in i64, wrapping.
abbrev pub sub_i64 : ℤ → ℤ → ℤ
sub_i64 a b = of_bits ((to_bits a + (2 ^ 64 - to_bits b)) % 2 ^ 64)

unfoldable pub unsigned_abs : ℤ → ℕ
unsigned_abs (pos n) = n
unsigned_abs (negsuc n) = n + 1

unfoldable pub le_int : ℤ → ℤ → Bool
le_int (pos m) (pos n) = leb m n
le_int (pos m) (negsuc n) = false
le_int (negsuc m) (pos n) = true
le_int (negsuc m) (negsuc n) = leb n m

-- Casting bits to an i64 and back gives the bits.
pub to_bits-of_bits : (n : ℕ) → n < 2 ^ 64 → to_bits (of_bits n) ≡ n
unfolding of_bits to_bits
to_bits-of_bits n h = ground arith

pub to_bits_lt : (x : ℤ) → to_bits x < 2 ^ 64
unfolding to_bits
to_bits_lt (pos n) = omega arith
to_bits_lt (negsuc n) = omega arith

-- Modulo 2^64, adding the difference of two words to the second one gives the first.
pub add-difference :
    (m n : ℕ) → m < 2 ^ 64 → n < 2 ^ 64 → (n + to_bits (difference m n)) % 2 ^ 64 ≡ m
unfolding to_bits
add-difference m n hm hn = ground arith

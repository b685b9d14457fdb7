-- ===== src/Base/Int32.antt =====
-- Signed integers, and Go's `int32` with its wrap-around.
use Prim.Native.Nat.{ℕ, suc, ◌+◌, ◌-◌, ◌*◌, ◌%◌, ◌^◌, ◌≤◌}
use mathlib.Core.Path.{◌≡◌}
use mathlib.Core.Logic.{◌↔◌}
use mathlib.Core.Bool.{Bool, true, false}
use native.Mathlib.Omega.{arith}
use spot_instance_training_o.Base.Tests.{ltb, leb, ◌==◌, if◌then◌else◌}

-- `negsuc n` is -(n + 1).
pub data ℤ : Type 0 where
  pos : ℕ → ℤ
  negsuc : ℕ → ℤ

abbrev pub pos_part : ℤ → ℕ
pos_part (pos n) = n
pos_part (negsuc n) = 0

abbrev pub neg_part : ℤ → ℕ
neg_part (pos n) = 0
neg_part (negsuc n) = suc n

abbrev pub eq_ℤ : ℤ → ℤ → Bool
eq_ℤ (pos a) (pos b) = a == b
eq_ℤ (negsuc a) (negsuc b) = a == b
eq_ℤ (pos a) (negsuc b) = false
eq_ℤ (negsuc a) (pos b) = false

-- `a < b` on signed integers.
abbrev pub ltb_ℤ : ℤ → ℤ → Bool
ltb_ℤ a b = ltb (pos_part a + neg_part b) (pos_part b + neg_part a)

abbrev pub u32_mod : ℕ
u32_mod = 2 ^ 32

abbrev pub i32_max : ℕ
i32_max = 2 ^ 31 - 1

-- The `int32` whose bit pattern is the number.
abbrev pub of_bits : ℕ → ℤ
of_bits r = if leb r i32_max then pos r else negsuc (u32_mod - r - 1)

-- The `int32` that is p - n modulo 2 ^ 32.
abbrev pub wrap32 : ℕ → ℕ → ℤ
wrap32 p n = of_bits ((p + (u32_mod - n % u32_mod)) % u32_mod)

-- `int32(n)` of a number that is not negative.
unfoldable pub to_int32 : ℕ → ℤ
to_int32 n = wrap32 n 0

unfoldable pub add32 : ℤ → ℤ → ℤ
add32 a b = wrap32 (pos_part a + pos_part b) (neg_part a + neg_part b)

unfoldable pub sub32 : ℤ → ℤ → ℤ
sub32 a b = wrap32 (pos_part a + neg_part b) (neg_part a + pos_part b)

-- `a * 2`
unfoldable pub double32 : ℤ → ℤ
double32 a = wrap32 (2 * pos_part a) (2 * neg_part a)

pub to_int32_exact : (n : ℕ) → n ≤ i32_max → to_int32 n ≡ pos n
unfolding to_int32
to_int32_exact n h = ground arith

pub eq_ℤ_iff : (a b : ℤ) → (eq_ℤ a b ≡ true) ↔ (a ≡ b)
eq_ℤ_iff (pos a) (pos b) = ground arith
eq_ℤ_iff (negsuc a) (negsuc b) = ground arith
eq_ℤ_iff (pos a) (negsuc b) = ground arith
eq_ℤ_iff (negsuc a) (pos b) = ground arith

-- Below the largest `int32` an increment is exact.
pub add32_exact : (m n : ℕ) → m + n ≤ i32_max → add32 (pos m) (pos n) ≡ pos (m + n)
unfolding add32
add32_exact m n h = ground arith

-- A difference of two numbers that an `int32` holds is exact where it is not negative.
pub sub32_exact : (m n : ℕ) → n ≤ m → m ≤ i32_max → sub32 (pos m) (pos n) ≡ pos (m - n)
unfolding sub32
sub32_exact m n h k = ground arith

pub double32_exact : (m : ℕ) → 2 * m ≤ i32_max → double32 (pos m) ≡ pos (2 * m)
unfolding double32
double32_exact m h = ground arith

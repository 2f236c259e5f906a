-- ===== src/Base/Int.antt =====
-- Go's `int`, `int64` and `time.Duration`: integers over the native numbers, in two's complement
-- at 64 bits. A value is a signed integer; arithmetic that can leave the range goes through bits.
use Prim.Native.Nat.{ℕ, ◌+◌, ◌-◌, ◌*◌, ◌%◌, ◌^◌, ◌<◌}
use mathlib.Core.Path.{◌≡◌}
use mathlib.Core.Bool.{Bool, true, false}
use native.Mathlib.Omega.{arith}
use nelm_operator.Base.Tests.{ltb, ◌==◌, if◌then◌else◌}

-- `negsuc n` is -(n + 1).
pub data ℤ : Type 0 where
  pos : ℕ → ℤ
  negsuc : ℕ → ℤ

abbrev pub int64_modulus : ℕ
int64_modulus = 2 ^ 64

abbrev pub int64_limit : ℕ
int64_limit = 2 ^ 63

-- The 64-bit pattern of an integer, and the integer that a pattern stands for.
unfoldable pub to_bits : ℤ → ℕ
to_bits (pos n) = n % int64_modulus
to_bits (negsuc n) = int64_modulus - 1 - n % int64_modulus

unfoldable pub of_bits : ℕ → ℤ
of_bits b = if ltb b int64_limit then pos b else negsuc (int64_modulus - 1 - b)

-- `x++` and `x * y` on int64, with their wrap-around.
unfoldable pub increment : ℤ → ℤ
unfolding to_bits of_bits
increment a = of_bits ((to_bits a + 1) % int64_modulus)

unfoldable pub multiply : ℤ → ℤ → ℤ
unfolding to_bits of_bits
multiply a b = of_bits ((to_bits a * to_bits b) % int64_modulus)

-- `1 << n` on int64, for a count that is not negative.
unfoldable pub shift_one : ℕ → ℤ
unfolding of_bits
shift_one n = of_bits (2 ^ n % int64_modulus)

unfoldable pub ltb_ℤ : ℤ → ℤ → Bool
ltb_ℤ (pos a) (pos b) = ltb a b
ltb_ℤ (pos a) (negsuc b) = false
ltb_ℤ (negsuc a) (pos b) = true
ltb_ℤ (negsuc a) (negsuc b) = ltb b a

unfoldable pub eq_ℤ : ℤ → ℤ → Bool
eq_ℤ (pos a) (pos b) = a == b
eq_ℤ (negsuc a) (negsuc b) = a == b
eq_ℤ _ _ = false

-- Go's builtin `min` on integers.
unfoldable pub min_ℤ : ℤ → ℤ → ℤ
unfolding ltb_ℤ
min_ℤ a b = if ltb_ℤ b a then b else a

pub eq_ℤ→eq : (a b : ℤ) → eq_ℤ a b ≡ true → a ≡ b
unfolding eq_ℤ
eq_ℤ→eq (pos a) (pos b) h = ground arith
eq_ℤ→eq (negsuc a) (negsuc b) h = ground arith
eq_ℤ→eq (pos a) (negsuc b) h = ground arith
eq_ℤ→eq (negsuc a) (pos b) h = ground arith

pub eq_ℤ_refl : (a : ℤ) → eq_ℤ a a ≡ true
unfolding eq_ℤ
eq_ℤ_refl (pos a) = ground arith
eq_ℤ_refl (negsuc a) = ground arith

-- Below the limit a count that goes up by one does not wrap.
pub increment-pos : (n : ℕ) → n + 1 < int64_limit → increment (pos n) ≡ pos (n + 1)
unfolding increment
increment-pos n h = ground arith

-- ===== src/Prelude/Int.antt =====
-- Signed integers over the native numbers, and 64-bit words in two's complement.
use Prim.Native.Nat.{ℕ, zero, suc, ◌+◌, ◌-◌, ◌*◌, ◌/◌, ◌%◌}
use mathlib.Core.Bool.{Bool, ◌&&◌}
use snuk.Prelude.Tests.{ltb, leb, ◌==◌, if◌then◌else◌}

-- `negsuc n` is -(n + 1).
pub data ℤ : Type 0 where
  pos : ℕ → ℤ
  negsuc : ℕ → ℤ

abbrev pub pos_part : ℤ → ℕ
pos_part (pos n) = n
pos_part (negsuc n) = 0

abbrev pub neg_part : ℤ → ℕ
neg_part (pos n) = 0
neg_part (negsuc n) = suc n

-- a - b, as an integer
abbrev pub sub_ℕ : ℕ → ℕ → ℤ
sub_ℕ a b = if leb b a then pos (a - b) else negsuc (b - a - 1)

abbrev pub neg_ℤ : ℤ → ℤ
neg_ℤ a = sub_ℕ (neg_part a) (pos_part a)

abbrev pub add_ℤ : ℤ → ℤ → ℤ
add_ℤ a b = sub_ℕ (pos_part a + pos_part b) (neg_part a + neg_part b)

abbrev pub mul_ℤ : ℤ → ℤ → ℤ
mul_ℤ a b =
    sub_ℕ (pos_part a * pos_part b + neg_part a * neg_part b)
      (pos_part a * neg_part b + neg_part a * pos_part b)

-- Division rounds towards zero, and the remainder has the sign of the dividend.
abbrev pub div_ℤ : ℤ → ℤ → ℤ
div_ℤ a b =
    sub_ℕ (pos_part a / pos_part b + neg_part a / neg_part b)
      (pos_part a / neg_part b + neg_part a / pos_part b)

abbrev pub rem_ℤ : ℤ → ℤ → ℤ
rem_ℤ a b = sub_ℕ (pos_part a % (pos_part b + neg_part b)) (neg_part a % (pos_part b + neg_part b))

abbrev pub ltb_ℤ : ℤ → ℤ → Bool
ltb_ℤ a b = ltb (pos_part a + neg_part b) (pos_part b + neg_part a)

abbrev pub eqb_ℤ : ℤ → ℤ → Bool
eqb_ℤ a b = pos_part a == pos_part b && neg_part a == neg_part b

-- -2 ^ 63 ≤ a < 2 ^ 63
abbrev pub in_int64 : ℤ → Bool
in_int64 a = ltb (pos_part a) 9223372036854775808 && leb (neg_part a) 9223372036854775808

abbrev pub to_word : ℤ → ℕ
to_word (pos n) = n
to_word (negsuc n) = 18446744073709551615 - n

abbrev pub of_word : ℕ → ℤ
of_word n = if ltb n 9223372036854775808 then pos n else negsuc (18446744073709551615 - n)

-- A bitwise operation on the lowest `n` bits.
abbrev pub bitwise : ℕ → (ℕ → ℕ → ℕ) → ℕ → ℕ → ℕ
bitwise zero f a b = 0
bitwise (suc n) f a b = f (a % 2) (b % 2) + 2 * bitwise n f (a / 2) (b / 2)

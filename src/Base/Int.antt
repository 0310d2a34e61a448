-- ===== src/Base/Int.antt =====
-- Signed machine integers: the integer that an `i16` or `i32` stands for, with what the code does at
-- their bounds.
use Prim.Native.Nat.{ℕ, ◌+◌, ◌-◌, ◌*◌, ◌%◌, ◌^◌}
use mathlib.Core.Bool.{Bool, true, false}
use avash.Base.Tests.{ltb, leb, if◌then◌else◌}

-- `negsuc n` is -(n + 1).
pub data ℤ : Type 0 where
  pos : ℕ → ℤ
  negsuc : ℕ → ℤ

abbrev pub pos_part : ℤ → ℕ
pos_part (pos n) = n
pos_part (negsuc n) = 0

abbrev pub neg_part : ℤ → ℕ
neg_part (pos n) = 0
neg_part (negsuc n) = n + 1

-- a - b, as an integer.
abbrev pub sub_ℕ : ℕ → ℕ → ℤ
sub_ℕ a b = if leb b a then pos (a - b) else negsuc (b - a - 1)

infixl 65 ◌+ℤ◌
unfoldable pub ◌+ℤ◌ : ℤ → ℤ → ℤ
a +ℤ b = sub_ℕ (pos_part a + pos_part b) (neg_part a + neg_part b)

abbrev pub neg : ℤ → ℤ
neg a = sub_ℕ (neg_part a) (pos_part a)

abbrev pub is_negative : ℤ → Bool
is_negative (pos n) = false
is_negative (negsuc n) = true

abbrev pub is_zero : ℤ → Bool
is_zero (pos n) = leb n 0
is_zero (negsuc n) = false

-- `signum`
abbrev pub signum : ℤ → ℤ
signum (pos n) = if leb n 0 then pos 0 else pos 1
signum (negsuc n) = negsuc 0

-- The 32 bits of an integer, and the integer that they stand for.
unfoldable pub bits32 : ℤ → ℕ
bits32 (pos n) = n % 2 ^ 32
bits32 (negsuc n) = 2 ^ 32 - 1 - n % 2 ^ 32

unfoldable pub of_bits32 : ℕ → ℤ
of_bits32 m = if ltb m (2 ^ 31) then pos m else negsuc (2 ^ 32 - 1 - m)

-- `<<` on an `i32`: what leaves the 32 bits is lost.
unfoldable pub shl32 : ℤ → ℕ → ℤ
unfolding bits32 of_bits32
shl32 v d = of_bits32 (bits32 v * 2 ^ d % 2 ^ 32)

-- `+` on two `i32`, which wraps in a release build.
unfoldable pub add32 : ℤ → ℤ → ℤ
unfolding bits32 of_bits32 ◌+ℤ◌
add32 a b = of_bits32 (bits32 (a +ℤ b))

abbrev pub is_i16 : ℤ → Bool
is_i16 (pos n) = leb n 32767
is_i16 (negsuc n) = leb n 32767

-- `i16::saturating_add`
unfoldable pub sat_add16 : ℤ → ℤ → ℤ
unfolding ◌+ℤ◌
sat_add16 a b =
    if is_i16 (a +ℤ b) then a +ℤ b else if is_negative (a +ℤ b) then negsuc 32767 else pos 32767

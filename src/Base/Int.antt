-- ===== src/Base/Int.antt =====
-- Signed integers over the native numbers, and the 64-bit `int` and `time.Duration` of Go:
-- subtraction that wraps, the remainder of `%`, comparison.
use straggler.Base.{ℕ, suc, ◌+◌, ◌-◌, ◌%◌, ◌≤◌, ◌<◌, ◌≡◌, Bool, arith, ltb, leb, eqb, if◌then◌else◌}

-- `negsuc n` is -(n + 1).
pub data ℤ : Type 0 where
  pos : ℕ → ℤ
  negsuc : ℕ → ℤ

abbrev pub pos_part : ℤ → ℕ
pos_part (pos n) = n
pos_part (negsuc n) = 0

abbrev pub neg_part : ℤ → ℕ
neg_part (pos n) = 0
neg_part (negsuc n) = suc n

-- a - b, as an integer.
abbrev pub sub_ℕ : ℕ → ℕ → ℤ
sub_ℕ a b = if leb b a then pos (a - b) else negsuc (b - a - 1)

infixl 65 ◌-ℤ◌
infix 50 ◌≤ℤ◌ ◌<ℤ◌
unfoldable pub ◌-ℤ◌ : ℤ → ℤ → ℤ
a -ℤ b = sub_ℕ (pos_part a + neg_part b) (neg_part a + pos_part b)

abbrev pub ◌≤ℤ◌ : ℤ → ℤ → Type 0
a ≤ℤ b = pos_part a + neg_part b ≤ pos_part b + neg_part a

abbrev pub ◌<ℤ◌ : ℤ → ℤ → Type 0
a <ℤ b = pos_part a + neg_part b < pos_part b + neg_part a

abbrev pub leb_ℤ : ℤ → ℤ → Bool
leb_ℤ a b = leb (pos_part a + neg_part b) (pos_part b + neg_part a)

abbrev pub ltb_ℤ : ℤ → ℤ → Bool
ltb_ℤ a b = ltb (pos_part a + neg_part b) (pos_part b + neg_part a)

abbrev pub eqb_ℤ : ℤ → ℤ → Bool
eqb_ℤ a b = eqb (pos_part a + neg_part b) (pos_part b + neg_part a)

-- The values of `int` and of `time.Duration`.
abbrev pub IsInt64 : ℤ → Type 0
IsInt64 a = (pos_part a < 0x8000_0000_0000_0000) × (neg_part a ≤ 0x8000_0000_0000_0000)

abbrev from_bits : ℕ → ℤ
from_bits r =
    if ltb r 0x8000_0000_0000_0000 then pos r else negsuc (0x1_0000_0000_0000_0000 - 1 - r)

-- The two's complement of the low 64 bits.
unfoldable pub wrap64 : ℤ → ℤ
wrap64 (pos n) = from_bits (n % 0x1_0000_0000_0000_0000)
wrap64 (negsuc n) = from_bits (0x1_0000_0000_0000_0000 - 1 - n % 0x1_0000_0000_0000_0000)

-- `a - b` on `int`.
unfoldable pub sub64 : ℤ → ℤ → ℤ
unfolding wrap64 ◌-ℤ◌
sub64 a b = wrap64 (a -ℤ b)

-- `a % b` on `int`, for a divisor other than 0: the sign is that of the dividend.
unfoldable pub rem64 : ℤ → ℤ → ℤ
unfolding ◌-ℤ◌
rem64 (pos n) b = pos (n % (pos_part b + neg_part b))
rem64 (negsuc n) b = pos 0 -ℤ pos (suc n % (pos_part b + neg_part b))

wrap64_of_IsInt64 : (a : ℤ) → IsInt64 a → wrap64 a ≡ a
unfolding wrap64
wrap64_of_IsInt64 (pos n) h = ground arith
wrap64_of_IsInt64 (negsuc n) h = ground arith

wrap64-IsInt64 : (a : ℤ) → IsInt64 (wrap64 a)
unfolding wrap64
wrap64-IsInt64 (pos n) = ground arith
wrap64-IsInt64 (negsuc n) = ground arith

pub sub64-IsInt64 : (a b : ℤ) → IsInt64 (sub64 a b)
unfolding sub64
sub64-IsInt64 a b = wrap64-IsInt64 (a -ℤ b)

pub -ℤ_parts :
    (a b : ℤ)
    → pos_part (a -ℤ b) + neg_part a + pos_part b ≡ neg_part (a -ℤ b) + pos_part a + neg_part b
unfolding ◌-ℤ◌
-ℤ_parts a b = ground arith

-- Where the difference fits in 64 bits, the subtraction is exact.
pub sub64_exact : (a b : ℤ) → IsInt64 (a -ℤ b) → sub64 a b ≡ a -ℤ b
unfolding sub64
sub64_exact a b h = wrap64_of_IsInt64 (a -ℤ b) h

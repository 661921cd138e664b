-- ===== src/Base/Int.antt =====
-- Signed integers over the native numbers, and the 16-bit samples among them.
-- Sums and orders go through the two parts of an integer, which are numbers that `omega` reads.
use rtp_audio_streamer.Base.{
  ℕ, suc, ◌+◌, ◌-◌, ◌/◌, ◌%◌, ◌^◌, ◌≤◌, ◌<◌, ◌≡◌, Bool, arith, ltb, leb, if◌then◌else◌, ◌==◌, ◌&&◌,
}

-- `negsuc n` is -(n + 1).
pub data ℤ : Type 0 where
  pos : ℕ → ℤ
  negsuc : ℕ → ℤ

abbrev pub pos_part : ℤ → ℕ
pos_part (pos n) = n
pos_part (negsuc n) = 0

abbrev pub neg_part : ℤ → ℕ
neg_part (pos n) = 0
neg_part (negsuc n) = suc n

-- a - b, as an integer.
abbrev pub sub_ℕ : ℕ → ℕ → ℤ
sub_ℕ a b = if leb b a then pos (a - b) else negsuc (b - a - 1)

infixl 65 ◌+ℤ◌ ◌-ℤ◌
infix 50 ◌≤ℤ◌ ◌<ℤ◌
abbrev pub ◌+ℤ◌ : ℤ → ℤ → ℤ
a +ℤ b = sub_ℕ (pos_part a + pos_part b) (neg_part a + neg_part b)

abbrev pub ◌-ℤ◌ : ℤ → ℤ → ℤ
a -ℤ b = sub_ℕ (pos_part a + neg_part b) (neg_part a + pos_part b)

abbrev pub neg : ℤ → ℤ
neg a = sub_ℕ (neg_part a) (pos_part a)

abbrev pub ◌≤ℤ◌ : ℤ → ℤ → Type 0
a ≤ℤ b = pos_part a + neg_part b ≤ pos_part b + neg_part a

abbrev pub ◌<ℤ◌ : ℤ → ℤ → Type 0
a <ℤ b = pos_part a + neg_part b < pos_part b + neg_part a

abbrev pub ltb_ℤ : ℤ → ℤ → Bool
ltb_ℤ a b = ltb (pos_part a + neg_part b) (pos_part b + neg_part a)

abbrev pub eqb_ℤ : ℤ → ℤ → Bool
eqb_ℤ a b = pos_part a == pos_part b && neg_part a == neg_part b

-- Division that cuts off towards zero.
abbrev pub divide : ℤ → ℕ → ℤ
divide a n = sub_ℕ (pos_part a / n) (neg_part a / n)

-- |a - b|
abbrev pub distance : ℤ → ℤ → ℕ
distance a b =
    pos_part a
    + neg_part b
    - (pos_part b + neg_part a)
    + (pos_part b + neg_part a - (pos_part a + neg_part b))

-- The values of an `int16_t`.
abbrev pub IsI16 : ℤ → Type 0
IsI16 a = (pos_part a < 2 ^ 15) × (neg_part a ≤ 2 ^ 15)

-- `static_cast<int16_t>` of an unsigned value, and `static_cast<uint16_t>` of a signed one.
abbrev pub i16 : ℕ → ℤ
i16 n = if ltb (n % 2 ^ 16) (2 ^ 15) then pos (n % 2 ^ 16) else negsuc (2 ^ 16 - n % 2 ^ 16 - 1)

abbrev pub u16_of : ℤ → ℕ
u16_of (pos n) = n % 2 ^ 16
u16_of (negsuc n) = 2 ^ 16 - 1 - n % 2 ^ 16

abbrev pub i32 : ℕ → ℤ
i32 n = if ltb (n % 2 ^ 32) (2 ^ 31) then pos (n % 2 ^ 32) else negsuc (2 ^ 32 - n % 2 ^ 32 - 1)

-- The product of two `int64_t` values, and `static_cast<uint32_t>` of one.
abbrev pub i64 : ℕ → ℤ
i64 n = if ltb (n % 2 ^ 64) (2 ^ 63) then pos (n % 2 ^ 64) else negsuc (2 ^ 64 - n % 2 ^ 64 - 1)

abbrev pub u32_of : ℤ → ℕ
u32_of (pos n) = n % 2 ^ 32
u32_of (negsuc n) = 2 ^ 32 - 1 - n % 2 ^ 32

abbrev pub max_ℤ : ℤ → ℤ → ℤ
max_ℤ a b = if ltb_ℤ a b then b else a

pub i16-u16_of : (a : ℤ) → IsI16 a → i16 (u16_of a) ≡ a
i16-u16_of (pos n) h = ground arith
i16-u16_of (negsuc n) h = ground arith

pub u16_of-i16 : (n : ℕ) → n < 2 ^ 16 → u16_of (i16 n) ≡ n
u16_of-i16 n h = ground arith

pub u16_of-lt : (a : ℤ) → u16_of a < 2 ^ 16
u16_of-lt (pos n) = omega arith
u16_of-lt (negsuc n) = omega arith

pub i16-IsI16 : (n : ℕ) → IsI16 (i16 n)
i16-IsI16 n = ground arith

pub eq_of_parts : (a b : ℤ) → pos_part a + neg_part b ≡ pos_part b + neg_part a → a ≡ b
eq_of_parts a b h = ground arith

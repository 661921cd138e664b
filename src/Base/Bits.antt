-- ===== src/Base/Bits.antt =====
-- Facts about `bit_and` and `bit_or` at variables: masks and disjoint fields as arithmetic.
use Prim.Native.Nat.{digits, bit_and-bitwise, bit_or-bitwise}
use native.Mathlib.Nat.{pow-suc, one-le-pow}
use rtp_audio_streamer.Base.{
  ℕ, zero, suc, ◌+◌, ◌-◌, ◌*◌, ◌/◌, ◌%◌, ◌^◌, ◌≤◌, ◌<◌, min, max, bit_and, bit_or, bit_xor, ◌≡◌,
  refl, ap, sym, ◌∙◌, arith, Bool, true, false, ◌==◌, if◌then◌else◌,
}

-- Two functions that agree at every value below a bound, checked by evaluation.
module _ (f g : ℕ → ℕ) where
  unfoldable pub agree_below : ℕ → Bool
  agree_below zero = true
  agree_below (suc n) = if f n == g n then agree_below n else false

  pub agree_below→eq : (n : ℕ) → agree_below n ≡ true → (i : ℕ) → i < n → f i ≡ g i
  unfolding agree_below
  agree_below→eq zero e i h = absurd (omega arith)
  agree_below→eq (suc n) e i h = ground (arith, agree_below→eq n (ground arith) i)

-- A claim on all numbers that goes from half of a number to the number.
halving : (P : ℕ → Type 0) → P 0 → ((a : ℕ) → P (suc a / 2) → P (suc a)) → (a : ℕ) → P a
halving P base step a = below a a (omega arith)
  where
    below : (bound a : ℕ) → a ≤ bound → P a
    below bound zero h = base
    below zero (suc a) h = absurd (omega arith)
    below (suc bound) (suc a) h = step a (below bound (suc a / 2) (omega arith))

-- The digit recursion behind the native operations gives the same for any fuel that is enough.
module _ (z : ℕ → ℕ) (f : ℕ → ℕ → ℕ) where
  digits-zero : (fuel y : ℕ) → digits z f fuel 0 y ≡ z y
  digits-zero zero y = refl
  digits-zero (suc fuel) y = refl

  digits_enough :
      (x y fuel more : ℕ) → x ≤ fuel → x ≤ more → digits z f fuel x y ≡ digits z f more x y
  digits_enough zero y fuel more h k = digits-zero fuel y ∙ sym (digits-zero more y)
  digits_enough (suc x) y zero more h k = absurd (omega arith)
  digits_enough (suc x) y (suc fuel) zero h k = absurd (omega arith)
  digits_enough (suc x) y (suc fuel) (suc more) h k =
      let half = digits_enough (suc x / 2) (y / 2) fuel more (omega arith) (omega arith) in
      ap (λ d. d * 2 + f (suc x % 2) (y % 2)) half

pub bit_and_step : (x y : ℕ) → bit_and x y ≡ min (x % 2) (y % 2) + 2 * bit_and (x / 2) (y / 2)
bit_and_step zero y = omega (arith, bit_and-bitwise 0 y, bit_and-bitwise 0 (y / 2))
bit_and_step (suc x) y =
    let half =
      digits_enough (λ d. 0) min (suc x / 2) (y / 2) x (suc x / 2) (omega arith) (omega arith) in
    omega (arith, half, bit_and-bitwise (suc x) y, bit_and-bitwise (suc x / 2) (y / 2))

pub bit_or_step : (x y : ℕ) → bit_or x y ≡ max (x % 2) (y % 2) + 2 * bit_or (x / 2) (y / 2)
bit_or_step zero y = omega (arith, bit_or-bitwise 0 y, bit_or-bitwise 0 (y / 2))
bit_or_step (suc x) y =
    let half =
      digits_enough (λ d. d) max (suc x / 2) (y / 2) x (suc x / 2) (omega arith) (omega arith) in
    omega (arith, half, bit_or-bitwise (suc x) y, bit_or-bitwise (suc x / 2) (y / 2))

pub bit_and-zero : (a : ℕ) → bit_and a 0 ≡ 0
bit_and-zero =
    halving (λ a. bit_and a 0 ≡ 0) refl (λ a half. omega (arith, half, bit_and_step (suc a) 0))

pub bit_or-zero : (a : ℕ) → bit_or a 0 ≡ a
bit_or-zero =
    halving (λ a. bit_or a 0 ≡ a) refl (λ a half. omega (arith, half, bit_or_step (suc a) 0))

twice_high : (high width : ℕ) → high * 2 ^ suc width ≡ 2 * (high * 2 ^ width)
twice_high high width = omega (arith, ap (λ (t : ℕ). high * t) (pow-suc 2 width))

-- A word is a high part above `width` bits and a low part in them, by recursion on `width`.
bit_and_parts :
    (width high low : ℕ) → low < 2 ^ width → bit_and (high * 2 ^ width + low) (2 ^ width - 1) ≡ low
bit_and_parts zero high low small = ground (arith, bit_and-zero (high * 1 + low))
bit_and_parts (suc width) high low small =
    let rest = bit_and_parts width high (low / 2) (omega arith) in
    ground (
      arith,
      rest,
      pow-suc 2 width,
      twice_high high width,
      bit_and_step (high * 2 ^ suc width + low) (2 ^ suc width - 1),
    )

pub bit_and_mask : (width word : ℕ) → bit_and word (2 ^ width - 1) ≡ word % 2 ^ width
bit_and_mask width word =
    let low = bit_and_parts width (word / 2 ^ width) (word % 2 ^ width) in
    ground (arith, low, one-le-pow width 2)

pub bit_or_fields :
    (width high low : ℕ) → low < 2 ^ width → bit_or (high * 2 ^ width) low ≡ high * 2 ^ width + low
bit_or_fields zero high low small = ground (arith, bit_or-zero high)
bit_or_fields (suc width) high low small =
    let rest = bit_or_fields width high (low / 2) (omega arith) in
    ground
      (arith, rest, pow-suc 2 width, twice_high high width, bit_or_step (high * 2 ^ suc width) low)

-- A single bit.
bit_and-one : (a : ℕ) → bit_and a 1 ≡ a % 2
bit_and-one a = omega (arith, bit_and_step a 1, bit_and-zero (a / 2))

pub bit_and_bit : (k q r : ℕ) → r < 2 ^ k → bit_and (q * 2 ^ k + r) (2 ^ k) ≡ q % 2 * 2 ^ k
bit_and_bit zero q r fits = ground (arith, bit_and-one (q * 1 + r))
bit_and_bit (suc k) q r fits = ground (
  arith,
  bit_and_step (q * 2 ^ suc k + r) (2 ^ suc k),
  twice_high q k,
  twice_high (q % 2) k,
  pow-suc 2 k,
  bit_and_bit k q (r / 2) (omega arith),
)

pub top_bit : (b : ℕ) → b < 256 → bit_and b 0x80 ≡ b / 128 * 128
unfolding agree_below
top_bit = agree_below→eq _ _ 256 refl

-- `~b` of a byte.
pub complement_byte : (b : ℕ) → b < 256 → bit_xor b 0xff ≡ 255 - b
unfolding agree_below
complement_byte = agree_below→eq _ _ 256 refl

bit_or_comm-below : (n a b : ℕ) → a ≤ n → b ≤ n → bit_or a b ≡ bit_or b a
bit_or_comm-below zero a b p q =
    let e : a ≡ 0 = omega arith in let f : b ≡ 0 = omega arith in rw (e, f)
bit_or_comm-below (suc n) a b p q = omega (
  arith,
  bit_or_step a b,
  bit_or_step b a,
  bit_or_comm-below n (a / 2) (b / 2) (omega arith) (omega arith),
)

pub bit_or_comm : (a b : ℕ) → bit_or a b ≡ bit_or b a
bit_or_comm a b = bit_or_comm-below (a + b) a b (omega arith) (omega arith)

-- ===== src/Codec/Ulaw/Segment.antt =====
-- The loop finds the segment: the magnitude lies between two powers of two.
use native.Mathlib.Nat.{pow-suc}
use rtp_audio_streamer.Base.{
  ℕ, suc, ◌+◌, ◌^◌, ◌≤◌, ◌<◌, ◌≡◌, arith, bit_and, ltb, ◌-◌, if◌then◌else◌,
}
use rtp_audio_streamer.Base.Bits.{bit_and_bit}
use rtp_audio_streamer.Codec.Ulaw.{find_exponent}

-- Below twice the mask, the bit tells whether the magnitude reaches the mask.
bit_test : (k m : ℕ) → m < 2 ^ suc k → bit_and m (2 ^ k) ≡ (if ltb m (2 ^ k) then 0 else 2 ^ k)
bit_test k m h = ground (arith, pow-suc 2 k, bit_and_bit k 0 m, bit_and_bit k 1 (m - 2 ^ k))

pub find_exponent_bounds :
    (m : ℕ)
    → 128 ≤ m
    → m < 2 ^ 15
    → let e = find_exponent m 0x4000 7 in (e < 8) × (2 ^ (e + 7) ≤ m) × (m < 2 ^ (e + 8))
unfolding find_exponent
find_exponent_bounds m lo hi = ground (
  arith,
  bit_test 14 m,
  bit_test 13 m,
  bit_test 12 m,
  bit_test 11 m,
  bit_test 10 m,
  bit_test 9 m,
  bit_test 8 m,
)

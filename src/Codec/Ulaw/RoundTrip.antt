-- ===== src/Codec/Ulaw/RoundTrip.antt =====
-- A sample sent through the codec and back, and a code decoded and encoded again.
use native.Mathlib.Decide.{dec_le}
use rtp_audio_streamer.Base.{
  ℕ, zero, suc, ◌+◌, ◌*◌, ◌/◌, ◌%◌, ◌^◌, ◌≤◌, ◌<◌, ◌≡◌, refl, arith, min, ◌==◌, if◌then◌else◌, List,
  [], ◌∷◌, All, length, get_or,
}
use rtp_audio_streamer.Base.Bits.{agree_below, agree_below→eq}
use rtp_audio_streamer.Base.Int.{ℤ, pos, negsuc, pos_part, neg_part, neg, distance, IsI16}
use rtp_audio_streamer.Codec.Ulaw.{
  ulaw_clip, find_exponent, linear_to_ulaw, ulaw_to_linear, ulaw_encode_frame, ulaw_decode_frame,
}
use rtp_audio_streamer.Codec.Ulaw.Loop.{ulaw_encode_frame-Filled, ulaw_decode_frame-Filled}
use rtp_audio_streamer.Codec.Ulaw.Segment.{find_exponent_bounds}
use rtp_audio_streamer.Codec.Ulaw.Laws.{
  level, decode_code_of, code_of_lem, level_error, encode_pos, encode_negsuc,
}

-- The value of a magnitude after a round trip, and its error.
abbrev shown : ℕ → ℕ
shown n =
    let m = min n ulaw_clip + 132 in
    level (find_exponent m 0x4000 7) (m / 2 ^ (find_exponent m 0x4000 7 + 3) % 16)

decode_pos : (n : ℕ) → ulaw_to_linear (linear_to_ulaw (pos n)) ≡ pos (shown n)
decode_pos n =
    rw (encode_pos n)
      (decode_code_of (min n ulaw_clip + 132) (omega arith) (omega arith) 0 (omega arith))

decode_negsuc : (n : ℕ) → ulaw_to_linear (linear_to_ulaw (negsuc n)) ≡ neg (pos (shown (suc n)))
decode_negsuc n =
    rw (encode_negsuc n)
      (decode_code_of (min (suc n) ulaw_clip + 132) (omega arith) (omega arith) 1 (omega arith))

shown_clipped : (n : ℕ) → ulaw_clip ≤ n → shown n ≡ 32124
unfolding find_exponent
shown_clipped n h = let top : min n ulaw_clip ≡ 32635 = omega arith in rw top

shown_error :
    (n : ℕ) → n ≤ 2 ^ 15 → (32 * n ≤ 32 * shown n + n + 132) × (32 * shown n ≤ 32 * n + n + 132)
shown_error n h = elim (dec_le ulaw_clip n) [
  | yes clipped ↦ omega (arith, shown_clipped n clipped)
  | no below ↦
      let m = min n ulaw_clip + 132 in
      let b = find_exponent_bounds m (omega arith) (omega arith) in
      omega (arith, level_error (find_exponent m 0x4000 7) m b.0 b.1 b.2)
]

-- Through the codec and back, a sample moves by at most a 32nd of its biased magnitude, the clipped
-- extremes included.
pub ulaw_error :
    (x : ℤ)
    → IsI16 x
    → 32 * distance (ulaw_to_linear (linear_to_ulaw x)) x ≤ pos_part x + neg_part x + 132
ulaw_error (pos n) h = rw (decode_pos n) (omega (arith, shown_error n))
ulaw_error (negsuc n) h = rw (decode_negsuc n) (ground (arith, shown_error (suc n)))

neg_pos : (n : ℕ) → neg (pos (suc n)) ≡ negsuc n
neg_pos n = ground arith

neg_negsuc : (n : ℕ) → neg (negsuc n) ≡ pos (suc n)
neg_negsuc n = ground arith

neg-neg : (n : ℕ) → neg (neg (pos n)) ≡ pos n
neg-neg n = ground arith

-- Sending the negative of a sample gives the negative of what sending the sample gives.
pub ulaw_odd :
    (x : ℤ) → ulaw_to_linear (linear_to_ulaw (neg x)) ≡ neg (ulaw_to_linear (linear_to_ulaw x))
unfolding find_exponent
ulaw_odd (pos zero) = rw (decode_pos 0)
ulaw_odd (pos (suc n)) = rw (neg_pos n, decode_negsuc n, decode_pos (suc n))
ulaw_odd (negsuc n) =
    rw (neg_negsuc n, decode_pos (suc n), decode_negsuc n, neg-neg (shown (suc n)))

-- Every code is the code of the value that it stands for, but for the code of a negative zero, in
-- whose place there is that of zero.
pub ulaw_codes :
    (c : ℕ) → c < 256 → linear_to_ulaw (ulaw_to_linear c) ≡ (if c == 0x7f then 0xff else c)
unfolding agree_below linear_to_ulaw ulaw_to_linear find_exponent
ulaw_codes = agree_below→eq _ _ 256 refl

pub linear_to_ulaw-lt : (x : ℤ) → linear_to_ulaw x < 256
linear_to_ulaw-lt (pos n) =
    rw
      (
        encode_pos n,
        code_of_lem (min n ulaw_clip + 132) (omega arith) (omega arith) 0 (omega arith),
      )
      (omega arith)
linear_to_ulaw-lt (negsuc n) =
    rw
      (
        encode_negsuc n,
        code_of_lem (min (suc n) ulaw_clip + 132) (omega arith) (omega arith) 1 (omega arith),
      )
      (omega arith)

All-get_or : (xs : List ℤ) (j : ℕ) → All IsI16 xs → IsI16 (get_or xs j (pos 0))
All-get_or [] j h = (omega arith, omega arith)
All-get_or (x ∷ xs) zero h = h.0
All-get_or (x ∷ xs) (suc j) h = All-get_or xs j h.1

-- The encoder's loop over `num_samples` samples, and the decoder's over the codes that it wrote, both
-- to arrays that have room: each sample of the result is within the error above of the one at the same
-- index; no entry of either array from `num_samples` on is changed, and the arrays keep their length.
pub ulaw_frame_error :
    (pcm : List ℤ) (num_samples : ℕ) (codes : List ℕ) (out : List ℤ)
    → All IsI16 pcm
    → num_samples ≤ length pcm
    → num_samples ≤ length codes
    → num_samples ≤ length out
    → let encoded = ulaw_encode_frame pcm num_samples codes in
      let decoded = ulaw_decode_frame encoded num_samples out in
      ((j : ℕ)
        → j < num_samples
        → 32 * distance (get_or decoded j (pos 0)) (get_or pcm j (pos 0))
          ≤ pos_part (get_or pcm j (pos 0)) + neg_part (get_or pcm j (pos 0)) + 132)
      × ((j : ℕ) → num_samples ≤ j → get_or encoded j 0 ≡ get_or codes j 0)
      × ((j : ℕ) → num_samples ≤ j → get_or decoded j (pos 0) ≡ get_or out j (pos 0))
      × (length encoded ≡ length codes)
      × (length decoded ≡ length out)
ulaw_frame_error pcm n codes out h inside room room' =
    let e = ulaw_encode_frame-Filled pcm n codes room in
    let d = ulaw_decode_frame-Filled (ulaw_encode_frame pcm n codes) n out room' in
    (
      λ j below.
          let value = d.written j (omega arith) (omega (arith, below)) in
          let code = e.written j (omega arith) (omega (arith, below)) in
          rw (value, code) (ulaw_error (get_or pcm j (pos 0)) (All-get_or pcm j h)),
      λ j from. e.after j (omega (arith, from)),
      λ j from. d.after j (omega (arith, from)),
      e.size,
      d.size,
    )

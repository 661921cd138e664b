-- ===== src/Codec/Adpcm/Quantise.antt =====
-- One sample: the decoder follows the encoder, and how far the prediction is from the sample.
use native.Mathlib.Nat.{le_trans}
use rtp_audio_streamer.Base.{
  ℕ, ◌+◌, ◌-◌, ◌/◌, ◌≤◌, ◌<◌, ◌≡◌, arith, bit_and, leb, ◌==◌, if◌then◌else◌, max,
}
use rtp_audio_streamer.Base.Int.{
  ℤ, pos, negsuc, pos_part, neg_part, neg, IsI16, ◌-ℤ◌, ◌+ℤ◌, distance,
}
use rtp_audio_streamer.Codec.Adpcm.{
  AdpcmState, step_at, take_bit, quantise, dequantise, clamp_predictor, advance, encode_sample,
  decode_sample,
}
use rtp_audio_streamer.Codec.Adpcm.State.{IsState, advance-IsState}

-- The decoder rebuilds from the code the difference that the encoder has taken off.
pub quantise-dequantise :
    (step : ℕ) (diff : ℤ)
    → (dequantise step (quantise step diff).code ≡ (quantise step diff).diffq)
      × ((quantise step diff).code < 16)
unfolding quantise take_bit dequantise
quantise-dequantise step (pos n) = ground arith
quantise-dequantise step (negsuc n) = ground arith

-- The code of a sample takes the decoder from the state of the encoder before it to the encoder's
-- state after it, and the sample that is heard is the prediction that both then hold.
pub decode-encode :
    (sample : ℤ) (s : AdpcmState)
    → let (code, s') = encode_sample sample s in
      (decode_sample code s ≡ (s'.predictor, s')) × (code < 16) × IsState s'
unfolding encode_sample decode_sample
decode-encode sample s =
    let q = quantise (step_at s.step_index) (sample -ℤ s.predictor) in
    let h = quantise-dequantise (step_at s.step_index) (sample -ℤ s.predictor) in
    (rw (h.0), h.1, advance-IsState q.code q.diffq s)

-- What the three tests leave of the difference: an eighth of the step, or what lies beyond a step.
quantise_error :
    (step : ℕ) (diff : ℤ)
    → let d = pos_part diff + neg_part diff in
      let q = (quantise step diff).diffq in
      let left = max (step / 8 + 2) (d - step) in (d ≤ q + left) × (q ≤ d + left)
unfolding quantise take_bit
quantise_error step (pos n) = ground arith
quantise_error step (negsuc n) = ground arith

-- The sign bit of the code is that of the difference.
quantise_sign :
    (step : ℕ) (diff : ℤ) → (bit_and (quantise step diff).code 0x08 == 0) ≡ leb (neg_part diff) 0
unfolding quantise take_bit
quantise_sign step (pos n) = ground arith
quantise_sign step (negsuc n) = ground arith

advance_predictor :
    (step : ℕ) (diff : ℤ) (s : AdpcmState)
    → let q = quantise step diff in
      (advance q.code q.diffq s).predictor
      ≡ clamp_predictor
          (s.predictor +ℤ (if leb (neg_part diff) 0 then pos q.diffq else neg (pos q.diffq)))
unfolding advance
advance_predictor step diff s = rw (quantise_sign step diff)

-- Clamping into the range of samples does not move a value away from a sample.
clamp_closer : (v x : ℤ) → IsI16 x → distance (clamp_predictor v) x ≤ distance v x
unfolding clamp_predictor
clamp_closer v x h = ground arith

apply_error :
    (x p : ℤ) (q left : ℕ)
    → let diff = x -ℤ p in
      pos_part diff + neg_part diff ≤ q + left
      → q ≤ pos_part diff + neg_part diff + left
      → distance (p +ℤ (if leb (neg_part diff) 0 then pos q else neg (pos q))) x ≤ left
apply_error x p q left a b = ground arith

distance-parts : (x p : ℤ) → pos_part (x -ℤ p) + neg_part (x -ℤ p) ≡ distance p x
distance-parts x p = ground arith

-- After each sample the prediction is within an eighth of the step size (and two) of the sample, or
-- at least one step size closer to it than before.
pub encode_sample_error :
    (x : ℤ) (s : AdpcmState)
    → IsI16 x
    → let step = step_at s.step_index in
      distance (encode_sample x s).1.predictor x
      ≤ max (step / 8 + 2) (distance s.predictor x - step)
unfolding encode_sample
encode_sample_error x s h =
    let step = step_at s.step_index in
    let diff = x -ℤ s.predictor in
    let q = (quantise step diff).diffq in
    let left = max (step / 8 + 2) (pos_part diff + neg_part diff - step) in
    let e = quantise_error step diff in
    rw (advance_predictor step diff s, ← distance-parts x s.predictor)
      (le_trans (clamp_closer _ x h) (apply_error x s.predictor q left e.0 e.1))

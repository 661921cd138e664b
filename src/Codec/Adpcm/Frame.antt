-- ===== src/Codec/Adpcm/Frame.antt =====
-- A frame: the decoder that starts from the encoder's state ends in the encoder's state.
use rtp_audio_streamer.Base.{
  ℕ, ◌+◌, ◌*◌, ◌/◌, ◌<◌, ◌≡◌, refl, arith, List, [], ◌∷◌, All, bit_and, bit_or, u8, ◌<<<◌, ◌>>>◌,
  length,
}
use rtp_audio_streamer.Base.Bits.{bit_and_mask, bit_or_fields, bit_or_comm, bit_or-zero}
use rtp_audio_streamer.Base.Int.{ℤ}
use rtp_audio_streamer.Host.{IsByte}
use rtp_audio_streamer.Codec.Adpcm.{
  AdpcmState, encode_sample, adpcm_encode_frame, adpcm_decode_frame,
}
use rtp_audio_streamer.Codec.Adpcm.Quantise.{decode-encode}

-- What the encoder predicts for each sample, as it goes through the frame.
unfoldable pub predictions : List ℤ → AdpcmState → List ℤ
predictions [] s = []
predictions (x ∷ xs) s = let s' = (encode_sample x s).1 in s'.predictor ∷ predictions xs s'

-- The state of the encoder after a frame.
unfoldable pub final_state : List ℤ → AdpcmState → AdpcmState
final_state [] s = s
final_state (x ∷ xs) s = final_state xs (encode_sample x s).1

halves :
    (low high : ℕ)
    → low < 16
    → high < 16
    → let byte = u8 (bit_or low (high <<< 4)) in
      (bit_and byte 0x0f ≡ low) × (bit_and (byte >>> 4) 0x0f ≡ high) × IsByte byte
halves low high p q = ground (
  arith,
  bit_or_comm low (high * 16),
  bit_or_fields 4 high low p,
  bit_and_mask 4 (high * 16 + low),
  bit_and_mask 4 high,
)

halves_low :
    (low : ℕ)
    → low < 16
    → let byte = u8 (bit_or low (0 <<< 4)) in (bit_and byte 0x0f ≡ low) × IsByte byte
halves_low low p = ground (arith, bit_or-zero low, bit_and_mask 4 low)

-- The decoder that starts in the encoder's state gives, for every sample of the frame, what the
-- encoder predicts, and ends in the state in which the encoder ends; the codes are bytes, half as
-- many as there are samples, rounded up.
pub adpcm_decode-encode_frame :
    (pcm : List ℤ) (s : AdpcmState)
    → let (packed, s') = adpcm_encode_frame pcm s in
      (adpcm_decode_frame packed (length pcm) s ≡ (predictions pcm s, final_state pcm s))
      × (s' ≡ final_state pcm s)
      × All IsByte packed
      × (length packed ≡ (length pcm + 1) / 2)
unfolding adpcm_encode_frame adpcm_decode_frame predictions final_state
adpcm_decode-encode_frame [] s = (refl, refl, tt, omega arith)
adpcm_decode-encode_frame (x ∷ []) s =
    let c = decode-encode x s in
    let h = halves_low (encode_sample x s).0 c.1 in (rw (h.0, c.0), refl, (h.1, tt), omega arith)
adpcm_decode-encode_frame (x ∷ y ∷ pcm) s =
    let s1 = (encode_sample x s).1 in
    let c = decode-encode x s in
    let d = decode-encode y s1 in
    let h = halves (encode_sample x s).0 (encode_sample y s1).0 c.1 d.1 in
    let r = adpcm_decode-encode_frame pcm (encode_sample y s1).1 in
    (rw (h.0, h.1, c.0, d.0, r.0), r.1, (h.2, r.2), omega (arith, r.3))

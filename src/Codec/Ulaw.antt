-- ===== src/Codec/Ulaw.antt =====
-- src/codec_ulaw.cpp: G.711 mu-law, each sample by itself.
pub mod Segment
pub mod Laws
pub mod Loop
pub mod RoundTrip
mod Tests
use Prim.Native.Nat.{bit_xor}
use rtp_audio_streamer.Base.{
  ℕ, zero, suc, ◌+◌, ◌-◌, ◌*◌, Bool, true, false, List, length, get_or, set, replicate, bit_and,
  bit_or, u8, ◌<<<◌, ◌>>>◌, ltb, ◌==◌, if◌then◌else◌,
}
use rtp_audio_streamer.Base.Int.{ℤ, pos, pos_part, neg_part, sub_ℕ, neg, ltb_ℤ}

abbrev pub ulaw_bias : ℕ
ulaw_bias = 132

abbrev pub ulaw_clip : ℕ
ulaw_clip = 32635

-- The loop that looks for the highest set bit: `exponent` falls from 7 while `mask` moves right.
unfoldable pub find_exponent : ℕ → ℕ → ℕ → ℕ
find_exponent magnitude mask zero = zero
find_exponent magnitude mask (suc exponent) =
    if bit_and magnitude mask == 0
    then find_exponent magnitude (mask >>> 1) exponent
    else suc exponent

unfoldable pub linear_to_ulaw : ℤ → ℕ
linear_to_ulaw sample =
    let negative = ltb_ℤ sample (pos 0) in
    let sign = if negative then 0x80 else 0 in
    let magnitude = if negative then neg_part sample else pos_part sample in
    let magnitude = if ltb ulaw_clip magnitude then ulaw_clip else magnitude in
    let magnitude = magnitude + ulaw_bias in
    let exponent = find_exponent magnitude 0x4000 7 in
    let mantissa = u8 (bit_and (magnitude >>> (exponent + 3)) 0x0f) in
    let ulaw = u8 (bit_or (bit_or sign (exponent <<< 4)) mantissa) in bit_xor ulaw 0xff

unfoldable pub ulaw_to_linear : ℕ → ℤ
ulaw_to_linear code =
    let code = bit_xor code 0xff in
    let sign = bit_and code 0x80 in
    let exponent = bit_and (code >>> 4) 0x07 in
    let mantissa = bit_and code 0x0f in
    let magnitude = ((mantissa <<< 3) + ulaw_bias) <<< exponent in
    let magnitude = magnitude - ulaw_bias in
    if sign == 0 then pos magnitude else neg (pos magnitude)

-- The loop of the encoder from index `i` on, with `left` passes to come.
unfoldable pub encode_from : List ℤ → ℕ → ℕ → List ℕ → List ℕ
encode_from pcm i zero out = out
encode_from pcm i (suc left) out =
    encode_from pcm (i + 1) left (set out i (linear_to_ulaw (get_or pcm i (pos 0))))

-- The array `out` as the call leaves it.
abbrev pub ulaw_encode_frame : List ℤ → ℕ → List ℕ → List ℕ
ulaw_encode_frame pcm num_samples out = encode_from pcm 0 num_samples out

-- The loop of the decoder, likewise.
unfoldable pub decode_from : List ℕ → ℕ → ℕ → List ℤ → List ℤ
decode_from codes i zero out = out
decode_from codes i (suc left) out =
    decode_from codes (i + 1) left (set out i (ulaw_to_linear (get_or codes i 0)))

abbrev pub ulaw_decode_frame : List ℕ → ℕ → List ℤ → List ℤ
ulaw_decode_frame codes num_samples out = decode_from codes 0 num_samples out

-- What the calls write for a whole list, to an array of its length.
unfoldable pub ulaw_encoded : List ℤ → List ℕ
ulaw_encoded pcm = ulaw_encode_frame pcm (length pcm) (replicate (length pcm) 0)

unfoldable pub ulaw_decoded : List ℕ → List ℤ
ulaw_decoded codes = ulaw_decode_frame codes (length codes) (replicate (length codes) (pos 0))

-- ===== src/Sender/Payload.antt =====
-- What each codec puts into a payload: its size, its bytes, and what `decode_slot` makes of it.
use rtp_audio_streamer.Base.{
  All-append, ℕ, ◌+◌, ◌-◌, ◌*◌, ◌/◌, ◌%◌, ◌≤◌, ◌≡◌, refl, ap, arith, true, List, [], ◌∷◌, ◌++◌,
  length, drop, min, All, map, leb, take_all,
}
use mathlib.Core.List.{append-nil}
use rtp_audio_streamer.Base.Int.{ℤ, IsI16, u16_of, u16_of-lt, i16-u16_of}
use rtp_audio_streamer.AudioFormat.{frame_samples}
use rtp_audio_streamer.Host.{Host, IsByte}
use rtp_audio_streamer.Codec.Ulaw.Loop.{ulaw_encoded-map, length-ulaw_encoded}
use rtp_audio_streamer.Codec.Ulaw.{ulaw_encoded, ulaw_decoded, linear_to_ulaw}
use rtp_audio_streamer.Codec.Ulaw.RoundTrip.{linear_to_ulaw-lt}
use rtp_audio_streamer.Codec.Adpcm.{AdpcmState, pack_adpcm_state, adpcm_encode_frame, encode_sample}
use rtp_audio_streamer.Codec.Adpcm.State.{IsState, advance-IsState, pack-IsByte, unpack-pack}
use rtp_audio_streamer.Codec.Adpcm.Frame.{predictions, final_state, adpcm_decode-encode_frame}
use rtp_audio_streamer.Jitter.{Slot}
use rtp_audio_streamer.Jitter.Decode.{decode_slot, pad_frame, pcm_samples}
use rtp_audio_streamer.Sender.{
  CodecName, pcm, ulaw, adpcm, payload_type_of, pcm_bytes, encode_payload,
}

length-pcm_bytes : (host : Host) (xs : List ℤ) → length (pcm_bytes host xs) ≡ 2 * length xs
unfolding pcm_bytes
length-pcm_bytes host [] = refl
length-pcm_bytes host (x ∷ xs) = omega (arith, length-pcm_bytes host xs)

pcm_bytes-IsByte : (host : Host) (xs : List ℤ) → All IsByte (pcm_bytes host xs)
unfolding pcm_bytes
pcm_bytes-IsByte host [] = tt
pcm_bytes-IsByte host (x ∷ xs) =
    let b = host.bytes_16-IsByte (u16_of x) (u16_of-lt x) in (b.0, (b.1, pcm_bytes-IsByte host xs))

ulaw-IsByte : (xs : List ℤ) → All IsByte (map linear_to_ulaw xs)
ulaw-IsByte [] = tt
ulaw-IsByte (x ∷ xs) = (linear_to_ulaw-lt x, ulaw-IsByte xs)

final_state-IsState : (xs : List ℤ) (s : AdpcmState) → IsState s → IsState (final_state xs s)
unfolding final_state encode_sample
final_state-IsState [] s v = v
final_state-IsState (x ∷ xs) s v =
    final_state-IsState xs (encode_sample x s).1 (advance-IsState _ _ s)

-- The state of the encoder after some samples; only ADPCM has one.
abbrev pub codec_state : CodecName → List ℤ → AdpcmState → AdpcmState
codec_state pcm xs s = s
codec_state ulaw xs s = s
codec_state adpcm xs s = final_state xs s

pub codec_state-IsState :
    (c : CodecName) (xs : List ℤ) (s : AdpcmState) → IsState s → IsState (codec_state c xs s)
codec_state-IsState pcm xs s v = v
codec_state-IsState ulaw xs s v = v
codec_state-IsState adpcm xs s v = final_state-IsState xs s v

module _ (host : Host) where
  pub encode_payload-state :
      (c : CodecName) (xs : List ℤ) (s : AdpcmState)
      → (encode_payload host c xs s).1 ≡ codec_state c xs s
  unfolding encode_payload
  encode_payload-state pcm xs s = refl
  encode_payload-state ulaw xs s = refl
  encode_payload-state adpcm xs s = (adpcm_decode-encode_frame xs s).1

  pub encode_payload-IsByte :
      (c : CodecName) (xs : List ℤ) (s : AdpcmState)
      → IsState s
      → All IsByte (encode_payload host c xs s).0
  unfolding encode_payload
  encode_payload-IsByte pcm xs s v = pcm_bytes-IsByte host xs
  encode_payload-IsByte ulaw xs s v = rw (ulaw_encoded-map xs) (ulaw-IsByte xs)
  encode_payload-IsByte adpcm xs s v =
      All-append IsByte (pack_adpcm_state s) (adpcm_encode_frame xs s).0 (pack-IsByte s v)
        (adpcm_decode-encode_frame xs s).2

  pub encode_payload-length :
      (c : CodecName) (xs : List ℤ) (s : AdpcmState)
      → length (encode_payload host c xs s).0 ≤ 2 * length xs + 4
  unfolding encode_payload pack_adpcm_state
  encode_payload-length pcm xs s = omega (arith, length-pcm_bytes host xs)
  encode_payload-length ulaw xs s = omega (arith, length-ulaw_encoded xs)
  encode_payload-length adpcm xs s = omega (arith, (adpcm_decode-encode_frame xs s).3)

  -- What a receiver with the same byte order hears of a frame.
  abbrev pub reproduced : CodecName → List ℤ → AdpcmState → List ℤ
  reproduced pcm xs s = xs
  reproduced ulaw xs s = ulaw_decoded (ulaw_encoded xs)
  reproduced adpcm xs s = predictions xs s

  pcm_samples-pcm_bytes :
      (xs : List ℤ) (rest : List ℕ)
      → All IsI16 xs
      → pcm_samples host (length xs) (pcm_bytes host xs ++ rest) ≡ xs
  unfolding pcm_samples pcm_bytes
  pcm_samples-pcm_bytes [] rest h = refl
  pcm_samples-pcm_bytes (x ∷ xs) rest h = rw (
    host.value_16-bytes_16 (u16_of x) (u16_of-lt x),
    i16-u16_of x h.0,
    pcm_samples-pcm_bytes xs rest h.1,
  )

  -- An odd number of ADPCM samples leaves half a byte, which is decoded as one sample more.
  abbrev pub IsWhole : CodecName → List ℤ → Type 0
  IsWhole adpcm xs = length xs % 2 ≡ 0
  IsWhole pcm xs = Unit
  IsWhole ulaw xs = Unit

  pad_same : (xs ys : List ℤ) → xs ≡ ys → pad_frame xs ≡ pad_frame ys
  pad_same xs ys e = ap pad_frame e

  decode_pcm :
      (xs : List ℤ) (slot : Slot)
      → All IsI16 xs
      → length xs ≤ frame_samples
      → slot.payload_type ≡ 97
      → slot.payload ≡ pcm_bytes host xs
      → decode_slot host slot ≡ pad_frame xs
  unfolding decode_slot
  decode_pcm xs slot h small k e =
      let n : min (length (pcm_bytes host xs) / 2) frame_samples ≡ length xs =
        omega (arith, length-pcm_bytes host xs) in
      rw (k, e, n, ← append-nil (pcm_bytes host xs)) (pad_same _ _ (pcm_samples-pcm_bytes xs [] h))

  decode_ulaw :
      (xs : List ℤ) (slot : Slot)
      → length xs ≤ frame_samples
      → slot.payload_type ≡ 0
      → slot.payload ≡ ulaw_encoded xs
      → decode_slot host slot ≡ pad_frame (ulaw_decoded (ulaw_encoded xs))
  unfolding decode_slot
  decode_ulaw xs slot small k e =
      let size = length-ulaw_encoded xs in
      let n : min (length (ulaw_encoded xs)) frame_samples ≡ length (ulaw_encoded xs) =
        omega (arith, size) in
      rw (k, e, n) (ap (λ c. pad_frame (ulaw_decoded c)) (take_all _ _ (omega arith)))

  decode_adpcm :
      (xs : List ℤ) (s : AdpcmState) (slot : Slot)
      → IsState s
      → length xs ≤ frame_samples
      → length xs % 2 ≡ 0
      → slot.payload_type ≡ 96
      → slot.payload ≡ pack_adpcm_state s ++ (adpcm_encode_frame xs s).0
      → decode_slot host slot ≡ pad_frame (predictions xs s)
  unfolding decode_slot
  decode_adpcm xs s slot v small even k e =
      let codes = (adpcm_encode_frame xs s).0 in
      let back = adpcm_decode-encode_frame xs s in
      let size : length (pack_adpcm_state s ++ codes) ≡ 4 + length codes =
        unfold pack_adpcm_state in omega arith in
      let n : min ((length (pack_adpcm_state s ++ codes) - 4) * 2) frame_samples ≡ length xs =
        omega (arith, size, back.3) in
      let long : leb 4 (length (pack_adpcm_state s ++ codes)) ≡ true = ground (arith, size) in
      let body : drop 4 (pack_adpcm_state s ++ codes) ≡ codes = unfold pack_adpcm_state in refl in
      rw (k, e, long, n, body, unpack-pack s codes v) (pad_same _ _ (ap (λ p. p.0) back.0))

  -- The decoder of the jitter buffer, given the payload that the sender makes of a frame of at most
  -- 160 samples, gives that frame, filled up with silence: the very samples in PCM, the samples of
  -- the mu-law codes, and the encoder's own predictions in ADPCM, if the samples are even in number.
  pub decode_slot-encode_payload :
      (c : CodecName) (xs : List ℤ) (s : AdpcmState) (slot : Slot)
      → All IsI16 xs
      → IsState s
      → length xs ≤ frame_samples
      → IsWhole c xs
      → slot.payload_type ≡ payload_type_of c
      → slot.payload ≡ (encode_payload host c xs s).0
      → decode_slot host slot ≡ pad_frame (reproduced c xs s)
  unfolding payload_type_of encode_payload
  decode_slot-encode_payload pcm xs s slot h v small w k e = decode_pcm xs slot h small k e
  decode_slot-encode_payload ulaw xs s slot h v small w k e = decode_ulaw xs slot small k e
  decode_slot-encode_payload adpcm xs s slot h v small w k e = decode_adpcm xs s slot v small w k e

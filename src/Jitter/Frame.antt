-- ===== src/Jitter/Frame.antt =====
-- Every frame that the jitter buffer gives out is a whole frame of 16-bit samples.
use mathlib.Core.Path.{subst}
use rtp_audio_streamer.Base.{
  All-append, ℕ, zero, suc, ◌+◌, ◌-◌, ◌*◌, ◌/◌, ◌^◌, ◌≤◌, ◌≡◌, refl, ap, ◌∙◌, arith, Bool-cases,
  ◌&&◌, inl, inr, some, List, [], ◌∷◌, map, bit_and, bit_xor, min, leb, ◌==◌, length, take, drop,
  replicate, All, length-append, length-replicate, length-map, length-take,
}
use rtp_audio_streamer.Base.Bits.{bit_and_mask}
use rtp_audio_streamer.Base.Int.{ℤ, pos, neg, IsI16, i16-IsI16}
use rtp_audio_streamer.AudioFormat.{frame_samples}
use rtp_audio_streamer.Host.{Host}
use rtp_audio_streamer.Packet.{payload_type_pcm, payload_type_pcmu, payload_type_adpcm}
use rtp_audio_streamer.Codec.Ulaw.Loop.{ulaw_decoded-map}
use rtp_audio_streamer.Codec.Ulaw.{ulaw_bias, ulaw_to_linear, ulaw_decoded}
use rtp_audio_streamer.Codec.Adpcm.{
  AdpcmState, decode_sample, unpack_adpcm_state, adpcm_decode_frame,
}
use rtp_audio_streamer.Codec.Adpcm.State.{advance-IsState}
use rtp_audio_streamer.Jitter.{Arithmetic, JitterBuffer, Slot}
use rtp_audio_streamer.Jitter.Push.{Arrival, begin, observe, place, count_arrival, push}
use rtp_audio_streamer.Jitter.Pull.{
  is_due, has_packet, play, lose, try_pull_due_frame, pull_not_due, pull_play, pull_lose,
}
use rtp_audio_streamer.Jitter.Decode.{
  silence, pad_frame, pcm_samples, decode_slot, faded, is_silent, conceal, adpcm_state_header_bytes,
}

pub record IsFrame (xs : List ℤ) : Type 0 where
  pub size : length xs ≡ frame_samples
  pub samples : All IsI16 xs

zeros-IsI16 : (n : ℕ) → All IsI16 (replicate n (pos 0))
zeros-IsI16 zero = tt
zeros-IsI16 (suc n) = ((omega arith, omega arith), zeros-IsI16 n)

pub silence-IsFrame : IsFrame silence
silence-IsFrame = record {
  size = length-replicate {A = ℤ} frame_samples (pos 0);
  samples = zeros-IsI16 frame_samples;
}

pad_frame-IsFrame :
    (out : List ℤ) → length out ≤ frame_samples → All IsI16 out → IsFrame (pad_frame out)
unfolding pad_frame
pad_frame-IsFrame out short h = record {
  size =
      let n = frame_samples - length out in
      omega (arith, length-append out (replicate n (pos 0)), length-replicate {A = ℤ} n (pos 0));
  samples = All-append IsI16 out _ h (zeros-IsI16 _);
}

pcm_samples-IsI16 :
    (host : Host) (n : ℕ) (bytes : List ℕ)
    → (length (pcm_samples host n bytes) ≡ n) × All IsI16 (pcm_samples host n bytes)
unfolding pcm_samples
pcm_samples-IsI16 host zero bytes = (refl, tt)
pcm_samples-IsI16 host (suc n) bytes =
    let rest = pcm_samples-IsI16 host n (drop 2 bytes) in (ap suc rest.0, (i16-IsI16 _, rest.1))

adpcm-IsI16 :
    (packed : List ℕ) (n : ℕ) (s : AdpcmState)
    → (length (adpcm_decode_frame packed n s).0 ≡ n) × All IsI16 (adpcm_decode_frame packed n s).0
unfolding adpcm_decode_frame decode_sample
adpcm-IsI16 packed zero s = (refl, tt)
adpcm-IsI16 packed (suc zero) s = (refl, ((advance-IsState _ _ _).sample, tt))
adpcm-IsI16 packed (suc (suc n)) s =
    let rest = adpcm-IsI16 (drop 1 packed) n _ in
    (
      ap (λ k. suc (suc k)) rest.0,
      ((advance-IsState _ _ _).sample, ((advance-IsState _ _ _).sample, rest.1)),
    )

-- The magnitude of a mu-law value is at most 252 times 128, less the bias.
shift_small : (m e : ℕ) → m ≤ 252 → e ≤ 7 → m * 2 ^ e ≤ 32256
shift_small m zero h k = omega arith
shift_small m (suc zero) h k = omega arith
shift_small m (suc (suc zero)) h k = omega arith
shift_small m (suc (suc (suc zero))) h k = omega arith
shift_small m (suc (suc (suc (suc zero)))) h k = omega arith
shift_small m (suc (suc (suc (suc (suc zero))))) h k = omega arith
shift_small m (suc (suc (suc (suc (suc (suc zero)))))) h k = omega arith
shift_small m (suc (suc (suc (suc (suc (suc (suc zero))))))) h k = omega arith
shift_small m (suc (suc (suc (suc (suc (suc (suc (suc e)))))))) h k = absurd (omega arith)

ulaw_to_linear-IsI16 : (code : ℕ) → IsI16 (ulaw_to_linear code)
unfolding ulaw_to_linear
ulaw_to_linear-IsI16 code =
    let flipped = bit_xor code 0xff in
    let mantissa = bit_and_mask 4 flipped in
    let exponent = bit_and_mask 3 (flipped / 2 ^ 4) in
    let m = bit_and flipped 0x0f * 2 ^ 3 + ulaw_bias in
    let small =
      shift_small m (bit_and (flipped / 2 ^ 4) 0x07) (omega (arith, mantissa))
        (omega (arith, exponent)) in
    ground (arith, small)

values-IsI16 : (codes : List ℕ) → All IsI16 (map ulaw_to_linear codes)
values-IsI16 [] = tt
values-IsI16 (c ∷ codes) = (ulaw_to_linear-IsI16 c, values-IsI16 codes)

ulaw-IsI16 : (codes : List ℕ) → All IsI16 (ulaw_decoded codes)
ulaw-IsI16 codes = rw (ulaw_decoded-map codes) (values-IsI16 codes)

length-ulaw_decoded : (codes : List ℕ) → length (ulaw_decoded codes) ≡ length codes
length-ulaw_decoded codes = rw (ulaw_decoded-map codes) (length-map ulaw_to_linear codes)

pub decode_slot-IsFrame : (host : Host) (slot : Slot) → IsFrame (decode_slot host slot)
unfolding decode_slot
decode_slot-IsFrame host slot =
    let n = length slot.payload in
    let pcm = pcm_samples-IsI16 host (min (n / 2) frame_samples) slot.payload in
    let codes = take (min n frame_samples) slot.payload in
    let packed = drop adpcm_state_header_bytes slot.payload in
    let adpcm =
      adpcm-IsI16 packed (min ((n - adpcm_state_header_bytes) * 2) frame_samples)
        (unpack_adpcm_state slot.payload) in
    elim (Bool-cases (slot.payload_type == payload_type_pcm)) [
      | inl t ↦ rw (decode_slot, t) (pad_frame-IsFrame _ (omega (arith, pcm.0)) pcm.1)
      | inr f ↦ elim (Bool-cases (slot.payload_type == payload_type_pcmu)) [
        | inl t ↦
            rw (decode_slot, f, t)
              (pad_frame-IsFrame _
                (omega (
                  arith,
                  length-ulaw_decoded codes,
                  length-take (min n frame_samples) slot.payload,
                ))
                (ulaw-IsI16 codes))
        | inr g ↦
            elim (Bool-cases
              (slot.payload_type == payload_type_adpcm && leb adpcm_state_header_bytes n)) [
                | inl t ↦
                    rw (decode_slot, f, g, t) (pad_frame-IsFrame _ (omega (arith, adpcm.0)) adpcm.1)
                | inr u ↦ rw (decode_slot, f, g, u) silence-IsFrame
              ]
      ]
    ]

module _ {Double : Type 0} (F : Arithmetic Double) where
  abbrev gain : ℕ → Double
  gain n =
      F.power (F.of_int (pos 10))
        (F.div (F.mul (F.of_int (neg (pos 6))) (F.of_int (pos n))) (F.of_int (pos 20)))

  -- IEEE 754: a gain of at most 1 keeps a sample within 16 bits.
  pub record IsFading : Type 0 where
    pub fades : (n : ℕ) (x : ℤ) → IsI16 x → IsI16 (F.truncate (F.mul (F.of_int x) (gain n)))

  module _ (fading : IsFading) where
    faded-IsI16 : (n : ℕ) (xs : List ℤ) → All IsI16 xs → All IsI16 (faded F n xs)
    unfolding faded
    faded-IsI16 n [] h = tt
    faded-IsI16 n (x ∷ xs) h = (fading.fades n x h.0, faded-IsI16 n xs h.1)

    faded-IsFrame : (n : ℕ) (xs : List ℤ) → IsFrame xs → IsFrame (faded F n xs)
    unfolding faded
    faded-IsFrame n xs v = record {
      size = length-map _ xs ∙ v.size;
      samples = faded-IsI16 n xs v.samples;
    }

    -- The last real frame, which a fade starts from, is a whole frame.
    abbrev pub FadesFrame : JitterBuffer Double → Type 0
    FadesFrame jb = IsFrame jb.concealer.last_real_frame

    conceal-IsFrame :
        (jb : JitterBuffer Double)
        → FadesFrame jb
        → IsFrame (conceal F jb).0 × FadesFrame (conceal F jb).1
    unfolding conceal
    conceal-IsFrame jb v = elim (Bool-cases (is_silent F jb)) [
      | inl t ↦ rw (conceal, t) (silence-IsFrame, v)
      | inr f ↦ rw (conceal, f) (faded-IsFrame _ _ v, v)
    ]

    -- Only whole frames are given out, and the last real frame stays whole.
    pub pull-IsFrame :
        (host : Host) (now : ℕ) (jb : JitterBuffer Double)
        → FadesFrame jb
        → FadesFrame (try_pull_due_frame host F now jb).1
    unfolding play lose
    pull-IsFrame host now jb v = elim (Bool-cases (is_due now jb)) [
      | inr wait ↦ rw (pull_not_due host F now jb wait) v
      | inl due ↦ elim (Bool-cases (has_packet jb)) [
        | inl there ↦ rw (pull_play host F now jb due there) (decode_slot-IsFrame host _)
        | inr gone ↦ rw (pull_lose host F now jb due gone) (conceal-IsFrame _ v).1
      ]
    ]

    pub given-IsFrame :
        (host : Host) (now : ℕ) (jb : JitterBuffer Double) (frame : List ℤ)
        → FadesFrame jb
        → (try_pull_due_frame host F now jb).0 ≡ some frame
        → IsFrame frame
    unfolding play lose
    given-IsFrame host now jb frame v e = elim (Bool-cases (is_due now jb)) [
      | inr wait ↦ absurd (cc (rw (pull_not_due host F now jb wait) at e))
      | inl due ↦ elim (Bool-cases (has_packet jb)) [
        | inl there ↦
            let same : (play host now jb).0 ≡ frame =
              cc (rw (pull_play host F now jb due there) at e) in
            subst IsFrame same (decode_slot-IsFrame host _)
        | inr gone ↦
            let same : (lose F jb).0 ≡ frame = cc (rw (pull_lose host F now jb due gone) at e) in
            subst IsFrame same (conceal-IsFrame _ v).0
      ]
    ]

  place-concealer : (a : Arrival) (jb : JitterBuffer Double) → (place a jb).concealer ≡ jb.concealer
  unfolding place
  place-concealer a jb = ground arith

  pub push-concealer :
      (a : Arrival) (jb : JitterBuffer Double) → (push F a jb).concealer ≡ jb.concealer
  unfolding push count_arrival begin observe
  push-concealer a jb = place-concealer a (observe a (begin a (count_arrival F a jb)))

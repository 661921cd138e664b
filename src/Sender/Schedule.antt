-- ===== src/Sender/Schedule.antt =====
-- The packets of a stream in closed form: packet `i` carries samples 160 i up to 160 i + 159.
use rtp_audio_streamer.Base.{
  ℕ, zero, suc, ◌+◌, ◌-◌, ◌*◌, ◌/◌, ◌%◌, ◌^◌, ◌<◌, ◌≡◌, refl, ap, arith, ◌&&◌, List, [], ◌∷◌, ◌++◌,
  length, take, drop, get_or, ◌==◌,
}
use rtp_audio_streamer.Base.Int.{ℤ}
use rtp_audio_streamer.AudioFormat.{frame_samples}
use rtp_audio_streamer.Host.{Host}
use rtp_audio_streamer.Packet.{RtpHeader}
use rtp_audio_streamer.Packet.Wire.{wire}
use rtp_audio_streamer.Codec.Adpcm.{AdpcmState}
use rtp_audio_streamer.Codec.Adpcm.Frame.{final_state}
use rtp_audio_streamer.Sender.{CodecName, pcm, ulaw, adpcm, encode_payload, Sender}
use rtp_audio_streamer.Sender.Payload.{codec_state}

-- The list of the first `n` values of a function.
abbrev pub tabulate : {A : Type 0} → ℕ → (ℕ → A) → List A
tabulate zero f = []
tabulate (suc n) f = f 0 ∷ tabulate n (λ i. f (suc i))

pub get_or-tabulate :
    {A : Type 0} (n i : ℕ) (f : ℕ → A) (d : A) → i < n → get_or (tabulate n f) i d ≡ f i
get_or-tabulate zero i f d h = absurd (omega arith)
get_or-tabulate (suc n) zero f d h = refl
get_or-tabulate (suc n) (suc i) f d h = get_or-tabulate n i (λ j. f (suc j)) d (omega arith)

pub tabulate-cong :
    {A : Type 0} (n : ℕ) (f g : ℕ → A) → ((i : ℕ) → f i ≡ g i) → tabulate n f ≡ tabulate n g
tabulate-cong zero f g h = refl
tabulate-cong (suc n) f g h =
    rw (h 0, tabulate-cong n (λ i. f (suc i)) (λ i. g (suc i)) (λ i. h (suc i)))

-- How many frames the samples make, the last one perhaps short.
abbrev pub frame_count : List ℤ → ℕ
frame_count samples = (length samples + (frame_samples - 1)) / frame_samples

abbrev pub frame_at : List ℤ → ℕ → List ℤ
frame_at samples i = take frame_samples (drop (frame_samples * i) samples)

-- The encoder's state before frame `i`.
abbrev pub state_at : CodecName → Sender → ℕ → AdpcmState
state_at codec s i = codec_state codec (take (frame_samples * i) s.samples) s.adpcm_state

abbrev pub header_at : Sender → ℕ → RtpHeader
header_at s i = record (s.header) {
  marker = s.first_packet && i == 0;
  sequence_number = (s.header.sequence_number + i) % 2 ^ 16;
  timestamp = (s.header.timestamp + frame_samples * i) % 2 ^ 32;
}

abbrev pub payload_at : Host → CodecName → Sender → ℕ → List ℕ
payload_at host codec s i =
    (encode_payload host codec (frame_at s.samples i) (state_at codec s i)).0

abbrev pub packet_at : Host → CodecName → Sender → ℕ → List ℕ
packet_at host codec s i = wire (header_at s i) (payload_at host codec s i)

pub take-add : (m n k : ℕ) (xs : List ℤ) → k ≡ m + n → take k xs ≡ take m xs ++ take n (drop m xs)
take-add zero n k xs e = ap (λ j. take j xs) (omega arith)
take-add (suc m) n zero xs e = absurd (omega arith)
take-add (suc m) zero (suc k) [] e = refl
take-add (suc m) (suc n) (suc k) [] e = refl
take-add (suc m) n (suc k) (x ∷ xs) e = ap (λ ys. x ∷ ys) (take-add m n k xs (omega arith))

pub drop-add : (m n k : ℕ) (xs : List ℤ) → k ≡ m + n → drop k xs ≡ drop n (drop m xs)
drop-add zero n k xs e = ap (λ j. drop j xs) (omega arith)
drop-add (suc m) n zero xs e = absurd (omega arith)
drop-add (suc m) zero (suc k) [] e = refl
drop-add (suc m) (suc n) (suc k) [] e = refl
drop-add (suc m) n (suc k) (x ∷ xs) e = drop-add m n k xs (omega arith)

pub final_state-append :
    (xs ys : List ℤ) (s : AdpcmState) → final_state (xs ++ ys) s ≡ final_state ys (final_state xs s)
unfolding final_state
final_state-append [] ys s = refl
final_state-append (x ∷ xs) ys s = final_state-append xs ys _

pub codec_state-append :
    (c : CodecName) (xs ys : List ℤ) (s : AdpcmState)
    → codec_state c (xs ++ ys) s ≡ codec_state c ys (codec_state c xs s)
codec_state-append pcm xs ys s = refl
codec_state-append ulaw xs ys s = refl
codec_state-append adpcm xs ys s = final_state-append xs ys s

pub codec_state-nil : (c : CodecName) (s : AdpcmState) → codec_state c [] s ≡ s
unfolding final_state
codec_state-nil pcm s = refl
codec_state-nil ulaw s = refl
codec_state-nil adpcm s = refl

-- ===== src/Sender.antt =====
-- src/sender.cpp: the loop of `main` that cuts the samples into frames and sends a packet for each.
-- Its `main` as a whole is in Sender/Main. The sleep between the packets is no part of the model.
pub mod Payload
pub mod Schedule
pub mod Pass
pub mod Stream
pub mod Main
pub mod Handed
pub mod Sent
mod Tests
mod MainTests
use rtp_audio_streamer.Base.{
  ℕ, zero, suc, ◌+◌, ◌-◌, ◌*◌, ◌/◌, Bool, true, false, Option, none, some, List, [], ◌∷◌, ◌++◌,
  length, take, drop, min, u16, u32, if◌then◌else◌, ◌==◌,
}
use rtp_audio_streamer.Base.Int.{ℤ, u16_of}
use rtp_audio_streamer.AudioFormat.{frame_samples}
use rtp_audio_streamer.Host.{Host}
use rtp_audio_streamer.Packet.{
  RtpHeader, serialize, payload_type_pcm, payload_type_pcmu, payload_type_adpcm,
}
use rtp_audio_streamer.Codec.Ulaw.{ulaw_encoded}
use rtp_audio_streamer.Codec.Adpcm.{AdpcmState, pack_adpcm_state, adpcm_encode_frame}

-- The values of `codec_name` that pass the test at the start.
pub data CodecName : Type 0 where
  pcm : CodecName
  ulaw : CodecName
  adpcm : CodecName

unfoldable pub payload_type_of : CodecName → ℕ
payload_type_of pcm = payload_type_pcm
payload_type_of ulaw = payload_type_pcmu
payload_type_of adpcm = payload_type_adpcm

abbrev pub max_datagram_bytes : ℕ
max_datagram_bytes = 1500

module _ (host : Host) where
  -- `memcpy` of samples: two bytes each, in the host's byte order.
  unfoldable pub pcm_bytes : List ℤ → List ℕ
  pcm_bytes [] = []
  pcm_bytes (x ∷ xs) = let (a, b) = host.bytes_16 (u16_of x) in a ∷ b ∷ pcm_bytes xs

  -- The first `payload_len` bytes of `payload_buf`, and the state after the frame.
  unfoldable pub encode_payload : CodecName → List ℤ → AdpcmState → List ℕ × AdpcmState
  encode_payload pcm frame state = (pcm_bytes frame, state)
  encode_payload ulaw frame state = (ulaw_encoded frame, state)
  encode_payload adpcm frame state =
      let (packed, state') = adpcm_encode_frame frame state in
      (pack_adpcm_state state ++ packed, state')

-- The variables of the loop; `samples` are those from `sent` on.
pub record Sender : Type 0 where
  pub header : RtpHeader
  pub first_packet : Bool
  pub adpcm_state : AdpcmState
  pub out_buffer : List ℕ
  pub samples : List ℤ

abbrev pub prepend : {A : Type 0} → A → Option (List A) → Option (List A)
prepend x none = none
prepend x (some xs) = some (x ∷ xs)

module _ (host : Host) (codec : CodecName) where
  -- One pass of the loop: the datagram given to `send_to`, or `none` for the exception.
  unfoldable pub send_frame : Sender → Option (List ℕ × Sender)
  send_frame s =
      let frame = take (min frame_samples (length s.samples)) s.samples in
      let (payload, adpcm_state) = encode_payload host codec frame s.adpcm_state in
      let header = record (s.header) { marker = s.first_packet } in
      let (packet_len, out_buffer) = serialize host header payload s.out_buffer in
      if packet_len == 0
      then none
      else some (
        take packet_len out_buffer,
        record {
          header = record header {
            sequence_number = u16 (header.sequence_number + 1);
            timestamp = u32 (header.timestamp + length frame);
          };
          first_packet = false;
          adpcm_state = adpcm_state;
          out_buffer = out_buffer;
          samples = drop (length frame) s.samples;
        },
      )

  -- The loop, with fuel for its passes: the datagrams in the order sent, or `none` if a pass throws
  -- or the fuel runs out.
  unfoldable pub send_all : ℕ → Sender → Option (List (List ℕ))
  send_all zero s = none
  send_all (suc fuel) s =
      if length s.samples == 0
      then some []
      else elim (send_frame s) [ none ↦ none | some p ↦ prepend p.0 (send_all fuel p.1) ]

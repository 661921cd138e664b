-- ===== src/Sender/Pass.antt =====
-- One pass of the loop of the sender: what it sends, and how it moves the schedule on.
use rtp_audio_streamer.Base.{
  ℕ, suc, ◌+◌, ◌*◌, ◌%◌, ◌^◌, ◌≤◌, ◌<◌, ◌≡◌, sym, ap, ◌∙◌, arith, false, ◌&&◌, Option, none, some,
  List, [], length, take, drop, min, get_or, ◌==◌, length-take, u16, u32, take_all,
}
use native.Mathlib.Decide.{dec_le}
use rtp_audio_streamer.Base.Int.{ℤ}
use rtp_audio_streamer.AudioFormat.{frame_samples}
use rtp_audio_streamer.Host.{Host}
use rtp_audio_streamer.Packet.{ParsedPacket, parse, blit}
use rtp_audio_streamer.Packet.Blit.{length-blit, take-blit}
use rtp_audio_streamer.Packet.Wire.{wire, IsHeader, serialize_fits}
use rtp_audio_streamer.Packet.Parse.{IsKnownType}
use rtp_audio_streamer.Codec.Adpcm.State.{IsState}
use rtp_audio_streamer.Sender.{
  CodecName, pcm, ulaw, adpcm, payload_type_of, encode_payload, Sender, send_frame,
  max_datagram_bytes,
}
use rtp_audio_streamer.Sender.Payload.{
  codec_state, codec_state-IsState, encode_payload-state, encode_payload-length,
}
use rtp_audio_streamer.Sender.Schedule.{
  frame_at, state_at, header_at, payload_at, packet_at, take-add, drop-add, codec_state-append,
  codec_state-nil,
}

-- The variables of the loop as `main` sets them up, and as every pass leaves them.
pub record IsSender (codec : CodecName) (s : Sender) : Type 0 where
  pub header_fits : IsHeader s.header
  pub own_type : s.header.payload_type ≡ payload_type_of codec
  pub buffer : length s.out_buffer ≡ max_datagram_bytes
  pub state : IsState s.adpcm_state

-- Datagram `i` of what was sent, parsed.
abbrev pub received_at : Host → ℕ → Option (List (List ℕ)) → Option ParsedPacket
received_at receiver i none = none
received_at receiver i (some datagrams) = parse receiver (get_or datagrams i [])

pub known : (c : CodecName) (t : ℕ) → t ≡ payload_type_of c → IsKnownType t
unfolding payload_type_of
known pcm t e = ground arith
known ulaw t e = ground arith
known adpcm t e = ground arith

take-min : (n : ℕ) (xs : List ℤ) → take (min n (length xs)) xs ≡ take n xs
take-min n xs = elim (dec_le n (length xs)) [
  | yes h ↦ ap (λ m. take m xs) (omega arith)
  | no h ↦
      ap (λ m. take m xs) (omega arith)
      ∙ (take_all (length xs) xs (omega arith) ∙ sym (take_all n xs (omega arith)))
]

module _ (host : Host) (codec : CodecName) where
  -- The sender after a pass.
  abbrev pub next : Sender → List ℕ → Sender
  next s out_buffer = record {
    header = record (s.header) {
      marker = s.first_packet;
      sequence_number = u16 (s.header.sequence_number + 1);
      timestamp = u32 (s.header.timestamp + length (frame_at s.samples 0));
    };
    first_packet = false;
    adpcm_state = codec_state codec (frame_at s.samples 0) s.adpcm_state;
    out_buffer = out_buffer;
    samples = drop (length (frame_at s.samples 0)) s.samples;
  }

  pub send_frame_lem :
      (s : Sender)
      → IsSender codec s
      → let payload = (encode_payload host codec (frame_at s.samples 0) s.adpcm_state).0 in
        let sent = wire (record (s.header) { marker = s.first_packet }) payload in
        send_frame host codec s ≡ some (sent, next s (blit s.out_buffer 0 sent))
  unfolding send_frame
  send_frame_lem s v =
      let frame = take frame_samples s.samples in
      let h = record (s.header) { marker = s.first_packet } in
      let payload = (encode_payload host codec frame s.adpcm_state).0 in
      let fits = v.header_fits in
      let small : 12 + length payload ≤ 336 = omega (
        arith,
        encode_payload-length host codec frame s.adpcm_state,
        length-take frame_samples s.samples,
      ) in
      let written =
        serialize_fits host h payload s.out_buffer
          (record {
            type_fits = fits.type_fits;
            sequence_fits = fits.sequence_fits;
            timestamp_fits = fits.timestamp_fits;
            ssrc_fits = fits.ssrc_fits;
          })
          (omega arith) (omega (arith, v.buffer)) in
      let positive : (12 + length payload == 0) ≡ false = ground arith in
      let sent =
        take-blit s.out_buffer (wire h payload) (12 + length payload) (omega arith)
          (omega (arith, v.buffer)) in
      rw (
        take-min frame_samples s.samples,
        written,
        positive,
        sent,
        encode_payload-state host codec frame s.adpcm_state,
      )

  pub next-IsSender :
      (s : Sender) (bytes : List ℕ)
      → IsSender codec s
      → IsSender codec (next s (blit s.out_buffer 0 bytes))
  next-IsSender s bytes v = record {
    header_fits = record {
      type_fits = v.header_fits.type_fits;
      sequence_fits = omega arith;
      timestamp_fits = omega arith;
      ssrc_fits = v.header_fits.ssrc_fits;
    };
    own_type = v.own_type;
    buffer = length-blit s.out_buffer bytes 0 ∙ v.buffer;
    state = codec_state-IsState codec (frame_at s.samples 0) s.adpcm_state v.state;
  }

  -- The schedule of the sender after a pass is the rest of its schedule, if a frame is left.
  module _ (s : Sender) (out_buffer : List ℕ) (i : ℕ)
      (more : frame_samples < length s.samples) where
    full : length (frame_at s.samples 0) ≡ frame_samples
    full = omega (arith, length-take frame_samples s.samples)

    header_at-next : header_at (next s out_buffer) i ≡ header_at s (suc i)
    header_at-next =
        let marker : (false && i == 0) ≡ (s.first_packet && suc i == 0) = ground arith in
        let sequence : (u16 (s.header.sequence_number + 1) + i) % 2 ^ 16
            ≡ (s.header.sequence_number + suc i) % 2 ^ 16 =
          omega arith in
        let time : (u32 (s.header.timestamp + length (frame_at s.samples 0)) + frame_samples * i)
              % 2 ^ 32
            ≡ (s.header.timestamp + frame_samples * suc i) % 2 ^ 32 =
          omega (arith, full) in
        ap (λ m. record (header_at (next s out_buffer) i) { marker = m }) marker
        ∙ ap
            (λ q. record (header_at (next s out_buffer) i) {
              marker = s.first_packet && suc i == 0;
              sequence_number = q;
            })
            sequence
        ∙ ap (λ t. record (header_at s (suc i)) { timestamp = t }) time

    state_at-next : state_at codec (next s out_buffer) i ≡ state_at codec s (suc i)
    state_at-next =
        let all =
          take-add frame_samples (frame_samples * i) (frame_samples * suc i) s.samples
            (omega arith) in
        rw full (
          sym (
            ap (λ xs. codec_state codec xs s.adpcm_state) all
            ∙ codec_state-append codec (take frame_samples s.samples)
                (take (frame_samples * i) (drop frame_samples s.samples)) s.adpcm_state))

    frame_at-next : frame_at (next s out_buffer).samples i ≡ frame_at s.samples (suc i)
    frame_at-next = rw full (
        ap (take frame_samples) (
          sym (
            drop-add frame_samples (frame_samples * i) (frame_samples * suc i) s.samples
              (omega arith))))

    pub packet_at-next : packet_at host codec (next s out_buffer) i ≡ packet_at host codec s (suc i)
    packet_at-next =
        ap (λ h. wire h (payload_at host codec (next s out_buffer) i)) header_at-next
        ∙ ap
            (λ xs.
              wire (header_at s (suc i))
                (encode_payload host codec xs (state_at codec (next s out_buffer) i)).0)
            frame_at-next
        ∙ ap
            (λ t.
              wire (header_at s (suc i))
                (encode_payload host codec (frame_at s.samples (suc i)) t).0)
            state_at-next

  pub packet_at-first :
      (s : Sender)
      → IsSender codec s
      → packet_at host codec s 0
        ≡ wire
            (record (s.header) { marker = s.first_packet })
            (encode_payload host codec (frame_at s.samples 0) s.adpcm_state).0
  packet_at-first s v =
      let sequence : (s.header.sequence_number + 0) % 2 ^ 16 ≡ s.header.sequence_number =
        omega (arith, v.header_fits.sequence_fits) in
      let time : (s.header.timestamp + frame_samples * 0) % 2 ^ 32 ≡ s.header.timestamp =
        omega (arith, v.header_fits.timestamp_fits) in
      let marker : (s.first_packet && 0 == 0) ≡ s.first_packet = ground arith in
      let start : codec_state codec [] s.adpcm_state ≡ s.adpcm_state =
        codec_state-nil codec s.adpcm_state in
      ap (λ m. wire (record (header_at s 0) { marker = m }) (payload_at host codec s 0)) marker
      ∙ ap
          (λ q.
            wire (record (header_at s 0) { marker = s.first_packet; sequence_number = q })
              (payload_at host codec s 0))
          sequence
      ∙ ap
          (λ t.
            wire (record (s.header) { marker = s.first_packet; timestamp = t })
              (payload_at host codec s 0))
          time
      ∙ ap
          (λ t.
            wire (record (s.header) { marker = s.first_packet })
              (encode_payload host codec (frame_at s.samples 0) t).0)
          start

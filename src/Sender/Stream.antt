-- ===== src/Sender/Stream.antt =====
-- The loop of the sender ends, never throws, and sends the packets of the schedule.
use rtp_audio_streamer.Base.{
  ℕ, zero, suc, ◌*◌, ◌<◌, ◌≡◌, ◌≢◌, sym, ap, ◌∙◌, arith, some, List, [], ◌∷◌, length, take,
  length-take, length-drop, ==_iff, ne→not_eq,
}
use native.Mathlib.Decide.{dec_lt, ℕ_discrete}
use rtp_audio_streamer.AudioFormat.{frame_samples}
use rtp_audio_streamer.Host.{Host}
use rtp_audio_streamer.Packet.{parse, blit}
use rtp_audio_streamer.Packet.Wire.{wire}
use rtp_audio_streamer.Packet.Parse.{parse-wire}
use rtp_audio_streamer.Sender.{CodecName, encode_payload, Sender, send_all, prepend}
use rtp_audio_streamer.Sender.Payload.{codec_state-IsState, encode_payload-IsByte}
use rtp_audio_streamer.Sender.Schedule.{
  tabulate, tabulate-cong, get_or-tabulate, frame_count, frame_at, state_at, header_at, payload_at,
  packet_at,
}
use rtp_audio_streamer.Sender.Pass.{
  IsSender, received_at, known, next, send_frame_lem, next-IsSender, packet_at-next,
  packet_at-first,
}

module _ (host : Host) (codec : CodecName) where
  count_next :
      (s : Sender) (out_buffer : List ℕ)
      → length s.samples ≢ 0
      → frame_count s.samples ≡ suc (frame_count (next host codec s out_buffer).samples)
  count_next s out_buffer left =
      let one = length-take frame_samples s.samples in
      let rest = length-drop (length (frame_at s.samples 0)) s.samples in omega (arith, one, rest)

  rest_of_schedule :
      (s : Sender) (out_buffer : List ℕ)
      → tabulate
          (frame_count (next host codec s out_buffer).samples)
          (packet_at host codec (next host codec s out_buffer))
        ≡ tabulate
            (frame_count (next host codec s out_buffer).samples)
            (λ i. packet_at host codec s (suc i))
  rest_of_schedule s out_buffer = elim (dec_lt frame_samples (length s.samples)) [
    | yes more ↦
        tabulate-cong (frame_count (next host codec s out_buffer).samples)
          (packet_at host codec (next host codec s out_buffer))
          (λ i. packet_at host codec s (suc i)) (λ i. packet_at-next host codec s out_buffer i more)
    | no last ↦
        let one = length-take frame_samples s.samples in
        let rest = length-drop (length (frame_at s.samples 0)) s.samples in
        let over : frame_count (next host codec s out_buffer).samples ≡ 0 =
          omega (arith, one, rest) in
        ap (λ n. tabulate n (packet_at host codec (next host codec s out_buffer))) over
        ∙ sym (ap (λ n. tabulate n (λ i. packet_at host codec s (suc i))) over)
  ]

  -- Given fuel for one pass more than there are frames, the loop ends without throwing; it has sent
  -- one datagram for each frame, which is the RFC 3550 packet of that frame's header and payload.
  pub send_all-packets :
      (fuel : ℕ) (s : Sender)
      → IsSender codec s
      → frame_count s.samples < fuel
      → send_all host codec fuel s
        ≡ some (tabulate (frame_count s.samples) (packet_at host codec s))
  unfolding send_all
  send_all-packets zero s v h = absurd (omega arith)
  send_all-packets (suc fuel) s v h = elim (ℕ_discrete (length s.samples) 0) [
    | yes over ↦
        let count : frame_count s.samples ≡ 0 = omega (arith, over) in
        rw ((==_iff _ 0).1 over) (sym (ap (λ n. some (tabulate n (packet_at host codec s))) count))
    | no left ↦
        let sent =
          wire (record (s.header) { marker = s.first_packet })
            (encode_payload host codec (frame_at s.samples 0) s.adpcm_state).0 in
        let s' = next host codec s (blit s.out_buffer 0 sent) in
        let count = count_next s (blit s.out_buffer 0 sent) left in
        let rest =
          send_all-packets fuel s' (next-IsSender host codec s sent v) (omega (arith, count)) in
        rw (ne→not_eq _ 0 left, send_frame_lem host codec s v)
          (ap (prepend sent) rest
            ∙ ap (λ ds. some (sent ∷ ds)) (rest_of_schedule s (blit s.out_buffer 0 sent))
            ∙ ap
                (λ d.
                  some
                    (d ∷ tabulate (frame_count s'.samples) (λ i. packet_at host codec s (suc i))))
                (sym (packet_at-first host codec s v))
            ∙ ap (λ n. some (tabulate n (packet_at host codec s))) (sym count))
  ]

  -- Packet `i` of the schedule is accepted by `parse`.
  pub parse-packet_at :
      (receiver : Host) (i : ℕ) (s : Sender)
      → IsSender codec s
      → parse receiver (packet_at host codec s i)
        ≡ some (record { header = header_at s i; payload = payload_at host codec s i })
  parse-packet_at receiver i s v =
      parse-wire receiver (header_at s i) (payload_at host codec s i)
        (record {
          type_fits = v.header_fits.type_fits;
          sequence_fits = omega arith;
          timestamp_fits = omega arith;
          ssrc_fits = v.header_fits.ssrc_fits;
        })
        (known codec s.header.payload_type v.own_type)
        (encode_payload-IsByte host codec (frame_at s.samples i) (state_at codec s i)
          (codec_state-IsState codec (take (frame_samples * i) s.samples) s.adpcm_state v.state))

  -- Given fuel for one pass more than there are frames, datagram `i` of the stream is accepted by
  -- `parse`, also on a host with the other byte order, and carries frame `i` as the codec encodes
  -- it, the sequence number `i` after the first, modulo 2^16, the timestamp 160 i after the first,
  -- modulo 2^32, and the marker only on the first.
  pub send_all-parse :
      (receiver : Host) (fuel i : ℕ) (s : Sender)
      → IsSender codec s
      → frame_count s.samples < fuel
      → i < frame_count s.samples
      → received_at receiver i (send_all host codec fuel s)
        ≡ some (record { header = header_at s i; payload = payload_at host codec s i })
  send_all-parse receiver fuel i s v enough inside = rw (send_all-packets fuel s v enough) (
      ap (parse receiver)
        (get_or-tabulate (frame_count s.samples) i (packet_at host codec s) [] inside)
      ∙ parse-packet_at receiver i s v)

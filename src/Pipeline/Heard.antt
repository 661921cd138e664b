-- ===== src/Pipeline/Heard.antt =====
-- From the samples of the sender to the samples that the receiver plays.
use rtp_audio_streamer.Base.{
  ℕ, zero, suc, ◌-◌, ◌*◌, ◌<◌, ◌≡◌, sym, ap, ◌∙◌, arith, true, Option, none, some, List, [], ◌∷◌,
  length, get_or, take, drop, min, All, All-take, take_all, length-take, ◌==◌, ==_iff,
}
use rtp_audio_streamer.Base.Int.{ℤ, IsI16}
use rtp_audio_streamer.AudioFormat.{frame_samples}
use rtp_audio_streamer.Host.{Host}
use rtp_audio_streamer.Packet.{ParsedPacket, parse}
use rtp_audio_streamer.Jitter.{Arithmetic, JitterBuffer}
use rtp_audio_streamer.Jitter.Push.{push, filled}
use rtp_audio_streamer.Jitter.Decode.{decode_slot, pad_frame}
use rtp_audio_streamer.Jitter.Inv.{offset, Inv}
use rtp_audio_streamer.Jitter.Keep.{push-Inv}
use rtp_audio_streamer.Jitter.Buffered.{buffered, IsAhead, push-buffered}
use rtp_audio_streamer.Jitter.Playback.{Call, IsCall, run, push-kept}
use rtp_audio_streamer.Jitter.Delivery.{run_plays}
use rtp_audio_streamer.Sender.{CodecName, Sender, send_all}
use rtp_audio_streamer.Sender.Payload.{
  IsWhole, reproduced, codec_state-IsState, encode_payload-length, decode_slot-encode_payload,
}
use rtp_audio_streamer.Sender.Schedule.{frame_count, frame_at, state_at, header_at, payload_at}
use rtp_audio_streamer.Sender.Pass.{IsSender, received_at}
use rtp_audio_streamer.Sender.Stream.{send_all-parse}
use rtp_audio_streamer.Receiver.Playout.{arrival_of, receive_datagram}
use rtp_audio_streamer.Pipeline.{datagram_at}

All-drop : (n : ℕ) (xs : List ℤ) → All IsI16 xs → All IsI16 (drop n xs)
All-drop zero xs h = h
All-drop (suc n) [] h = tt
All-drop (suc n) (x ∷ xs) h = All-drop n xs h.1

pub received_at-datagram_at :
    (host : Host) (i : ℕ) (sent : Option (List (List ℕ))) (p : ParsedPacket)
    → received_at host i sent ≡ some p
    → parse host (datagram_at i sent) ≡ some p
received_at-datagram_at host i none p e = absurd (cc e)
received_at-datagram_at host i (some ds) p e = e

module _ {Double : Type 0} (host : Host) (F : Arithmetic Double) (codec : CodecName)
    (s : Sender) where
  -- Packet `i` of the sender, as it is parsed.
  abbrev pub packet : ℕ → ParsedPacket
  packet i = record { header = header_at s i; payload = payload_at host codec s i }

  -- The buffer after datagram `i` of the sender's run has been received.
  abbrev pub received : ℕ → ℕ → ℕ → JitterBuffer Double → JitterBuffer Double
  received fuel i now jb =
      (receive_datagram host F (datagram_at i (send_all host codec fuel s)) now jb 0).0

  pub received_lem :
      (fuel i now : ℕ) (jb : JitterBuffer Double)
      → IsSender codec s
      → frame_count s.samples < fuel
      → i < frame_count s.samples
      → received fuel i now jb ≡ push F (arrival_of host F (packet i) now) jb
  unfolding receive_datagram
  received_lem fuel i now jb v enough inside = rw (
    received,
    received_at-datagram_at host i (send_all host codec fuel s) (packet i)
        (send_all-parse host codec host fuel i s v enough inside),
  )

  pub slot_lem :
      (i now : ℕ)
      → IsSender codec s
      → All IsI16 s.samples
      → IsWhole host codec (frame_at s.samples i)
      → decode_slot host (filled (arrival_of host F (packet i) now))
        ≡ pad_frame (reproduced host codec (frame_at s.samples i) (state_at codec s i))
  slot_lem i now v h whole =
      let frame = frame_at s.samples i in
      let payload = payload_at host codec s i in
      let short = length-take frame_samples (drop (frame_samples * i) s.samples) in
      let fits = encode_payload-length host codec frame (state_at codec s i) in
      decode_slot-encode_payload host codec frame (state_at codec s i)
        (filled (arrival_of host F (packet i) now))
        (All-take IsI16 frame_samples (drop (frame_samples * i) s.samples)
          (All-drop (frame_samples * i) s.samples h))
        (codec_state-IsState codec (take (frame_samples * i) s.samples) s.adpcm_state v.state)
        (omega (arith, short)) whole v.own_type
        (take_all (min (length payload) 512) payload (omega (arith, short, fits)))

  -- Packet `i`, received while the slots can hold its frame and no packet waits for it, waits for it.
  waits :
      (i now : ℕ) (jb : JitterBuffer Double)
      → Inv jb
      → jb.started ≡ true
      → jb.base_sequence ≡ s.header.sequence_number
      → IsAhead jb i
      → buffered jb i ≡ none
      → let a = arrival_of host F (packet i) now in buffered (push F a jb) i ≡ some (filled a)
  waits i now jb v on base ahead free =
      let a = arrival_of host F (packet i) now in
      let own : (offset jb.base_sequence a.sequence_number == i) ≡ true =
        (==_iff (offset jb.base_sequence a.sequence_number) i).1
          (omega (arith, base, v.base_fits, ahead.2)) in
      push-buffered F a jb i (omega arith) on v ahead ∙ rw (own, free)

  -- A sender's datagram `i` is received, as sent, by a receiver of the same byte order that has
  -- started with the sender's first packet, while the slots can hold frame `i` and no packet waits
  -- for it. Whatever the receiver's threads do next, once the cursor is past frame `i`, the frame given
  -- out in its place is samples 160 i up to 160 i + 159 of the sender's input, as the codec
  -- reproduces them, filled up with silence. (In ADPCM, the samples of the frame are even in number.)
  pub heard_frame :
      (fuel i now : ℕ) (jb : JitterBuffer Double) (calls : List Call)
      → IsSender codec s
      → All IsI16 s.samples
      → frame_count s.samples < fuel
      → i < frame_count s.samples
      → IsWhole host codec (frame_at s.samples i)
      → Inv jb
      → jb.started ≡ true
      → jb.base_sequence ≡ s.header.sequence_number
      → IsAhead jb i
      → buffered jb i ≡ none
      → All IsCall calls
      → i < (run host F calls (received fuel i now jb)).1.frames_played
      → get_or (run host F calls (received fuel i now jb)).0 (i - jb.frames_played) []
        ≡ pad_frame (reproduced host codec (frame_at s.samples i) (state_at codec s i))
  heard_frame fuel i now jb calls sender h enough inside whole v on base ahead free ok past =
      let a = arrival_of host F (packet i) now in
      let got = received_lem fuel i now jb sender enough inside in
      let kept = push-kept host F a jb in
      let next = push-Inv F a jb (omega arith) v in
      let played =
        run_plays host F calls (push F a jb) i (filled a) ok next kept.1
          (omega (arith, kept.0), omega (arith, kept.0), ahead.2)
          (waits i now jb v on base ahead free) (rw got at past) in
      ap (λ b. get_or (run host F calls b).0 (i - jb.frames_played) []) got
      ∙ ap (λ n. get_or (run host F calls (push F a jb)).0 (i - n) []) (sym kept.0)
      ∙ played
      ∙ slot_lem i now sender h whole

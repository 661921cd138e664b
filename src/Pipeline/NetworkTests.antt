-- ===== src/Pipeline/NetworkTests.antt =====
-- A stream of one packet through a proxy that holds it and sends it twice: the receiver hears both
-- copies.
use rtp_audio_streamer.Base.{
  sym, ap, ◌≤◌, ◌<◌, ◌++◌, ◌*◌, ◌-◌, ℕ, ◌+◌, ◌≡◌, refl, arith, true, false, none, some, replicate,
  List, [], ◌∷◌, length, All, u16,
}
use mathlib.Core.List.{Memᴰ}
use rtp_audio_streamer.AudioFormat.{frame_samples}
use rtp_audio_streamer.Base.Int.{ℤ, pos, negsuc, IsI16}
use rtp_audio_streamer.Host.{IsByte, little_endian}
use rtp_audio_streamer.Fixtures.{integers, plain_options, counting, doubling, all_bytes-IsByte}
use rtp_audio_streamer.Codec.Adpcm.{initial_state}
use rtp_audio_streamer.Packet.{parse, read_u16, read_u32}
use rtp_audio_streamer.Ring.{next_index}
use rtp_audio_streamer.Ring
use rtp_audio_streamer.Jitter.Push.{push, place, observe, begin, count_arrival, frame_index_of}
use rtp_audio_streamer.Jitter.Decode.{conceal}
use rtp_audio_streamer.Jitter.Pull.{
  finished, is_due, play, lose, mark_stream_ended, try_pull_due_frame,
}
use rtp_audio_streamer.Sender.{send_all, pcm, payload_type_of, pcm_bytes, encode_payload, Sender}
use rtp_audio_streamer.Sender.Schedule.{tabulate, frame_count, packet_at}
use rtp_audio_streamer.Sender.Pass.{IsSender}
use rtp_audio_streamer.Sender.Stream.{send_all-packets}
use rtp_audio_streamer.Impair.{jitter_delay, forward, handle}
use rtp_audio_streamer.Impair.Threads as Proxy
use rtp_audio_streamer.Receiver.{Timespec, samples_since}
use rtp_audio_streamer.Receiver.Playout.{receive_datagram}
use rtp_audio_streamer.Receiver.Threads.{
  over, System, receive_pass, give, idle_ms, init, Step, Reach,
}
use rtp_audio_streamer.Receiver.Provenance.{heard, frame_given}
use rtp_audio_streamer.Pipeline.Network.{Genuine, given-Genuine, sounded}
use rtp_audio_streamer.Pipeline.{datagram_at}
use rtp_audio_streamer.Pipeline.Lossless.{Lossless, Lossless-sounded}
use rtp_audio_streamer.Pipeline.Written.{Lossless-written, Lossless-pcm}
use rtp_audio_streamer.Receiver.Queued.{joined}

abbrev sender : Sender
sender = record {
  header = record {
    marker = false;
    payload_type = 97;
    sequence_number = 65535;
    timestamp = 9;
    ssrc = 7;
  };
  first_packet = true;
  adpcm_state = initial_state;
  out_buffer = replicate 1500 0;
  samples = pos 1000 ∷ negsuc 4 ∷ [];
}

sender-IsSender : IsSender pcm sender
unfolding payload_type_of
sender-IsSender = record {
  header_fits = record {
    type_fits = omega arith;
    sequence_fits = omega arith;
    timestamp_fits = omega arith;
    ssrc_fits = omega arith;
  };
  own_type = refl;
  buffer = refl;
  state = record { sample = (omega arith, omega arith); in_table = omega arith };
}

abbrev packet : List ℕ
packet = packet_at little_endian pcm sender 0

abbrev Proxied : Proxy.System ℕ → Type 0
Proxied = Proxy.Reach counting doubling 0

forwarded : {s t : Proxy.System ℕ} → Proxied s → Proxy.Step counting doubling s t → Proxied t
forwarded r st = Proxy.Reach.next r st

proxy_run :
    (net : Proxy.System ℕ) × Proxied net
    × (net.arrived ≡ packet ∷ [])
    × (net.proxy.sent ≡ packet ∷ packet ∷ [])
unfolding handle forward jitter_delay
proxy_run =
    let held = forwarded Proxy.Reach.start (Proxy.Step.receive packet refl) in
    let once = forwarded held (Proxy.Step.send 0 refl (omega arith) (omega arith)) in
    (_, forwarded once (Proxy.Step.send 0 refl (omega arith) (omega arith)), refl, refl)

abbrev start : Timespec
start = record { tv_sec = 7; tv_nsec = 0 }

abbrev timeout : Timespec
timeout = record { tv_sec = 9; tv_nsec = 5 }

abbrev Reached : System ℤ → Type 0
Reached = Reach little_endian integers start (pos 500) plain_options

abbrev begun : Reached (init little_endian integers start (pos 500) plain_options)
begun = Reach.start

abbrev after :
    {s t : System ℤ} → Reached s → Step little_endian integers start (pos 500) s t → Reached t
after r st = Reach.next r st

packet-IsByte : All IsByte packet
unfolding encode_payload pcm_bytes
packet-IsByte = all_bytes-IsByte packet refl

receiver_run :
    (t : System ℤ) × ((r : Reached t) × (heard little_endian integers start (pos 500) r
        ≡ packet ∷ packet ∷ []))
    × (length t.given ≡ 1)
unfolding receive_pass receive_datagram parse read_u16 read_u32 push place observe begin
    count_arrival frame_index_of samples_since mark_stream_ended try_pull_due_frame play lose
    conceal is_due finished give Ring.push Ring.pop next_index idle_ms encode_payload pcm_bytes
receiver_run =
    let first = after begun (Step.receive (some packet) start packet-IsByte tt) in
    let second = after first (Step.receive (some packet) start packet-IsByte tt) in
    let ended = after second (Step.receive none timeout tt tt) in
    let awake = after ended (Step.wake 16000 refl) in
    (_, (after awake (Step.frame_pushed refl refl), refl), refl)

samples-IsI16 : All IsI16 sender.samples
samples-IsI16 = ((omega arith, omega arith), ((omega arith, omega arith), tt))

given-Genuine_example :
    Genuine little_endian integers pcm sender
      (u16 (receiver_run.0.jbuf.base_sequence + 0))
      (frame_given receiver_run.0.given 0)
given-Genuine_example =
    given-Genuine little_endian integers pcm sender counting doubling start (pos 500) 2
      (tabulate (frame_count sender.samples) (packet_at little_endian pcm sender)) sender-IsSender
      samples-IsI16 (λ i below. tt) (omega arith)
      (send_all-packets little_endian pcm 2 sender sender-IsSender (omega arith)) (proxy_run.1)
      (rw (proxy_run.2) (Memᴰ.head refl, tt)) (receiver_run.1.0)
      (rw (receiver_run.1.1, proxy_run.3) (Memᴰ.head refl, (Memᴰ.head refl, tt))) 0
      (omega (arith, receiver_run.2))

packet_sent : packet ≡ datagram_at 0 (send_all little_endian pcm 2 sender)
packet_sent =
    ap (datagram_at 0)
      (sym (send_all-packets little_endian pcm 2 sender sender-IsSender (omega arith)))

-- The packet once, and the frame given.
written_run :
    (t : System ℤ) × (r : Reached t) × (Lossless little_endian integers pcm sender 2 start
      (pos 500)
      r)
    × (t.main ≡ over)
    × (finished t.jbuf ≡ true)
    × (t.underruns ≡ 0)
    × (length (heard little_endian integers start (pos 500) r) ≡ 1)
unfolding receive_pass receive_datagram parse read_u16 read_u32 push place observe begin
    count_arrival frame_index_of samples_since mark_stream_ended try_pull_due_frame play lose
    conceal is_due finished give Ring.push Ring.pop next_index idle_ms encode_payload pcm_bytes
written_run =
    let first = after begun (Step.receive (some packet) start packet-IsByte tt) in
    let ended = after first (Step.receive none timeout tt tt) in
    let awake = after ended (Step.wake 16000 refl) in
    let played = after awake (Step.frame_pushed refl refl) in
    let left = after played (Step.leave refl) in
    let taken = after left (Step.popped refl refl) in
    let seen = after (after taken (Step.seen_empty refl)) (Step.look refl) in
    (
      _,
      after seen (Step.last_empty refl refl),
      (((((((((tt, (omega arith, packet_sent, omega arith)), tt), tt), tt), tt), tt), tt), tt), tt),
      refl,
      refl,
      refl,
      refl,
    )

Lossless-sounded_example :
    (written_run.0.jbuf.counts.lost ≡ 0)
    × (length written_run.0.given
        ≤ length (heard little_endian integers start (pos 500) (written_run.1)))
    × ((k : ℕ)
        → k < length written_run.0.given
        → frame_given written_run.0.given k ≡ sounded little_endian integers pcm sender k)
Lossless-sounded_example =
    Lossless-sounded little_endian integers pcm sender 2 start (pos 500) sender-IsSender
      samples-IsI16 (λ i below. tt) (omega arith) (omega arith) (written_run.1) (written_run.2)

Lossless-written_example :
    written_run.0.samples
    ≡ joined (
        tabulate
          (length (heard little_endian integers start (pos 500) (written_run.1)))
          (sounded little_endian integers pcm sender))
Lossless-written_example =
    Lossless-written little_endian integers pcm sender 2 start (pos 500) sender-IsSender
      samples-IsI16 (λ i below. tt) (omega arith) (omega arith) (written_run.1) (written_run.2)
      (written_run.3) (written_run.4) (written_run.5)

Lossless-pcm_example :
    written_run.0.samples
    ≡ sender.samples
      ++ replicate (frame_samples * frame_count sender.samples - length sender.samples) (pos 0)
Lossless-pcm_example =
    Lossless-pcm little_endian integers sender 2 start (pos 500) sender-IsSender samples-IsI16
      (omega arith) (omega arith) (written_run.1) (written_run.2) (written_run.6) (written_run.3)
      (written_run.4) (written_run.5)

-- ===== src/Pipeline/Lossless.antt =====
-- A network that loses nothing and keeps the order: the receiver of src/receiver.cpp conceals nothing.
use rtp_audio_streamer.Base.{ℕ, ◌^◌, ◌≤◌, ◌<◌, ◌≡◌, arith, length, All}
use rtp_audio_streamer.Base.Int.{ℤ, IsI16}
use rtp_audio_streamer.Host.{Host}
use rtp_audio_streamer.Jitter.{Arithmetic, Options}
use rtp_audio_streamer.Jitter.InOrder.{new-InOrder}
use rtp_audio_streamer.Sender.{CodecName, Sender}
use rtp_audio_streamer.Sender.Payload.{IsWhole}
use rtp_audio_streamer.Sender.Schedule.{frame_count, frame_at}
use rtp_audio_streamer.Sender.Pass.{IsSender}
use rtp_audio_streamer.Receiver.{Timespec}
use rtp_audio_streamer.Receiver.Threads.{System, Reach}
use rtp_audio_streamer.Receiver.Complete.{Reach-Accounted}
use rtp_audio_streamer.Receiver.Provenance.{heard, frame_given}
use rtp_audio_streamer.Pipeline.InTime.{InTime, Played, Step-Played}
use rtp_audio_streamer.Pipeline.Network.{sounded}

module _ {Double : Type 0} (host : Host) (F : Arithmetic Double) (codec : CodecName) (s : Sender)
    (fuel : ℕ) (process_start : Timespec) (idle_timeout_ms : ℤ) where
  -- The datagrams heard are those of the sender from the first on, in order, each in time.
  abbrev pub Lossless :
      {options : Options} {t : System Double}
      → Reach host F process_start idle_timeout_ms options t
      → Type 0
  Lossless Reach.start = Unit
  Lossless (Reach.next r st) =
      Lossless r
      × InTime host F codec s fuel process_start idle_timeout_ms
          (length (heard host F process_start idle_timeout_ms r)) st

  module _ (v : IsSender codec s) (h : All IsI16 s.samples)
      (whole : (i : ℕ) → i < frame_count s.samples → IsWhole host codec (frame_at s.samples i))
      (enough : frame_count s.samples < fuel) (few : frame_count s.samples ≤ 2 ^ 15) where
    pub Reach-Played :
        {options : Options} {t : System Double}
        (r : Reach host F process_start idle_timeout_ms options t)
        → Lossless r
        → Played host F codec s fuel process_start idle_timeout_ms
            (length (heard host F process_start idle_timeout_ms r))
            t
    Reach-Played {options} Reach.start l = record {
      ordered = new-InOrder host F s.header.sequence_number (sounded host F codec s) options;
      frames = λ k below. absurd (omega arith);
    }
    Reach-Played (Reach.next r st) l =
        Step-Played host F codec s fuel process_start idle_timeout_ms v h whole enough few
          (heard host F process_start idle_timeout_ms r) st (l.1)
          (Reach-Accounted host F process_start idle_timeout_ms r) (Reach-Played r (l.0))

  -- A receiver of the sender's byte order hears the sender's datagrams, 32768 at most, from the first
  -- on, in order, each while its frame is less than 32 ahead of the cursor. In every interleaving of
  -- the three threads and at any time: no frame is lost, as many frames have been given as datagrams
  -- heard at most, and frame `k` given is frame `k` of the sender, as the codec reproduces it. (In
  -- ADPCM, the samples of every frame are even in number.)
  pub Lossless-sounded :
      {options : Options} {t : System Double}
      → IsSender codec s
      → All IsI16 s.samples
      → ((i : ℕ) → i < frame_count s.samples → IsWhole host codec (frame_at s.samples i))
      → frame_count s.samples < fuel
      → frame_count s.samples ≤ 2 ^ 15
      → (r : Reach host F process_start idle_timeout_ms options t) → Lossless r
      → (t.jbuf.counts.lost ≡ 0)
        × (length t.given ≤ length (heard host F process_start idle_timeout_ms r))
        × ((k : ℕ) → k < length t.given → frame_given t.given k ≡ sounded host F codec s k)
  Lossless-sounded v h whole enough few r l =
      let o = Reach-Played v h whole enough few r l in
      let played = (Reach-Accounted host F process_start idle_timeout_ms r).played in
      (o.ordered.no_loss, omega (arith, o.ordered.played, played), o.frames)

-- ===== src/Receiver/Report.antt =====
-- The end of `main` of src/receiver.cpp: the threads are joined, the file is written, and the report
-- is made of what they have left.
use Prim.Native.String.{String}
use rtp_audio_streamer.Base.{
  ℕ, ◌≡◌, Bool, inl, inr, Option, none, some, List, [], ◌∷◌, ◌++◌, length, map, if◌then◌else◌,
}
use rtp_audio_streamer.Base.Int.{ℤ, pos}
use rtp_audio_streamer.AudioFormat.{sample_rate_hz}
use rtp_audio_streamer.Host.{Host}
use rtp_audio_streamer.Jitter.{Arithmetic, Counts, Options}
use rtp_audio_streamer.Tools.{Maths}
use rtp_audio_streamer.Udp.{Kernel, SocketError, UdpSocket}
use rtp_audio_streamer.Wav.{write}
use rtp_audio_streamer.Receiver.{Timespec}
use rtp_audio_streamer.Receiver.Threads.{
  stopped, over, System, IsFree, IsDatagram, receive_pass, init, Step, Reach,
}
use rtp_audio_streamer.Receiver.Main.{
  parse_options, default_options, jbuf_options, open_socket, percentile, percentile_int, mean_of,
}
use rtp_audio_streamer.Receiver.Main

-- The line of statistics.
pub record Figures (Double : Type 0) : Type 0 where
  pub latency_median_ms : Double
  pub latency_p95_ms : Double
  pub depth_mean_ms : Double
  pub depth_p95_ms : Double

-- What is written, to the file and to standard error.
pub record Report (Double : Type 0) : Type 0 where
  pub file : List ℕ
  pub samples : ℕ
  pub target_depth_ms : ℕ
  pub counts : Counts
  pub malformed_dropped : ℕ
  pub underruns : ℕ
  pub stats : Option (Figures Double)

-- Where the receive thread stands: before a `receive`, before the look at `playout_done`, or at its
-- end.
pub data ReceiveAt : Type 0 where
  receiving : ReceiveAt
  received : ReceiveAt
  left : ReceiveAt

-- `terminated` is `std::terminate`, where an exception leaves the function of a thread.
pub data Phase (Double : Type 0) : Type 0 where
  running : Phase Double
  terminated : Phase Double
  exited : (status : ℕ) → Option (Report Double) → Phase Double

-- The threads, and the datagrams that have arrived, in order.
pub record Program (Double : Type 0) : Type 0 where
  pub system : System Double
  pub receiver : ReceiveAt
  pub phase : Phase Double
  pub arrived : List (List ℕ)

-- What the report needs besides the threads: `std::sort` of a copy, and the double 0.95.
pub record Statistics (Double : Type 0) : Type 0 where
  pub maths : Maths Double
  pub sort : List ℤ → List ℤ
  pub most : Double

module _ {Double : Type 0} (S : Statistics Double) where
  unfoldable pub figures : System Double → Figures Double
  figures s =
      let latency_ms = s.jbuf.latency_samples_ms in
      let depth_history_ms = map pos s.jbuf.estimate.target_depth_history_ms in
      record {
        latency_median_ms = percentile S.maths S.sort latency_ms S.maths.half;
        latency_p95_ms = percentile S.maths S.sort latency_ms S.most;
        depth_mean_ms = mean_of S.maths depth_history_ms;
        depth_p95_ms = percentile_int S.maths S.sort depth_history_ms S.most;
      }

  unfoldable pub report : Bool → System Double → Report Double
  report collect_stats s = record {
    file = write sample_rate_hz s.samples;
    samples = length s.samples;
    target_depth_ms = s.jbuf.estimate.target_depth_ms;
    counts = s.jbuf.counts;
    malformed_dropped = s.malformed_dropped;
    underruns = s.underruns;
    stats = if collect_stats then some (figures s) else none;
  }

abbrev pub arriving : Option (List ℕ) → List (List ℕ)
arriving none = []
arriving (some d) = d ∷ []

module _ {Double : Type 0} (S : Statistics Double) (host : Host) (process_start : Timespec)
    (idle_timeout_ms : ℤ) (options : Options) where
  abbrev F : Arithmetic Double
  F = S.maths.arithmetic

  -- A step of the playout thread or of the main thread.
  abbrev pub IsOther :
      {s t : System Double} → Step host F process_start idle_timeout_ms s t → Type 0
  IsOther (Step.receive datagram now bytes free) = ⊥
  IsOther (Step.wake now at_wait) = Unit
  IsOther (Step.frame_pushed at_drain e) = Unit
  IsOther (Step.frame_refused at_drain e) = Unit
  IsOther (Step.none_due at_drain e) = Unit
  IsOther (Step.leave at_leave) = Unit
  IsOther (Step.popped at_poll e) = Unit
  IsOther (Step.seen_empty at_poll) = Unit
  IsOther (Step.look at_check) = Unit
  IsOther (Step.last_popped at_last e) = Unit
  IsOther (Step.last_empty at_last e) = Unit

  -- The passes of the receive thread, each with its look at `playout_done`; an error of the socket,
  -- which it does not catch; the other threads; and the end of `main`, which waits for both.
  pub data Act (p : Program Double) : Program Double → Type 0 where
    pass :
        (datagram : Option (List ℕ)) (now : Timespec)
        → p.phase ≡ running
        → p.receiver ≡ receiving
        → IsDatagram datagram
        → IsFree p.system.playout
        → Act p (record p {
          system = receive_pass host F process_start idle_timeout_ms datagram now p.system;
          receiver = received;
          arrived = p.arrived ++ arriving datagram;
        })
    look :
        p.phase ≡ running
        → p.receiver ≡ received
        → Act p (record p { receiver = if p.system.playout_done then left else receiving })
    socket_throws :
        SocketError
        → p.phase ≡ running
        → p.receiver ≡ receiving
        → Act p (record p { phase = terminated })
    other :
        {t : System Double} (st : Step host F process_start idle_timeout_ms p.system t)
        → p.phase ≡ running
        → IsOther st
        → Act p (record p { system = t })
    finish :
        p.phase ≡ running
        → p.system.main ≡ over
        → p.receiver ≡ left
        → p.system.playout ≡ stopped
        → Act p (record p { phase = exited 0 (some (report S options.collect_stats p.system)) })
    file_not_opened :
        p.phase ≡ running
        → p.system.main ≡ over
        → p.receiver ≡ left
        → p.system.playout ≡ stopped
        → Act p (record p { phase = exited 1 none })

  -- From the start of the threads on.
  pub data Acts : Program Double → Type 0 where
    start : Acts (record {
      system = init host F process_start idle_timeout_ms options;
      receiver = receiving;
      phase = running;
      arrived = [];
    })
    next : {p q : Program Double} → Acts p → Act p q → Acts q

  -- The threads of the program are those of Receiver.Threads.
  pub Acts-Reach :
      {p : Program Double} → Acts p → Reach host F process_start idle_timeout_ms options p.system
  Acts-Reach Acts.start = Reach.start
  Acts-Reach (Acts.next a (Act.pass datagram now on at bytes free)) =
      Reach.next (Acts-Reach a) (Step.receive datagram now bytes free)
  Acts-Reach (Acts.next a (Act.look on at)) = Acts-Reach a
  Acts-Reach (Acts.next a (Act.socket_throws e on at)) = Acts-Reach a
  Acts-Reach (Acts.next a (Act.other st on h)) = Reach.next (Acts-Reach a) st
  Acts-Reach (Acts.next a (Act.finish on at_end at stop)) = Acts-Reach a
  Acts-Reach (Acts.next a (Act.file_not_opened on at_end at stop)) = Acts-Reach a

module _ {Double K : Type 0} (S : Statistics Double) (host : Host) (kernel : Kernel K)
    (atoi : String → ℤ) where
  -- `main` from a command line and a system: the usage, an error of the socket that is caught, or the
  -- threads as far as they have come.
  pub data Outcome : List String → K → Phase Double → Type 0 where
    no_path : {k : K} → Outcome [] k (exited 1 none)
    bad_option :
        {output_path : String} {args : List String} {k : K}
        → parse_options atoi args default_options ≡ none
        → Outcome (output_path ∷ args) k (exited 1 none)
    no_socket :
        {output_path : String} {args : List String} {k : K} {o : Main.Options} {e : SocketError}
        → parse_options atoi args default_options ≡ some o
        → (open_socket kernel host o k).0 ≡ inl e
        → Outcome (output_path ∷ args) k (exited 1 none)
    ran :
        {output_path : String} {args : List String} {k : K} {o : Main.Options} {socket : UdpSocket}
        {process_start : Timespec} {p : Program Double} {phase : Phase Double}
        → parse_options atoi args default_options ≡ some o
        → (open_socket kernel host o k).0 ≡ inr socket
        → Acts S host process_start o.idle_timeout_ms (jbuf_options o) p
        → p.phase ≡ phase
        → Outcome (output_path ∷ args) k phase

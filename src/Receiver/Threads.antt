-- ===== src/Receiver/Threads.antt =====
-- The three threads of src/receiver.cpp. A step is what a thread does between two points where
-- another can act: the receive thread and the playout thread hold the mutex of the jitter buffer in
-- turn, the playout thread and the main thread share the ring and the flag `playout_done`.
use rtp_audio_streamer.Base.{
  ℕ, ◌+◌, ◌≡◌, Bool, true, false, Option, none, some, List, [], ◌∷◌, ◌++◌, u64, if◌then◌else◌, All,
}
use rtp_audio_streamer.Base.Int.{ℤ, sub_ℕ, ◌+ℤ◌, ltb_ℤ, divide}
use rtp_audio_streamer.Host.{Host, IsByte}
use rtp_audio_streamer.Ring.{SpscRingBuffer, empty_ring}
use rtp_audio_streamer.Ring
use rtp_audio_streamer.Jitter.{Arithmetic, JitterBuffer, Options, new_buffer}
use rtp_audio_streamer.Jitter.Decode.{silence}
use rtp_audio_streamer.Jitter.Pull.{finished, mark_stream_ended, try_pull_due_frame}
use rtp_audio_streamer.Receiver.{Timespec, scale, samples_since}
use rtp_audio_streamer.Receiver.Playout.{ring_capacity, receive_datagram}

-- Where the playout thread stands: asleep, in the loop that takes due frames at a time in samples,
-- after that loop with the mutex still held, or at its end.
pub data PlayoutAt : Type 0 where
  waiting : PlayoutAt
  draining : (now_samples : ℕ) → PlayoutAt
  leaving : PlayoutAt
  stopped : PlayoutAt

-- Where the main thread stands: before the first `pop`, before the look at `playout_done`, before
-- the final `pop`, or after its loop.
pub data MainAt : Type 0 where
  polling : MainAt
  checking : MainAt
  last_pop : MainAt
  over : MainAt

-- `given` is every frame that a pull gave, in order, with whether the ring took it.
pub record System (Double : Type 0) : Type 0 where
  pub jbuf : JitterBuffer Double
  pub last_activity : Timespec
  pub malformed_dropped : ℕ
  pub ring : SpscRingBuffer (List ℤ)
  pub underruns : ℕ
  pub playout_done : Bool
  pub samples : List ℤ
  pub playout : PlayoutAt
  pub main : MainAt
  pub given : List (Bool × List ℤ)

-- The playout thread does not hold the mutex.
abbrev pub IsFree : PlayoutAt → Type 0
IsFree waiting = Unit
IsFree stopped = Unit
IsFree (draining now) = ⊥
IsFree leaving = ⊥

-- What the socket gives: a timeout, or bytes.
abbrev pub IsDatagram : Option (List ℕ) → Type 0
IsDatagram none = Unit
IsDatagram (some bytes) = All IsByte bytes

unfoldable pub idle_ms : Timespec → Timespec → ℤ
idle_ms now last =
    scale (sub_ℕ now.tv_sec last.tv_sec) 1000 +ℤ divide (sub_ℕ now.tv_nsec last.tv_nsec) 1000000

module _ {Double : Type 0} (host : Host) (F : Arithmetic Double) (process_start : Timespec)
    (idle_timeout_ms : ℤ) where
  -- A pass of the receive thread; `none` is a timeout of the socket.
  unfoldable pub receive_pass : Option (List ℕ) → Timespec → System Double → System Double
  receive_pass (some datagram) now s =
      let now_samples = samples_since process_start now in
      let (jbuf, malformed_dropped) =
        receive_datagram host F datagram now_samples s.jbuf s.malformed_dropped in
      record s { last_activity = now; jbuf = jbuf; malformed_dropped = malformed_dropped }
  receive_pass none now s =
      if ltb_ℤ idle_timeout_ms (idle_ms now s.last_activity)
      then record s { jbuf = mark_stream_ended s.jbuf }
      else s

  -- A frame goes to the ring, which takes it or not; then the test for the end of the stream.
  unfoldable pub give :
      ℕ
      → List ℤ
      → JitterBuffer Double
      → Bool × SpscRingBuffer (List ℤ)
      → System Double
      → System Double
  give now_samples frame jbuf pushed s = record s {
    jbuf = jbuf;
    ring = pushed.1;
    underruns = if pushed.0 then s.underruns else u64 (s.underruns + 1);
    given = s.given ++ ((pushed.0, frame) ∷ []);
    playout = if finished jbuf then leaving else draining now_samples;
  }

  -- A `push` may find the ring full, and the first `pop` may find it empty, by an old value of the
  -- other thread's index. The final `pop` comes after the acquire-load of `playout_done`, which
  -- makes every push before it visible. The clock may read anything, and a pass of the playout thread
  -- may be for any sample number, which is more than the program does; the runs of Receiver/Quiet have
  -- the deadlines and a clock that goes on.
  pub data Step (s : System Double) : System Double → Type 0 where
    receive :
        (datagram : Option (List ℕ)) (now : Timespec)
        → IsDatagram datagram
        → IsFree s.playout
        → Step s (receive_pass datagram now s)
    wake :
        (now_samples : ℕ)
        → s.playout ≡ waiting
        → Step s (record s { playout = draining now_samples })
    frame_pushed :
        {now_samples : ℕ} {frame : List ℤ}
        → s.playout ≡ draining now_samples
        → (try_pull_due_frame host F now_samples s.jbuf).0 ≡ some frame
        → Step s (
            give now_samples frame
              (try_pull_due_frame host F now_samples s.jbuf).1
              (Ring.push silence ring_capacity frame s.ring)
              s)
    frame_refused :
        {now_samples : ℕ} {frame : List ℤ}
        → s.playout ≡ draining now_samples
        → (try_pull_due_frame host F now_samples s.jbuf).0 ≡ some frame
        → Step s (
            give now_samples frame
              (try_pull_due_frame host F now_samples s.jbuf).1
              (false, s.ring)
              s)
    none_due :
        {now_samples : ℕ}
        → s.playout ≡ draining now_samples
        → (try_pull_due_frame host F now_samples s.jbuf).0 ≡ none
        → Step s (record s {
          jbuf = (try_pull_due_frame host F now_samples s.jbuf).1;
          playout = leaving;
        })
    leave :
        s.playout ≡ leaving
        → Step s (record s {
          playout_done = if finished s.jbuf then true else s.playout_done;
          playout = if finished s.jbuf then stopped else waiting;
        })
    popped :
        {frame : List ℤ} {ring : SpscRingBuffer (List ℤ)}
        → s.main ≡ polling
        → Ring.pop silence ring_capacity s.ring ≡ (some frame, ring)
        → Step s (record s { ring = ring; samples = s.samples ++ frame; main = polling })
    seen_empty : s.main ≡ polling → Step s (record s { main = checking })
    look :
        s.main ≡ checking
        → Step s (record s { main = if s.playout_done then last_pop else polling })
    last_popped :
        {frame : List ℤ} {ring : SpscRingBuffer (List ℤ)}
        → s.main ≡ last_pop
        → Ring.pop silence ring_capacity s.ring ≡ (some frame, ring)
        → Step s (record s { ring = ring; samples = s.samples ++ frame; main = polling })
    last_empty :
        {ring : SpscRingBuffer (List ℤ)}
        → s.main ≡ last_pop
        → Ring.pop silence ring_capacity s.ring ≡ (none, ring)
        → Step s (record s { main = over })

  abbrev pub init : Options → System Double
  init options = record {
    jbuf = new_buffer F options;
    last_activity = process_start;
    malformed_dropped = 0;
    ring = empty_ring silence ring_capacity;
    underruns = 0;
    playout_done = false;
    samples = [];
    playout = waiting;
    main = polling;
    given = [];
  }

  pub data Reach (options : Options) : System Double → Type 0 where
    start : Reach options (init options)
    next : {s t : System Double} → Reach options s → Step s t → Reach options t

-- ===== src/Receiver/RunTests.antt =====
-- A run of the three threads: one datagram, a timeout of the socket that ends the stream, a pass of
-- the playout thread, and the main thread that takes the frame and leaves its loop.
use rtp_audio_streamer.Base.{
  ◌≤◌, Bool, true, ◌+◌, ◌*◌, ℕ, refl, ◌≡◌, arith, none, some, List, [], ◌∷◌, length, u64, All,
}
use rtp_audio_streamer.Base.Int.{ℤ, pos, pos_part, neg_part, sub_ℕ, eq_of_parts}
use rtp_audio_streamer.Host.{IsByte, little_endian}
use rtp_audio_streamer.Fixtures.{integers, plain_options, all_bytes-IsByte}
use rtp_audio_streamer.Receiver.{Timespec}
use rtp_audio_streamer.Packet.{parse, read_u16, read_u32}
use rtp_audio_streamer.Ring.{next_index}
use rtp_audio_streamer.Ring
use rtp_audio_streamer.Jitter.Push.{push, place, observe, begin, count_arrival, frame_index_of}
use rtp_audio_streamer.Jitter.Decode.{conceal}
use rtp_audio_streamer.Jitter.Pull.{
  finished, is_due, play, lose, mark_stream_ended, try_pull_due_frame,
}
use rtp_audio_streamer.Receiver.{samples_since}
use rtp_audio_streamer.Receiver.Playout.{receive_datagram}
use rtp_audio_streamer.Receiver.Threads.{
  stopped, over, System, receive_pass, give, idle_ms, init, Step, Reach,
}
use rtp_audio_streamer.Wav.{ReadResult, write, read}
use rtp_audio_streamer.Wav.RoundTrip.{finished_with}
use rtp_audio_streamer.Jitter.Frame.{IsFading}
use rtp_audio_streamer.Receiver.File.{written-read}
use rtp_audio_streamer.Receiver.Exit.{Reach-over}
use rtp_audio_streamer.Receiver.Quiet.{Quiet, enough_polls}
use rtp_audio_streamer.Receiver.Queued.{kept, missed}
use rtp_audio_streamer.Receiver.Complete.{Reach-samples}

abbrev start : Timespec
start = record { tv_sec = 7; tv_nsec = 0 }

abbrev timeout : Timespec
timeout = record { tv_sec = 9; tv_nsec = 5 }

abbrev datagram : List ℕ
datagram = 128 ∷ 0 ∷ 0 ∷ 9 ∷ 0 ∷ 0 ∷ 0 ∷ 0 ∷ 0 ∷ 0 ∷ 0 ∷ 1 ∷ 255 ∷ []

datagram-IsByte : All IsByte datagram
datagram-IsByte = all_bytes-IsByte datagram refl

abbrev Reached : System ℤ → Type 0
Reached = Reach little_endian integers start (pos 500) plain_options

begun : Reached (init little_endian integers start (pos 500) plain_options)
begun = Reach.start

after : {s t : System ℤ} → Reached s → Step little_endian integers start (pos 500) s t → Reached t
after r st = Reach.next r st

finished_run : (s : System ℤ) × Reached s × (s.main ≡ over)
unfolding receive_pass receive_datagram parse read_u16 read_u32 push place observe begin
    count_arrival frame_index_of samples_since mark_stream_ended try_pull_due_frame play lose
    conceal is_due finished give Ring.push Ring.pop next_index idle_ms
finished_run =
    let received = after begun (Step.receive (some datagram) start datagram-IsByte tt) in
    let ended = after received (Step.receive none timeout tt tt) in
    let awake = after ended (Step.wake 16000 refl) in
    let heard = after awake (Step.frame_pushed refl refl) in
    let stopped = after heard (Step.leave refl) in
    let popped = after stopped (Step.popped refl refl) in
    let seen = after popped (Step.seen_empty refl) in
    let looked = after seen (Step.look refl) in (_, after looked (Step.last_empty refl refl), refl)

Reach-samples_example :
    (finished_run.0.playout ≡ stopped)
    × (finished_run.0.samples ≡ kept finished_run.0.given)
    × (length finished_run.0.given ≡ finished_run.0.jbuf.frames_played)
    × (finished_run.0.underruns ≡ u64 (missed finished_run.0.given))
Reach-samples_example =
    Reach-samples little_endian integers start (pos 500) (finished_run.1) (finished_run.2)

abbrev with_packet : System ℤ
with_packet =
    receive_pass little_endian integers start (pos 500) (some datagram) start
      (init little_endian integers start (pos 500) plain_options)

-- A receive thread whose passes take a second each.
abbrev each_second : ℕ → Timespec
each_second k = record { tv_sec = 7 + k; tv_nsec = 0 }

Reach-over_example :
    (polls : ℕ) × (polls ≤ enough_polls (pos 500))
    × (pass : ℕ) × (t : System ℤ) × Quiet little_endian integers start
        (pos 500)
        each_second
        0
        with_packet
        polls
        pass
        t
    × (t.main ≡ over)
unfolding receive_pass
Reach-over_example =
    Reach-over little_endian integers start (pos 500) {origin = with_packet}
      (after begun (Step.receive (some datagram) start datagram-IsByte tt)) each_second 0
      (omega arith) (λ k. omega arith)

times_one : (x : ℤ) → sub_ℕ (pos_part x * 1 + neg_part x * 0) (pos_part x * 0 + neg_part x * 1) ≡ x
times_one x = eq_of_parts _ _ (ground arith)

integers-IsFading : IsFading integers
integers-IsFading = record { fades = λ n x h. rw (times_one x) h }

abbrev any_seek : ℕ → Bool
any_seek skip = true

written-read_example :
    (read any_seek (write 8000 finished_run.0.samples)
      ≡ ReadResult.ok (finished_with 8000 finished_run.0.samples))
    × (length finished_run.0.samples + 160 * missed finished_run.0.given
        ≡ 160 * finished_run.0.jbuf.frames_played)
written-read_example =
    written-read little_endian integers start (pos 500) integers-IsFading any_seek (finished_run.1)
      (finished_run.2)

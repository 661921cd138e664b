-- ===== src/Receiver/ReportTests.antt =====
-- A run of the whole program: one datagram, a timeout that ends the stream, the playout thread, the
-- main thread, and a last timeout after which the receive thread leaves its loop.
use Prim.Native.String.{String}
use rtp_audio_streamer.Receiver.Main.{parse_options, default_options, open_socket}
use rtp_audio_streamer.Udp.Listen.{listen}
use rtp_audio_streamer.Udp.{new_socket, bind_to, set_receive_timeout}
use rtp_audio_streamer.Base.{◌⊎◌, ℕ, refl, ◌≡◌, none, some, List, [], ◌∷◌}
use rtp_audio_streamer.Base.Int.{ℤ, pos}
use rtp_audio_streamer.Host.{little_endian}
use rtp_audio_streamer.Fixtures.{plain_options, all_bytes-IsByte, whole_numbers, network}
use rtp_audio_streamer.Receiver.{Timespec, samples_since}
use rtp_audio_streamer.Packet.{parse, read_u16, read_u32}
use rtp_audio_streamer.Ring.{next_index}
use rtp_audio_streamer.Ring
use rtp_audio_streamer.Jitter.Push.{push, place, observe, begin, count_arrival, frame_index_of}
use rtp_audio_streamer.Jitter.Decode.{conceal}
use rtp_audio_streamer.Jitter.Pull.{
  finished, is_due, play, lose, mark_stream_ended, try_pull_due_frame,
}
use rtp_audio_streamer.Receiver.Playout.{receive_datagram}
use rtp_audio_streamer.Receiver.Threads.{receive_pass, give, idle_ms, Step}
use rtp_audio_streamer.Receiver.Report.{Statistics, Report, exited, Program, Act, Acts, Outcome}
use rtp_audio_streamer.Receiver.Reported.{Reported, main_exit}

abbrev start : Timespec
start = record { tv_sec = 7; tv_nsec = 0 }

abbrev timeout : Timespec
timeout = record { tv_sec = 9; tv_nsec = 5 }

abbrev datagram : List ℕ
datagram = 128 ∷ 0 ∷ 0 ∷ 9 ∷ 0 ∷ 0 ∷ 0 ∷ 0 ∷ 0 ∷ 0 ∷ 0 ∷ 1 ∷ 255 ∷ []

abbrev statistics : Statistics ℤ
statistics = record { maths = whole_numbers; sort = λ xs. xs; most = pos 1 }

abbrev Reached : Program ℤ → Type 0
Reached = Acts statistics little_endian start (pos 500) plain_options

abbrev after :
    {p q : Program ℤ}
    → Reached p
    → Act statistics little_endian start (pos 500) plain_options p q
    → Reached q
after r st = Acts.next r st

abbrev exit_status : ℕ
exit_status = 0

exited_run : (p : Program ℤ) × Reached p × (r : Report ℤ) × (p.phase ≡ exited exit_status (some r))
unfolding receive_pass receive_datagram parse read_u16 read_u32 push place observe begin
    count_arrival frame_index_of samples_since mark_stream_ended try_pull_due_frame play lose
    conceal is_due finished give Ring.push Ring.pop next_index idle_ms
exited_run =
    let heard =
      after Acts.start
        (Act.pass (some datagram) start refl refl (all_bytes-IsByte datagram refl) tt) in
    let again = after heard (Act.look refl refl) in
    let ended = after again (Act.pass none timeout refl refl tt tt) in
    let again = after ended (Act.look refl refl) in
    let awake = after again (Act.other (Step.wake 16000 refl) refl tt) in
    let given = after awake (Act.other (Step.frame_pushed refl refl) refl tt) in
    let stopped = after given (Act.other (Step.leave refl) refl tt) in
    let popped = after stopped (Act.other (Step.popped refl refl) refl tt) in
    let seen = after popped (Act.other (Step.seen_empty refl) refl tt) in
    let looked = after seen (Act.other (Step.look refl) refl tt) in
    let drained = after looked (Act.other (Step.last_empty refl refl) refl tt) in
    let last = after drained (Act.pass none timeout refl refl tt tt) in
    let left = after last (Act.look refl refl) in
    (_, after left (Act.finish refl refl refl refl), _, refl)

abbrev number_of : String → ℤ
number_of text = pos 5004

abbrev argv : List String
argv = "out.wav" ∷ []

outcome :
    Outcome statistics little_endian network number_of argv []
      (exited exit_status (some (exited_run.2)))
unfolding parse_options open_socket listen new_socket bind_to set_receive_timeout
outcome = Outcome.ran {o = default_options} refl refl (exited_run.1) (exited_run.3)

main_exit_example :
    ((exit_status ≡ 1) × (some (exited_run.2) ≡ none))
    ⊎ ((exit_status ≡ 0)
        × (r : Report ℤ) × (some (exited_run.2) ≡ some r)
        × Reported statistics little_endian network number_of argv [] r)
main_exit_example =
    main_exit statistics little_endian network number_of (some (exited_run.2)) outcome

-- ===== src/Receiver/Exit.antt =====
-- The receiver of src/receiver.cpp comes to its end when no more datagrams come.
use rtp_audio_streamer.Base.{
  ℕ, zero, suc, ◌+◌, ◌^◌, ◌≤◌, ◌*◌, ◌/◌, ◌≡◌, refl, ap, ◌∙◌, arith, true, Bool-cases, inl, inr,
  none,
}
use rtp_audio_streamer.Base.Int.{ℤ, pos_part, ltb_ℤ}
use rtp_audio_streamer.Host.{Host}
use rtp_audio_streamer.Jitter.{Arithmetic, Options}
use rtp_audio_streamer.Jitter.Pull.{finished, mark_stream_ended}
use rtp_audio_streamer.Receiver.{Timespec}
use rtp_audio_streamer.Receiver.Clock.{total_ns}
use mathlib.Core.Path.{subst}
use rtp_audio_streamer.Receiver.Threads.{
  PlayoutAt, waiting, draining, leaving, stopped, over, System, idle_ms, receive_pass, Reach,
}
use rtp_audio_streamer.Receiver.Quiet.{
  Quiet, poll_kept, no_activity, enough_polls, idle_enough, clock_later,
}
use rtp_audio_streamer.Receiver.Leaving

module _ {Double : Type 0} (host : Host) (F : Arithmetic Double) (process_start : Timespec)
    (idle_timeout_ms : ℤ) {options : Options} {origin : System Double}
    (reach : Reach host F process_start idle_timeout_ms options origin) (clock : ℕ → Timespec)
    (first_pass : ℕ) where
  abbrev Reached : ℕ → System Double → Type 0
  Reached = Leaving.Reached host F process_start idle_timeout_ms reach clock first_pass

  -- Passes that time out, while the playout thread sleeps.
  polled :
      (n : ℕ) {s : System Double}
      → Reached 0 s
      → s.playout ≡ waiting
      → (t : System Double) × Reached n t × (t.playout ≡ waiting)
  polled zero {s} r at_rest = (s, r, at_rest)
  polled (suc n) r at_rest =
      let (t, r', here) = polled n r at_rest in
      (
        receive_pass host F process_start idle_timeout_ms none (clock n) t,
        (r'.0, Quiet.poll (r'.1) (rw here tt)),
        (poll_kept host F process_start idle_timeout_ms (clock n) t).1 ∙ here,
      )

  late_poll :
      (now : Timespec) (t : System Double)
      → ltb_ℤ idle_timeout_ms (idle_ms now t.last_activity) ≡ true
      → (receive_pass host F process_start idle_timeout_ms none now t).jbuf.stream_ended ≡ true
  unfolding receive_pass mark_stream_ended
  late_poll now t late = rw (receive_pass, late) refl

  module _ (begun : total_ns origin.last_activity ≤ total_ns (clock 0))
      (paced : (k : ℕ) → total_ns (clock k) + 5 * 1000000 ≤ total_ns (clock (suc k))) where
    timed_out :
        {s : System Double}
        → Reached 0 s
        → s.playout ≡ waiting
        → (t : System Double) × Reached (enough_polls idle_timeout_ms) t
          × (t.playout ≡ waiting)
          × (t.jbuf.stream_ended ≡ true)
    timed_out r at_rest =
        let n = pos_part idle_timeout_ms / 5 + 1 in
        let (t, r', here) = polled n r at_rest in
        let inactive = no_activity host F process_start idle_timeout_ms (r'.1) in
        let past = clock_later clock n paced in
        let late =
          idle_enough idle_timeout_ms (clock n) t.last_activity
            (omega (arith, past, begun, ap total_ns inactive)) in
        (
          receive_pass host F process_start idle_timeout_ms none (clock n) t,
          (
            r'.0,
            subst
                (λ m.
                  Quiet host F process_start idle_timeout_ms clock first_pass origin m (r'.0)
                    (receive_pass host F process_start idle_timeout_ms none (clock n) t))
                (omega arith) (Quiet.poll (r'.1) (rw here tt)),
          ),
          (poll_kept host F process_start idle_timeout_ms (clock n) t).1 ∙ here,
          late_poll (clock n) t late,
        )

    -- The main thread is out of its loop after few polls.
    abbrev Over : Type 0
    Over =
        (polls : ℕ) × (polls ≤ enough_polls idle_timeout_ms)
        × Leaving.Ends host F process_start idle_timeout_ms reach clock first_pass polls

    waiting_goes_on : {s : System Double} → Reached 0 s → s.playout ≡ waiting → Over
    waiting_goes_on r at_rest =
        let (t, r', here, ended) = timed_out r at_rest in
        (
          enough_polls idle_timeout_ms,
          omega arith,
          Leaving.ended_goes_on host F process_start idle_timeout_ms reach clock first_pass r' here
              ended,
        )

    leaving_goes_on : {s : System Double} → Reached 0 s → s.playout ≡ leaving → Over
    leaving_goes_on {s} r at_leave =
        let (t, r', at_end) =
          Leaving.pass_end host F process_start idle_timeout_ms reach clock first_pass r at_leave in
        elim (Bool-cases (finished s.jbuf)) [
          | inl done ↦ (
            0,
            omega arith,
            Leaving.stopped_goes_on host F process_start idle_timeout_ms reach clock first_pass r'
                (at_end ∙ rw done refl),
          )
          | inr more ↦ waiting_goes_on r' (at_end ∙ rw more refl)
        ]

    playout_goes_on : {s : System Double} (p : PlayoutAt) → Reached 0 s → s.playout ≡ p → Over
    playout_goes_on waiting r here = waiting_goes_on r here
    playout_goes_on (draining now) r here =
        let (t, r', at_leave, done) =
          Leaving.drained host F process_start idle_timeout_ms reach clock first_pass (suc (2 ^ 15))
            now r here (omega arith) in
        leaving_goes_on r' at_leave
    playout_goes_on leaving r here = leaving_goes_on r here
    playout_goes_on stopped r here = (
      0,
      omega arith,
      Leaving.stopped_goes_on host F process_start idle_timeout_ms reach clock first_pass r here,
    )

    -- From every state that the three threads can reach, when no more datagrams come: the passes of the
    -- receive thread time out and read the clock, first not before the last activity, and then each 5 ms
    -- after the one before or later; the playout thread wakes at its own deadlines, whichever pass is its
    -- next. Then the three threads have a run from there, of such passes and of their other steps, with
    -- `idle_timeout_ms / 5 + 2` passes of the receive thread at most (that timeout, or 0 where it is
    -- negative), after which the main thread is out of its loop.
    pub Reach-over :
        (polls : ℕ) × (polls ≤ enough_polls idle_timeout_ms)
        × (pass : ℕ) × (t : System Double) × Quiet host F process_start idle_timeout_ms clock
            first_pass origin polls pass t
        × (t.main ≡ over)
    Reach-over =
        let over_there = playout_goes_on origin.playout (first_pass, Quiet.stay) refl in
        let ends = over_there.2 in (over_there.0, over_there.1, ends.1.0, ends.0, ends.1.1, ends.2)

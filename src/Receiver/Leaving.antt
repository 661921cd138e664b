-- ===== src/Receiver/Leaving.antt =====
-- From a pass of the playout thread of src/receiver.cpp to the end of the main thread.
use rtp_audio_streamer.Base.{
  ℕ, zero, suc, ◌+◌, ◌^◌, ◌<◌, ◌≡◌, refl, ap, ◌∙◌, arith, true, Bool-cases, inl, inr, some, List,
  [], ◌∷◌, if◌then◌else◌,
}
use rtp_audio_streamer.Base.Int.{ℤ}
use rtp_audio_streamer.Host.{Host}
use rtp_audio_streamer.Ring.Queue.{pop_empty, pop_next, Holds-pop}
use rtp_audio_streamer.Jitter.{Arithmetic, Options}
use rtp_audio_streamer.Jitter.Decode.{silence}
use rtp_audio_streamer.Jitter.Pull.{is_due, finished, try_pull_due_frame, pull_not_due}
use rtp_audio_streamer.Jitter.Inv.{few_played}
use rtp_audio_streamer.Jitter.Playback.{pull-kept}
use rtp_audio_streamer.Receiver.{Timespec}
use rtp_audio_streamer.Receiver.Playout.{ring_capacity, given}
use rtp_audio_streamer.Receiver.Finish.{ended_wait, pull-end}
use rtp_audio_streamer.Receiver.Threads.{
  waiting, draining, leaving, stopped, MainAt, polling, checking, last_pop, over, System, give,
  Step, Reach,
}
use rtp_audio_streamer.Receiver.Queued.{ring_capacity-IsCapacity, Queued}
use rtp_audio_streamer.Receiver.Quiet.{IsInner, Quiet, Quiet-Reach}
use rtp_audio_streamer.Receiver.Account.{Accounted}
use rtp_audio_streamer.Receiver.Complete.{Reach-Accounted}

module _ {Double : Type 0} (host : Host) (F : Arithmetic Double) (process_start : Timespec)
    (idle_timeout_ms : ℤ) {options : Options} {origin : System Double}
    (reach : Reach host F process_start idle_timeout_ms options origin) (clock : ℕ → Timespec)
    (first_pass : ℕ) where
  abbrev pub Reached : ℕ → System Double → Type 0
  Reached polls s =
      (pass : ℕ) × Quiet host F process_start idle_timeout_ms clock first_pass origin polls pass s

  go :
      {polls : ℕ} {s t : System Double}
      → Reached polls s
      → (st : Step host F process_start idle_timeout_ms s t)
      → IsInner host F process_start idle_timeout_ms st
      → Reached polls t
  go r st in_pass = (r.0, Quiet.inner (r.1) st in_pass)

  abbrev account :
      {polls : ℕ} {s : System Double}
      → Reached polls s
      → Accounted host F process_start idle_timeout_ms s
  account r =
      Reach-Accounted host F process_start idle_timeout_ms
        (Quiet-Reach host F process_start idle_timeout_ms reach (r.1))

  -- A run that goes on to the end of the main thread.
  abbrev pub Ends : ℕ → Type 0
  Ends polls = (t : System Double) × Reached polls t × (t.main ≡ over)

  -- Once the playout thread is done, the main thread empties the ring and leaves.
  last_look :
      (q : List (List ℤ)) {polls : ℕ} {s : System Double}
      → Reached polls s
      → Queued s.ring q
      → s.playout_done ≡ true
      → s.main ≡ polling
      → Ends polls
  last_look [] r h done at_poll =
      let looking = go (go r (Step.seen_empty at_poll) tt) (Step.look refl) tt in
      (
        _,
        go looking
            (Step.last_empty (rw done refl)
              (pop_empty silence ring_capacity ring_capacity-IsCapacity h))
            tt,
        refl,
      )
  last_look (x ∷ q) r h done at_poll =
      last_look q
        (go r (Step.popped at_poll (pop_next silence ring_capacity ring_capacity-IsCapacity h)) tt)
        (Holds-pop silence ring_capacity ring_capacity-IsCapacity h) done refl

  at_last_pop :
      {polls : ℕ} {s : System Double} (q : List (List ℤ))
      → Reached polls s
      → Queued s.ring q
      → s.playout_done ≡ true
      → s.main ≡ last_pop
      → Ends polls
  at_last_pop [] r h done at_last = (
    _,
    go r (Step.last_empty at_last (pop_empty silence ring_capacity ring_capacity-IsCapacity h)) tt,
    refl,
  )
  at_last_pop (x ∷ q) r h done at_last =
      last_look q
        (go r (Step.last_popped at_last (pop_next silence ring_capacity ring_capacity-IsCapacity h))
          tt)
        (Holds-pop silence ring_capacity ring_capacity-IsCapacity h) done refl

  main_goes_on :
      {polls : ℕ} {s : System Double} (m : MainAt)
      → Reached polls s
      → s.playout_done ≡ true
      → s.main ≡ m
      → Ends polls
  main_goes_on polling r done here = let v = account r in last_look v.queue r v.queued done here
  main_goes_on checking r done here =
      let v = account r in
      at_last_pop v.queue (go r (Step.look here) tt) v.queued done (rw done refl)
  main_goes_on last_pop r done here = let v = account r in at_last_pop v.queue r v.queued done here
  main_goes_on {s = s} over r done here = (s, r, here)

  -- The loop of the playout thread comes to its end, and finishes a stream that has ended.
  abbrev pub Leaves : ℕ → System Double → Type 0
  Leaves polls s =
      (t : System Double) × Reached polls t
      × (t.playout ≡ leaving)
      × (s.jbuf.stream_ended ≡ true → finished t.jbuf ≡ true)

  frame_step :
      {polls : ℕ} {s : System Double} (now : ℕ) (frame : List ℤ)
      → Reached polls s
      → s.playout ≡ draining now
      → (try_pull_due_frame host F now s.jbuf).0 ≡ some frame
      → (t : System Double) × Reached polls t
        × (t.jbuf ≡ (try_pull_due_frame host F now s.jbuf).1)
        × (t.playout
            ≡ (if finished (try_pull_due_frame host F now s.jbuf).1 then leaving else draining now))
  unfolding give
  frame_step now frame r at_drain e = (_, go r (Step.frame_pushed at_drain e) tt, refl, refl)

  pub drained :
      (fuel now : ℕ) {polls : ℕ} {s : System Double}
      → Reached polls s
      → s.playout ≡ draining now
      → 2 ^ 15 < fuel + s.jbuf.frames_played
      → Leaves polls s
  drained zero now {s = s} r at_drain enough =
      absurd (omega (arith, few_played s.jbuf (account r).well_formed))
  drained (suc fuel) now {s = s} r at_drain enough =
      let v = (account r).well_formed in
      elim (Bool-cases (is_due now s.jbuf)) [
        | inr wait ↦
            let same = pull_not_due host F now s.jbuf wait in
            (
              _,
              go r (Step.none_due at_drain (ap (λ t. t.0) same)) tt,
              refl,
              λ ended. ap finished (ap (λ t. t.1) same) ∙ ended_wait host F now s.jbuf ended wait,
            )
        | inl due ↦
            let g = given host F now s.jbuf due in
            let (t, r', jbuf, at_t) = frame_step now g.0 r at_drain g.1 in
            let one = rw due at (pull-kept host F now s.jbuf v).0 in
            let same = (pull-end host F now s.jbuf).0 in
            elim (Bool-cases (finished (try_pull_due_frame host F now s.jbuf).1)) [
              | inl done ↦ (t, r', at_t ∙ rw done refl, λ ended. ap finished jbuf ∙ done)
              | inr more ↦
                  let rest =
                    drained fuel now {s = t} r' (at_t ∙ rw more refl)
                      (omega (arith, one, ap (λ b. b.frames_played) jbuf)) in
                  (
                    rest.0,
                    rest.1,
                    rest.2,
                    λ ended. rest.3 (ap (λ b. b.stream_ended) jbuf ∙ same ∙ ended),
                  )
            ]
      ]

  start_loop :
      {polls : ℕ} {s : System Double} → Reached polls s → s.playout ≡ waiting → Leaves polls s
  start_loop r at_rest =
      drained (suc (2 ^ 15)) _ (suc (r.0), Quiet.wake (r.1) at_rest) refl (omega arith)

  -- A state that the playout thread leaves its loop from leads to the end of the pass.
  pub pass_end :
      {polls : ℕ} {s : System Double}
      → Reached polls s
      → s.playout ≡ leaving
      → (t : System Double) × Reached polls t
        × (t.playout ≡ (if finished s.jbuf then stopped else waiting))
  pass_end r at_leave = (_, go r (Step.leave at_leave) tt, refl)

  pub stopped_goes_on :
      {polls : ℕ} {s : System Double} → Reached polls s → s.playout ≡ stopped → Ends polls
  stopped_goes_on {s = s} r at_stop = main_goes_on s.main r ((account r).ends at_stop) refl

  pub ended_goes_on :
      {polls : ℕ} {s : System Double}
      → Reached polls s
      → s.playout ≡ waiting
      → s.jbuf.stream_ended ≡ true
      → Ends polls
  ended_goes_on r at_rest ended =
      let (t, r', at_leave, done) = start_loop r at_rest in
      let (u, r'', at_stop) = pass_end r' at_leave in
      stopped_goes_on r'' (at_stop ∙ rw (done ended) refl)

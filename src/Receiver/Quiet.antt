-- ===== src/Receiver/Quiet.antt =====
-- Runs of the receiver of src/receiver.cpp in which no datagram comes.
use rtp_audio_streamer.Base.{
  ℕ, zero, suc, ◌+◌, ◌≤◌, ◌*◌, ◌/◌, ◌≡◌, refl, ◌∙◌, arith, true, Bool-cases, inl, inr, none,
}
use rtp_audio_streamer.Base.Int.{ℤ, pos_part, ltb_ℤ}
use rtp_audio_streamer.Host.{Host}
use rtp_audio_streamer.Jitter.{Arithmetic, Options}
use rtp_audio_streamer.Receiver.{Timespec, samples_since, playout_deadline}
use rtp_audio_streamer.Receiver.Clock.{total_ns}
use rtp_audio_streamer.Receiver.Threads.{
  IsFree, waiting, draining, System, idle_ms, receive_pass, give, Step, Reach,
}

module _ {Double : Type 0} (host : Host) (F : Arithmetic Double) (process_start : Timespec)
    (idle_timeout_ms : ℤ) where
  -- A step that reads no clock.
  abbrev pub IsInner :
      {s t : System Double} → Step host F process_start idle_timeout_ms s t → Type 0
  IsInner (Step.receive datagram now bytes free) = ⊥
  IsInner (Step.wake now at_wait) = ⊥
  IsInner (Step.frame_pushed at_drain e) = Unit
  IsInner (Step.frame_refused at_drain e) = Unit
  IsInner (Step.none_due at_drain e) = Unit
  IsInner (Step.leave at_leave) = Unit
  IsInner (Step.popped at_poll e) = Unit
  IsInner (Step.seen_empty at_poll) = Unit
  IsInner (Step.look at_check) = Unit
  IsInner (Step.last_popped at_last e) = Unit
  IsInner (Step.last_empty at_last e) = Unit

  -- The steps from a state on in which no datagram comes: `polls` passes of the receive thread that
  -- time out, which read `clock` one by one, and passes of the playout thread, each of which wakes at
  -- its own deadline; `pass` of them have begun since the start of the process.
  pub data Quiet (clock : ℕ → Timespec) (first_pass : ℕ) (s : System Double)
      : ℕ → ℕ → System Double → Type 0 where
    stay : Quiet clock first_pass s 0 first_pass s
    poll :
        {polls pass : ℕ} {t : System Double}
        → Quiet clock first_pass s polls pass t
        → IsFree t.playout
        → Quiet clock first_pass s
            (suc polls)
            pass
            (receive_pass host F process_start idle_timeout_ms none (clock polls) t)
    wake :
        {polls pass : ℕ} {t : System Double}
        → Quiet clock first_pass s polls pass t
        → t.playout ≡ waiting
        → Quiet clock first_pass s polls (suc pass) (record t {
          playout =
              draining (samples_since process_start (playout_deadline process_start (suc pass)));
        })
    inner :
        {polls pass : ℕ} {t u : System Double}
        → Quiet clock first_pass s polls pass t
        → (st : Step host F process_start idle_timeout_ms t u) → IsInner st
        → Quiet clock first_pass s polls pass u

  pub Quiet-Reach :
      {options : Options} {clock : ℕ → Timespec} {first_pass : ℕ} {s : System Double}
      {polls pass : ℕ} {t : System Double}
      → Reach host F process_start idle_timeout_ms options s
      → Quiet clock first_pass s polls pass t
      → Reach host F process_start idle_timeout_ms options t
  Quiet-Reach r Quiet.stay = r
  Quiet-Reach {clock = clock} r (Quiet.poll {polls = n} q free) =
      Reach.next (Quiet-Reach r q) (Step.receive none (clock n) tt free)
  Quiet-Reach r (Quiet.wake q at_wait) = Reach.next (Quiet-Reach r q) (Step.wake _ at_wait)
  Quiet-Reach r (Quiet.inner q st in_pass) = Reach.next (Quiet-Reach r q) st

  -- A pass that times out.
  pub poll_kept :
      (now : Timespec) (t : System Double)
      → let u = receive_pass host F process_start idle_timeout_ms none now t in
        (u.last_activity ≡ t.last_activity) × (u.playout ≡ t.playout)
  unfolding receive_pass
  poll_kept now t = elim (Bool-cases (ltb_ℤ idle_timeout_ms (idle_ms now t.last_activity))) [
    | inl idle ↦ rw (receive_pass, idle) (refl, refl)
    | inr busy ↦ rw (receive_pass, busy) (refl, refl)
  ]

  inner_kept :
      {s t : System Double} (st : Step host F process_start idle_timeout_ms s t)
      → IsInner st
      → t.last_activity ≡ s.last_activity
  unfolding give
  inner_kept (Step.receive datagram now bytes free) in_pass = absurd in_pass
  inner_kept (Step.wake now at_wait) in_pass = absurd in_pass
  inner_kept (Step.frame_pushed at_drain e) in_pass = refl
  inner_kept (Step.frame_refused at_drain e) in_pass = refl
  inner_kept (Step.none_due at_drain e) in_pass = refl
  inner_kept (Step.leave at_leave) in_pass = refl
  inner_kept (Step.popped at_poll e) in_pass = refl
  inner_kept (Step.seen_empty at_poll) in_pass = refl
  inner_kept (Step.look at_check) in_pass = refl
  inner_kept (Step.last_popped at_last e) in_pass = refl
  inner_kept (Step.last_empty at_last e) in_pass = refl

  -- Without datagrams there is no activity.
  pub no_activity :
      {clock : ℕ → Timespec} {first_pass : ℕ} {s : System Double} {polls pass : ℕ}
      {t : System Double}
      → Quiet clock first_pass s polls pass t
      → t.last_activity ≡ s.last_activity
  no_activity Quiet.stay = refl
  no_activity {clock = clock} (Quiet.poll {polls = n} {t = t} q free) =
      (poll_kept (clock n) t).0 ∙ no_activity q
  no_activity (Quiet.wake q at_wait) = no_activity q
  no_activity (Quiet.inner q st in_pass) = inner_kept st in_pass ∙ no_activity q

-- The passes that time out until the last is more than the idle timeout after any activity.
abbrev pub enough_polls : ℤ → ℕ
enough_polls idle_timeout_ms = pos_part idle_timeout_ms / 5 + 2

pub idle_enough :
    (idle_timeout_ms : ℤ) (now last : Timespec)
    → total_ns last + (pos_part idle_timeout_ms + 1) * 1000000 ≤ total_ns now
    → ltb_ℤ idle_timeout_ms (idle_ms now last) ≡ true
unfolding idle_ms
idle_enough idle_timeout_ms now last h = ground (arith, h)

pub clock_later :
    (clock : ℕ → Timespec) (n : ℕ)
    → ((k : ℕ) → total_ns (clock k) + 5 * 1000000 ≤ total_ns (clock (suc k)))
    → total_ns (clock 0) + n * 5 * 1000000 ≤ total_ns (clock n)
clock_later clock zero paced = omega arith
clock_later clock (suc n) paced = omega (arith, clock_later clock n paced, paced n)

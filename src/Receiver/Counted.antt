-- ===== src/Receiver/Counted.antt =====
-- Every datagram that arrives at src/receiver.cpp is counted, as a packet or as malformed.
use rtp_audio_streamer.Base.{
  ℕ, ◌+◌, ◌≡◌, refl, arith, Bool-cases, Option-cases, inl, inr, Option, none, some, List, [], ◌∷◌,
  ◌++◌, length, u64, length-append,
}
use mathlib.Core.List.{append-nil}
use rtp_audio_streamer.Base.Int.{ℤ, ltb_ℤ}
use rtp_audio_streamer.Host.{Host}
use rtp_audio_streamer.Packet.{parse}
use rtp_audio_streamer.Jitter.{Arithmetic, JitterBuffer, Options}
use rtp_audio_streamer.Jitter.Push.{Arrival, push, place, observe, begin, count_arrival}
use rtp_audio_streamer.Jitter.Decode.{conceal}
use rtp_audio_streamer.Jitter.Pull.{
  is_due, has_packet, play, lose, try_pull_due_frame, pull_not_due, pull_play, pull_lose,
  mark_stream_ended,
}
use rtp_audio_streamer.Receiver.{Timespec}
use rtp_audio_streamer.Receiver.Playout.{receive_datagram, arrival_of}
use rtp_audio_streamer.Receiver.Threads.{System, idle_ms, receive_pass, give, Step}
use rtp_audio_streamer.Receiver.Report.{Program, Statistics, arriving, IsOther, Act, Acts}

module _ {Double : Type 0} (host : Host) (F : Arithmetic Double) where
  push-received :
      (a : Arrival) (jb : JitterBuffer Double)
      → (push F a jb).counts.received ≡ u64 (jb.counts.received + 1)
  unfolding push place observe begin count_arrival
  push-received a jb = ground arith

  pull-received :
      (now : ℕ) (jb : JitterBuffer Double)
      → (try_pull_due_frame host F now jb).1.counts.received ≡ jb.counts.received
  unfolding play lose conceal
  pull-received now jb = elim (Bool-cases (is_due now jb)) [
    | inr wait ↦ rw (pull_not_due host F now jb wait) refl
    | inl due ↦ elim (Bool-cases (has_packet jb)) [
      | inl there ↦ rw (pull_play host F now jb due there) refl
      | inr gone ↦ rw (pull_lose host F now jb due gone) refl
    ]
  ]

module _ {Double : Type 0} (S : Statistics Double) (host : Host) (process_start : Timespec)
    (idle_timeout_ms : ℤ) (options : Options) where
  abbrev F : Arithmetic Double
  F = S.maths.arithmetic

  -- The packets and the malformed datagrams, against those that arrived.
  abbrev pub Counted : System Double → List (List ℕ) → Type 0
  Counted s arrived = u64 (s.jbuf.counts.received + s.malformed_dropped) ≡ u64 (length arrived)

  pass-Counted :
      (datagram : Option (List ℕ)) (now : Timespec) (s : System Double) (arrived : List (List ℕ))
      → Counted s arrived
      → Counted
          (receive_pass host F process_start idle_timeout_ms datagram now s)
          (arrived ++ arriving datagram)
  unfolding receive_pass receive_datagram mark_stream_ended
  pass-Counted none now s arrived v =
      elim (Bool-cases (ltb_ℤ idle_timeout_ms (idle_ms now s.last_activity))) [
        | inl idle ↦ rw (receive_pass, idle, append-nil arrived) v
        | inr busy ↦ rw (receive_pass, busy, append-nil arrived) v
      ]
  pass-Counted (some d) now s arrived v = elim (Option-cases (parse host d)) [
    | inl bad ↦ rw (receive_datagram, bad) (omega (arith, v, length-append arrived (d ∷ [])))
    | inr (p, good) ↦
        rw (receive_datagram, good, push-received host F (arrival_of host F p _) s.jbuf)
          (omega (arith, v, length-append arrived (d ∷ [])))
  ]

  step-Counted :
      {s t : System Double} (st : Step host F process_start idle_timeout_ms s t)
      (arrived : List (List ℕ))
      → IsOther S host process_start idle_timeout_ms options st
      → Counted s arrived
      → Counted t arrived
  unfolding give
  step-Counted (Step.receive datagram now bytes free) arrived h v = absurd h
  step-Counted (Step.wake now at_wait) arrived h v = v
  step-Counted {s} (Step.frame_pushed {now_samples = now} at_drain e) arrived h v =
      rw (pull-received host F now s.jbuf) v
  step-Counted {s} (Step.frame_refused {now_samples = now} at_drain e) arrived h v =
      rw (pull-received host F now s.jbuf) v
  step-Counted {s} (Step.none_due {now_samples = now} at_drain e) arrived h v =
      rw (pull-received host F now s.jbuf) v
  step-Counted (Step.leave at_leave) arrived h v = v
  step-Counted (Step.popped at_poll e) arrived h v = v
  step-Counted (Step.seen_empty at_poll) arrived h v = v
  step-Counted (Step.look at_check) arrived h v = v
  step-Counted (Step.last_popped at_last e) arrived h v = v
  step-Counted (Step.last_empty at_last e) arrived h v = v

  pub Acts-Counted :
      {p : Program Double}
      → Acts S host process_start idle_timeout_ms options p
      → Counted p.system p.arrived
  Acts-Counted Acts.start = refl
  Acts-Counted (Acts.next {p} a (Act.pass datagram now on at bytes free)) =
      pass-Counted datagram now p.system p.arrived (Acts-Counted a)
  Acts-Counted (Acts.next a (Act.look on at)) = Acts-Counted a
  Acts-Counted (Acts.next a (Act.socket_throws e on at)) = Acts-Counted a
  Acts-Counted (Acts.next {p} a (Act.other st on h)) = step-Counted st p.arrived h (Acts-Counted a)
  Acts-Counted (Acts.next a (Act.finish on at_end at stop)) = Acts-Counted a
  Acts-Counted (Acts.next a (Act.file_not_opened on at_end at stop)) = Acts-Counted a

-- ===== src/Receiver/Provenance.antt =====
-- Where the frames come from that the playout thread of src/receiver.cpp takes, in terms of the
-- datagrams that its receive thread was given.
use rtp_audio_streamer.Base.{
  ℕ, ◌+◌, ◌<◌, ◌≡◌, refl, sym, ap, ◌∙◌, arith, Bool, true, false, Bool-cases, Option-cases, inl,
  inr, Option, none, some, List, [], ◌∷◌, ◌++◌, length, u16, get_or, get_or-append_left,
  get_or-append_end, length-append, All, All-split,
}
use mathlib.Core.Path.{subst}
use native.Mathlib.Decide.{dec_lt}
use rtp_audio_streamer.Base.Int.{ℤ, ltb_ℤ}
use rtp_audio_streamer.Host.{Host}
use rtp_audio_streamer.Packet.{ParsedPacket, parse}
use rtp_audio_streamer.Ring.{SpscRingBuffer}
use rtp_audio_streamer.Ring
use rtp_audio_streamer.Jitter.Decode.{silence}
use rtp_audio_streamer.Jitter.{Arithmetic, Options, Slot}
use rtp_audio_streamer.Jitter.Push.{push, filled}
use rtp_audio_streamer.Jitter.Pull.{mark_stream_ended, try_pull_due_frame}
use rtp_audio_streamer.Jitter.Playback.{push-kept, pull-kept}
use rtp_audio_streamer.Jitter.Origin.{
  Played, Origin, push-Origin, pull-Origin, pull-Played, new-Origin,
}
use rtp_audio_streamer.Receiver.{Timespec, samples_since}
use rtp_audio_streamer.Receiver.Playout.{ring_capacity, receive_datagram, arrival_of}
use rtp_audio_streamer.Receiver.Threads.{System, idle_ms, receive_pass, give, Step, Reach}
use rtp_audio_streamer.Receiver.Account.{Accounted}
use rtp_audio_streamer.Receiver.Complete.{Reach-Accounted}

-- Frame `k` of those given to the ring.
abbrev pub frame_given : List (Bool × List ℤ) → ℕ → List ℤ
frame_given given k = (get_or given k (true, [])).1

module _ {Double : Type 0} (host : Host) (F : Arithmetic Double) (process_start : Timespec)
    (idle_timeout_ms : ℤ) where
  -- The datagram that the socket gives in a step, if any.
  abbrev pub heard_in :
      {s t : System Double} → Step host F process_start idle_timeout_ms s t → List (List ℕ)
  heard_in (Step.receive (some d) now bytes free) = d ∷ []
  heard_in (Step.receive none now bytes free) = []
  heard_in (Step.wake now at_wait) = []
  heard_in (Step.frame_pushed at_drain e) = []
  heard_in (Step.frame_refused at_drain e) = []
  heard_in (Step.none_due at_drain e) = []
  heard_in (Step.leave at_leave) = []
  heard_in (Step.popped at_poll e) = []
  heard_in (Step.seen_empty at_poll) = []
  heard_in (Step.look at_check) = []
  heard_in (Step.last_popped at_last e) = []
  heard_in (Step.last_empty at_last e) = []

  -- The datagrams that the socket has given, the last one first.
  abbrev pub heard :
      {options : Options} {s : System Double}
      → Reach host F process_start idle_timeout_ms options s
      → List (List ℕ)
  heard Reach.start = []
  heard (Reach.next r st) = heard_in st ++ heard r

  module _ (Good : Slot → Type 0) (Heard : List ℕ → Type 0)
      (good : (d : List ℕ) (p : ParsedPacket) (now : ℕ)
        → Heard d
        → parse host d ≡ some p
        → Good (filled (arrival_of host F p now))) where
    -- The packets of the buffer are good, and so is each frame given, at its place.
    record Sourced (s : System Double) : Type 0 where
      origin : Origin host F Good s.jbuf
      played :
          (k : ℕ)
          → k < length s.given
          → Played host F Good (u16 (s.jbuf.base_sequence + k)) (frame_given s.given k)

    -- A packet pushed does not move the base of a buffer that has given frames.
    push-Sourced :
        (d : List ℕ) (p : ParsedPacket) (now : ℕ) (s : System Double)
        → Heard d
        → parse host d ≡ some p
        → Accounted host F process_start idle_timeout_ms s
        → Sourced s
        → (k : ℕ) → k < length s.given
        → Played host F Good
            (u16 ((push F (arrival_of host F p now) s.jbuf).base_sequence + k))
            (frame_given s.given k)
    push-Sourced d p now s h e a v k below = elim (Bool-cases s.jbuf.started) [
      | inl on ↦ rw ((push-kept host F (arrival_of host F p now) s.jbuf).2 on) (v.played k below)
      | inr off ↦ absurd (omega (arith, a.played, (a.well_formed.not_started off).0))
    ]

    receive-Sourced :
        (datagram : Option (List ℕ)) (now : Timespec) (s : System Double)
        → ((d : List ℕ) → datagram ≡ some d → Heard d)
        → Accounted host F process_start idle_timeout_ms s
        → Sourced s
        → Sourced (receive_pass host F process_start idle_timeout_ms datagram now s)
    unfolding receive_pass receive_datagram mark_stream_ended
    receive-Sourced none now s h a v =
        elim (Bool-cases (ltb_ℤ idle_timeout_ms (idle_ms now s.last_activity))) [
          | inl idle ↦
              rw (receive_pass, idle)
                (record {
                  origin = record { waiting = v.origin.waiting; last = v.origin.last };
                  played = v.played;
                })
          | inr busy ↦ rw (receive_pass, busy) v
        ]
    receive-Sourced (some d) now s h a v = elim (Option-cases (parse host d)) [
      | inl bad ↦ rw (receive_datagram, bad) (record { origin = v.origin; played = v.played })
      | inr (p, e) ↦
          let now_samples = samples_since process_start now in
          rw (receive_datagram, e)
            (record {
              origin =
                  push-Origin host F Good (arrival_of host F p now_samples) s.jbuf a.well_formed
                    (good d p now_samples (h d refl) e) v.origin;
              played = push-Sourced d p now_samples s (h d refl) e a v;
            })
    ]

    give-Sourced :
        (now : ℕ) (frame : List ℤ) (s : System Double) (pushed : Bool × SpscRingBuffer (List ℤ))
        → Accounted host F process_start idle_timeout_ms s
        → Sourced s
        → (try_pull_due_frame host F now s.jbuf).0 ≡ some frame
        → Sourced (
            give host F process_start idle_timeout_ms now frame
              (try_pull_due_frame host F now s.jbuf).1
              pushed
              s)
    unfolding give
    give-Sourced now frame s pushed a v e =
        let base = (pull-kept host F now s.jbuf a.well_formed).2 in
        record {
          origin = pull-Origin host F Good now s.jbuf a.well_formed v.origin;
          played = λ k below. elim (dec_lt k (length s.given)) [
            | yes old ↦
                rw
                  (
                    base,
                    ap (λ g. g.1)
                        (get_or-append_left s.given ((pushed.0, frame) ∷ []) k (true, []) old),
                  )
                  (v.played k old)
            | no here ↦
                let last : k ≡ length s.given =
                  omega (arith, length-append s.given ((pushed.0, frame) ∷ [])) in
                let cursor : k ≡ s.jbuf.frames_played = last ∙ sym a.played in
                rw
                  (
                    base,
                    ap (λ g. g.1) (get_or-append_end s.given (pushed.0, frame) k (true, []) last),
                    cursor,
                  )
                  (pull-Played host F Good now s.jbuf frame v.origin e)
          ];
        }

    Step-Sourced :
        {s t : System Double} (st : Step host F process_start idle_timeout_ms s t)
        → All Heard (heard_in st)
        → Accounted host F process_start idle_timeout_ms s
        → Sourced s
        → Sourced t
    Step-Sourced {s} (Step.receive none now bytes free) h a v =
        receive-Sourced none now s (λ d e. absurd cc) a v
    Step-Sourced {s} (Step.receive (some d) now bytes free) h a v =
        receive-Sourced (some d) now s (λ d' e. let same : d ≡ d' = cc in subst Heard same (h.0)) a
          v
    Step-Sourced (Step.wake now at_wait) h a v = record { origin = v.origin; played = v.played }
    Step-Sourced {s} (Step.frame_pushed {now_samples = now} {frame = frame} at_drain e) h a v =
        give-Sourced now frame s (Ring.push silence ring_capacity frame s.ring) a v e
    Step-Sourced {s} (Step.frame_refused {now_samples = now} {frame = frame} at_drain e) h a v =
        give-Sourced now frame s (false, s.ring) a v e
    Step-Sourced {s} (Step.none_due {now_samples = now} at_drain e) h a v = record {
      origin = pull-Origin host F Good now s.jbuf a.well_formed v.origin;
      played = rw ((pull-kept host F now s.jbuf a.well_formed).2) v.played;
    }
    Step-Sourced (Step.leave at_leave) h a v = record { origin = v.origin; played = v.played }
    Step-Sourced (Step.popped at_poll e) h a v = record { origin = v.origin; played = v.played }
    Step-Sourced (Step.seen_empty at_poll) h a v = record { origin = v.origin; played = v.played }
    Step-Sourced (Step.look at_check) h a v = record { origin = v.origin; played = v.played }
    Step-Sourced (Step.last_popped at_last e) h a v = record {
      origin = v.origin;
      played = v.played;
    }
    Step-Sourced (Step.last_empty at_last e) h a v = record { origin = v.origin; played = v.played }

    Reach-Sourced :
        {options : Options} {s : System Double}
        (r : Reach host F process_start idle_timeout_ms options s)
        → All Heard (heard r)
        → Sourced s
    Reach-Sourced {options} Reach.start h = record {
      origin = new-Origin host F Good options;
      played = λ k below. absurd (omega arith);
    }
    Reach-Sourced (Reach.next {s = s} r st) h =
        let both = All-split Heard (heard_in st) (heard r) h in
        Step-Sourced st both.0 (Reach-Accounted host F process_start idle_timeout_ms r)
          (Reach-Sourced r both.1)

    -- Each frame given, in every interleaving, where `Good` holds of what every datagram that was
    -- heard leaves in its slot.
    pub Reach-Played :
        {options : Options} {s : System Double}
        (r : Reach host F process_start idle_timeout_ms options s)
        → All Heard (heard r)
        → (k : ℕ) → k < length s.given
        → Played host F Good (u16 (s.jbuf.base_sequence + k)) (frame_given s.given k)
    Reach-Played r h = (Reach-Sourced r h).played

-- ===== src/Pipeline/InTime.antt =====
-- What the steps of src/receiver.cpp do when the datagrams come in order and in time.
use rtp_audio_streamer.Base.{
  ℕ, ◌+◌, ◌^◌, ◌≤◌, ◌<◌, ◌≡◌, refl, sym, ap, ◌∙◌, arith, Bool, true, false, Bool-cases, inl, inr,
  none, some, List, [], ◌∷◌, ◌++◌, length, get_or-append_left, get_or-append_end, length-append,
  All,
}
use mathlib.Core.Path.{subst}
use native.Mathlib.Decide.{dec_lt}
use rtp_audio_streamer.Base.Int.{ℤ, IsI16, ltb_ℤ}
use rtp_audio_streamer.Host.{Host}
use rtp_audio_streamer.Packet.{parse}
use rtp_audio_streamer.Ring.{SpscRingBuffer}
use rtp_audio_streamer.Ring
use rtp_audio_streamer.Jitter.{Arithmetic, JitterBuffer, capacity}
use rtp_audio_streamer.Jitter.Decode.{silence}
use rtp_audio_streamer.Jitter.Pull.{mark_stream_ended, try_pull_due_frame}
use rtp_audio_streamer.Jitter.InOrder.{InOrder, push-InOrder, pull-InOrder}
use rtp_audio_streamer.Sender.{CodecName, Sender, send_all}
use rtp_audio_streamer.Sender.Payload.{IsWhole}
use rtp_audio_streamer.Sender.Schedule.{frame_count, frame_at}
use rtp_audio_streamer.Sender.Pass.{IsSender}
use rtp_audio_streamer.Sender.Stream.{send_all-parse}
use rtp_audio_streamer.Receiver.{Timespec, samples_since}
use rtp_audio_streamer.Receiver.Playout.{ring_capacity, receive_datagram, arrival_of}
use rtp_audio_streamer.Receiver.Threads.{System, idle_ms, receive_pass, give, Step}
use rtp_audio_streamer.Receiver.Account.{Accounted}
use rtp_audio_streamer.Receiver.Provenance.{heard_in, frame_given}
use rtp_audio_streamer.Pipeline.{datagram_at}
use rtp_audio_streamer.Pipeline.Heard.{packet, slot_lem, received_at-datagram_at}
use rtp_audio_streamer.Pipeline.Network.{sounded}

module _ {Double : Type 0} (host : Host) (F : Arithmetic Double) (codec : CodecName) (s : Sender)
    (fuel : ℕ) (process_start : Timespec) (idle_timeout_ms : ℤ) where
  -- A step that receives a datagram receives number `n` of the sender, while the slots can hold it.
  abbrev pub InTime :
      (n : ℕ) {t u : System Double} → Step host F process_start idle_timeout_ms t u → Type 0
  InTime n {t} (Step.receive (some d) now bytes free) =
      (n < frame_count s.samples)
      × (d ≡ datagram_at n (send_all host codec fuel s))
      × (n < t.jbuf.frames_played + capacity)
  InTime n (Step.receive none now bytes free) = Unit
  InTime n (Step.wake now at_wait) = Unit
  InTime n (Step.frame_pushed at_drain e) = Unit
  InTime n (Step.frame_refused at_drain e) = Unit
  InTime n (Step.none_due at_drain e) = Unit
  InTime n (Step.leave at_leave) = Unit
  InTime n (Step.popped at_poll e) = Unit
  InTime n (Step.seen_empty at_poll) = Unit
  InTime n (Step.look at_check) = Unit
  InTime n (Step.last_popped at_last e) = Unit
  InTime n (Step.last_empty at_last e) = Unit

  abbrev Ordered : ℕ → JitterBuffer Double → Type 0
  Ordered = InOrder host F s.header.sequence_number (sounded host F codec s)

  -- After `n` datagrams.
  pub record Played (n : ℕ) (t : System Double) : Type 0 where
    pub ordered : Ordered n t.jbuf
    pub frames : (k : ℕ) → k < length t.given → frame_given t.given k ≡ sounded host F codec s k

  ended-Ordered :
      (n : ℕ) (jb : JitterBuffer Double) → Ordered n jb → Ordered n (mark_stream_ended jb)
  unfolding mark_stream_ended
  ended-Ordered n jb o = record {
    off = o.off;
    on = o.on;
    base = o.base;
    highest_pos = o.highest_pos;
    highest_neg = o.highest_neg;
    played = o.played;
    reach = o.reach;
    waits = λ i after below.
        let w = o.waits i after below in
        record { slot = w.slot; there = w.there; sounds = w.sounds };
    no_loss = o.no_loss;
    origin = record { waiting = o.origin.waiting; last = o.origin.last };
  }

  module _ (v : IsSender codec s) (h : All IsI16 s.samples)
      (whole : (i : ℕ) → i < frame_count s.samples → IsWhole host codec (frame_at s.samples i))
      (enough : frame_count s.samples < fuel) (few : frame_count s.samples ≤ 2 ^ 15) where
    receive-Played :
        (d : List ℕ) (now : Timespec) (n : ℕ) (t : System Double)
        → n < frame_count s.samples
        → d ≡ datagram_at n (send_all host codec fuel s)
        → n < t.jbuf.frames_played + capacity
        → Accounted host F process_start idle_timeout_ms t
        → Played n t
        → Played (n + 1) (receive_pass host F process_start idle_timeout_ms (some d) now t)
    unfolding receive_pass receive_datagram
    receive-Played d now n t below e near a o =
        let now_samples = samples_since process_start now in
        let parsed : parse host d ≡ some (packet host F codec s n) =
          ap (parse host) e
          ∙ received_at-datagram_at host n (send_all host codec fuel s) (packet host F codec s n)
              (send_all-parse host codec host fuel n s v enough below) in
        rw (receive_datagram, parsed)
          (record {
            ordered =
                push-InOrder host F s.header.sequence_number (sounded host F codec s)
                  (arrival_of host F (packet host F codec s n) now_samples) n t.jbuf refl
                  v.header_fits.sequence_fits (omega arith) near
                  (slot_lem host F codec s n now_samples v h (whole n below)) a.well_formed
                  o.ordered;
            frames = o.frames;
          })

    idle-Played :
        (now : Timespec) (n : ℕ) (t : System Double)
        → Played n t
        → Played n (receive_pass host F process_start idle_timeout_ms none now t)
    unfolding receive_pass
    idle-Played now n t o =
        elim (Bool-cases (ltb_ℤ idle_timeout_ms (idle_ms now t.last_activity))) [
          | inl idle ↦
              rw (receive_pass, idle)
                (record { ordered = ended-Ordered n t.jbuf o.ordered; frames = o.frames })
          | inr busy ↦ rw (receive_pass, busy) o
        ]

    give-Played :
        (now : ℕ) (frame : List ℤ) (n : ℕ) (t : System Double)
        (pushed : Bool × SpscRingBuffer (List ℤ))
        → Accounted host F process_start idle_timeout_ms t
        → Played n t
        → (try_pull_due_frame host F now t.jbuf).0 ≡ some frame
        → Played n (
            give host F process_start idle_timeout_ms now frame
              (try_pull_due_frame host F now t.jbuf).1
              pushed
              t)
    unfolding give
    give-Played now frame n t pushed a o e =
        let pulled =
          pull-InOrder host F s.header.sequence_number (sounded host F codec s) now n t.jbuf
            a.well_formed o.ordered in
        record {
          ordered = pulled.0;
          frames = λ k below. elim (dec_lt k (length t.given)) [
            | yes old ↦
                ap (λ g. g.1) (get_or-append_left t.given ((pushed.0, frame) ∷ []) k (true, []) old)
                ∙ o.frames k old
            | no here ↦
                let last : k ≡ length t.given =
                  omega (arith, length-append t.given ((pushed.0, frame) ∷ [])) in
                ap (λ g. g.1) (get_or-append_end t.given (pushed.0, frame) k (true, []) last)
                ∙ pulled.1 frame e
                ∙ ap (sounded host F codec s) (a.played ∙ sym last)
          ];
        }

    pub Step-Played :
        (ds : List (List ℕ)) {t u : System Double}
        (st : Step host F process_start idle_timeout_ms t u)
        → InTime (length ds) st
        → Accounted host F process_start idle_timeout_ms t
        → Played (length ds) t
        → Played (length (heard_in host F process_start idle_timeout_ms st ++ ds)) u
    Step-Played ds {t} (Step.receive (some d) now bytes free) i a o =
        let more : length ds + 1 ≡ length (d ∷ ds) = omega arith in
        subst (λ m. Played m (receive_pass host F process_start idle_timeout_ms (some d) now t))
          more (receive-Played d now (length ds) t i.0 i.1 i.2 a o)
    Step-Played ds {t} (Step.receive none now bytes free) i a o = idle-Played now (length ds) t o
    Step-Played ds (Step.wake now at_wait) i a o = record { ordered = o.ordered; frames = o.frames }
    Step-Played ds {t} (Step.frame_pushed {now_samples = now} {frame = frame} at_drain e) i a o =
        give-Played now frame (length ds) t (Ring.push silence ring_capacity frame t.ring) a o e
    Step-Played ds {t} (Step.frame_refused {now_samples = now} {frame = frame} at_drain e) i a o =
        give-Played now frame (length ds) t (false, t.ring) a o e
    Step-Played ds {t} (Step.none_due {now_samples = now} at_drain e) i a o = record {
      ordered =
          (pull-InOrder host F s.header.sequence_number (sounded host F codec s) now (length ds)
            t.jbuf a.well_formed o.ordered).0;
      frames = o.frames;
    }
    Step-Played ds (Step.leave at_leave) i a o = record { ordered = o.ordered; frames = o.frames }
    Step-Played ds (Step.popped at_poll e) i a o = record { ordered = o.ordered; frames = o.frames }
    Step-Played ds (Step.seen_empty at_poll) i a o = record {
      ordered = o.ordered;
      frames = o.frames;
    }
    Step-Played ds (Step.look at_check) i a o = record { ordered = o.ordered; frames = o.frames }
    Step-Played ds (Step.last_popped at_last e) i a o = record {
      ordered = o.ordered;
      frames = o.frames;
    }
    Step-Played ds (Step.last_empty at_last e) i a o = record {
      ordered = o.ordered;
      frames = o.frames;
    }

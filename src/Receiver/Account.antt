-- ===== src/Receiver/Account.antt =====
-- What holds between the steps of the threads of src/receiver.cpp, and that each step keeps it.
use rtp_audio_streamer.Base.{
  ℕ, ◌≡◌, refl, sym, ap, ◌∙◌, arith, Bool, true, false, Bool-cases, Option-cases, inl, inr, Option,
  none, some, List, [], ◌∷◌, ◌++◌, length, u64, if◌then◌else◌, All, length-append,
}
use mathlib.Core.List.{append_assoc, append-nil}
use rtp_audio_streamer.Base.Int.{ℤ, ltb_ℤ}
use rtp_audio_streamer.Host.{Host, IsByte}
use rtp_audio_streamer.Packet.{parse}
use rtp_audio_streamer.Packet.Parse.{parse_iff}
use rtp_audio_streamer.Ring.{SpscRingBuffer, IsCapacity}
use rtp_audio_streamer.Ring
use rtp_audio_streamer.Jitter.{Arithmetic, JitterBuffer}
use rtp_audio_streamer.Jitter.Decode.{silence}
use rtp_audio_streamer.Jitter.Pull.{
  is_due, finished, mark_stream_ended, try_pull_due_frame, pull_not_due,
}
use rtp_audio_streamer.Jitter.Inv.{Inv}
use rtp_audio_streamer.Jitter.Keep.{push-Inv, pull-Inv}
use rtp_audio_streamer.Jitter.Playback.{push-kept, pull-kept}
use rtp_audio_streamer.Receiver.{Timespec, samples_since}
use rtp_audio_streamer.Receiver.Playout.{ring_capacity, receive_datagram, arrival_of, given}
use rtp_audio_streamer.Receiver.Threads.{
  waiting, draining, leaving, stopped, polling, last_pop, over, System, IsDatagram, receive_pass,
  give, idle_ms,
}
use rtp_audio_streamer.Receiver.Queued.{
  kept, missed, joined, joined-append, kept-append, missed-append, Queued, pop-Queued, still_on,
}

module _ {Double : Type 0} (host : Host) (F : Arithmetic Double) (process_start : Timespec)
    (idle_timeout_ms : ℤ) where
  -- What holds between the steps: the frames that the ring took are in the samples or in the ring.
  pub record Accounted (s : System Double) : Type 0 where
    pub queue : List (List ℤ)
    pub queued : Queued s.ring queue
    pub delivered : s.samples ++ joined queue ≡ kept s.given
    pub counted : s.underruns ≡ u64 (missed s.given)
    pub played : s.jbuf.frames_played ≡ length s.given
    pub well_formed : Inv s.jbuf
    pub done : s.playout_done ≡ true → s.playout ≡ stopped
    pub ends : s.playout ≡ stopped → s.playout_done ≡ true
    pub last : s.main ≡ last_pop → s.playout_done ≡ true
    pub emptied : s.main ≡ over → (s.playout_done ≡ true) × (queue ≡ [])

  receive-kept :
      (d : List ℕ) (now : ℕ) (jb : JitterBuffer Double) (malformed : ℕ)
      → All IsByte d
      → Inv jb
      → let after = (receive_datagram host F d now jb malformed).0 in
        Inv after × (after.frames_played ≡ jb.frames_played)
  unfolding receive_datagram
  receive-kept d now jb malformed bytes v = elim (Option-cases (parse host d)) [
    | inl gone ↦ rw (receive_datagram, gone) (v, refl)
    | inr (p, e) ↦
        rw (receive_datagram, e)
          (
            push-Inv F (arrival_of host F p now) jb ((parse_iff host d p bytes).0 e).0.sequence_fits
                v,
            (push-kept host F (arrival_of host F p now) jb).0,
          )
  ]

  pub receive_pass-Accounted :
      (datagram : Option (List ℕ)) (now : Timespec) (s : System Double)
      → IsDatagram datagram
      → Accounted s
      → Accounted (receive_pass host F process_start idle_timeout_ms datagram now s)
  unfolding receive_pass mark_stream_ended
  receive_pass-Accounted (some d) now s bytes v =
      let k =
        receive-kept d (samples_since process_start now) s.jbuf s.malformed_dropped bytes
          v.well_formed in
      record {
        queue = v.queue;
        queued = v.queued;
        delivered = v.delivered;
        counted = v.counted;
        played = k.1 ∙ v.played;
        well_formed = k.0;
        done = v.done;
        ends = v.ends;
        last = v.last;
        emptied = v.emptied;
      }
  receive_pass-Accounted none now s u v =
      elim (Bool-cases (ltb_ℤ idle_timeout_ms (idle_ms now s.last_activity))) [
        | inl idle ↦ rw idle (record {
          queue = v.queue;
          queued = v.queued;
          delivered = v.delivered;
          counted = v.counted;
          played = v.played;
          well_formed = v.well_formed;
          done = v.done;
          ends = v.ends;
          last = v.last;
          emptied = v.emptied;
        })
        | inr busy ↦ rw busy v
      ]

  pull_given :
      (now : ℕ) (jb : JitterBuffer Double) (frame : List ℤ)
      → (try_pull_due_frame host F now jb).0 ≡ some frame
      → is_due now jb ≡ true
  pull_given now jb frame e = elim (Bool-cases (is_due now jb)) [
    | inl due ↦ due
    | inr wait ↦ absurd (cc (ap (λ t. t.0) (pull_not_due host F now jb wait), e))
  ]

  delivered_more :
      (s : System Double) (q : List (List ℤ)) (taken : Bool) (frame : List ℤ)
      → s.samples ++ joined q ≡ kept s.given
      → s.samples ++ joined (if taken then q ++ (frame ∷ []) else q)
        ≡ kept (s.given ++ ((taken, frame) ∷ []))
  delivered_more s q true frame e =
      rw (kept-append s.given true frame, joined-append q frame, ← e)
        (sym (append_assoc s.samples (joined q) frame))
  delivered_more s q false frame e =
      rw (kept-append s.given false frame, append-nil (kept s.given)) e

  pub give-Accounted :
      (now : ℕ) (frame : List ℤ) (s : System Double) (v : Accounted s)
      → s.playout ≡ draining now
      → (try_pull_due_frame host F now s.jbuf).0 ≡ some frame
      → (pushed : Bool × SpscRingBuffer (List ℤ))
      → Queued pushed.1 (if pushed.0 then v.queue ++ (frame ∷ []) else v.queue)
      → Accounted (
          give host F process_start idle_timeout_ms now frame
            (try_pull_due_frame host F now s.jbuf).1
            pushed
            s)
  unfolding give
  give-Accounted now frame s v at_drain e (taken, ring) h =
      let due = pull_given now s.jbuf frame e in
      record {
        queue = if taken then v.queue ++ (frame ∷ []) else v.queue;
        queued = h;
        delivered = delivered_more s v.queue taken frame v.delivered;
        counted = ground (arith, v.counted, missed-append s.given taken frame);
        played =
            (rw due at (pull-kept host F now s.jbuf v.well_formed).0)
            ∙ omega (arith, v.played, length-append s.given ((taken, frame) ∷ []));
        well_formed = pull-Inv host F now s.jbuf v.well_formed;
        done = λ t. absurd (cc (v.done t, at_drain));
        ends = λ t. absurd (still_on now (finished (try_pull_due_frame host F now s.jbuf).1) t);
        last = v.last;
        emptied = λ t. absurd (cc (v.done (v.emptied t).0, at_drain));
      }

  -- What a pop that succeeds does, the main thread being at `main` afterwards.
  pub pop-Accounted :
      (s : System Double) (frame : List ℤ) (ring : SpscRingBuffer (List ℤ)) (v : Accounted s)
      → Ring.pop silence ring_capacity s.ring ≡ (some frame, ring)
      → Accounted (record s { ring = ring; samples = s.samples ++ frame; main = polling })
  pop-Accounted s frame ring v e =
      let (rest, front, h) = pop-Queued v.queue v.queued e in
      record {
        queue = rest;
        queued = h;
        delivered = append_assoc s.samples frame (joined rest) ∙ (rw front at v.delivered);
        counted = v.counted;
        played = v.played;
        well_formed = v.well_formed;
        done = v.done;
        ends = v.ends;
        last = λ t. absurd cc;
        emptied = λ t. absurd cc;
      }

  pub leave-Accounted :
      (s : System Double)
      → Accounted s
      → s.playout ≡ leaving
      → Accounted (record s {
        playout_done = if finished s.jbuf then true else s.playout_done;
        playout = if finished s.jbuf then stopped else waiting;
      })
  leave-Accounted s v at_leave = elim (Bool-cases (finished s.jbuf)) [
    | inl end ↦ rw end (record {
      queue = v.queue;
      queued = v.queued;
      delivered = v.delivered;
      counted = v.counted;
      played = v.played;
      well_formed = v.well_formed;
      done = λ t. refl;
      ends = λ t. refl;
      last = λ t. refl;
      emptied = λ t. (refl, (v.emptied t).1);
    })
    | inr more ↦ rw more (record {
      queue = v.queue;
      queued = v.queued;
      delivered = v.delivered;
      counted = v.counted;
      played = v.played;
      well_formed = v.well_formed;
      done = λ t. absurd (cc (v.done t, at_leave));
      ends = λ t. absurd cc;
      last = v.last;
      emptied = v.emptied;
    })
  ]

  pub kept_playing :
      (now : ℕ) (s : System Double)
      → Accounted s
      → s.playout ≡ draining now
      → (try_pull_due_frame host F now s.jbuf).0 ≡ none
      → (try_pull_due_frame host F now s.jbuf).1.frames_played ≡ length s.given
  kept_playing now s v at_drain e = elim (Bool-cases (is_due now s.jbuf)) [
    | inl due ↦ absurd (cc ((given host F now s.jbuf due).1, e))
    | inr wait ↦ (rw wait at (pull-kept host F now s.jbuf v.well_formed).0) ∙ v.played
  ]

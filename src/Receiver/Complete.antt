-- ===== src/Receiver/Complete.antt =====
-- What src/receiver.cpp writes to its WAV file, whatever the order in which its threads act.
use rtp_audio_streamer.Base.{◌≡◌, refl, sym, ◌∙◌, false, Bool-cases, inl, inr, [], length, u64}
use mathlib.Core.List.{append-nil}
use rtp_audio_streamer.Base.Int.{ℤ}
use rtp_audio_streamer.Host.{Host}
use rtp_audio_streamer.Ring.{SpscRingBuffer, IsCapacity}
use rtp_audio_streamer.Ring
use rtp_audio_streamer.Ring.Queue.{empty-Holds}
use rtp_audio_streamer.Jitter.{Arithmetic, Options}
use rtp_audio_streamer.Jitter.Decode.{silence}
use rtp_audio_streamer.Jitter.Keep.{pull-Inv}
use rtp_audio_streamer.Jitter.Playback.{new-Inv}
use rtp_audio_streamer.Receiver.{Timespec}
use rtp_audio_streamer.Receiver.Playout.{ring_capacity}
use rtp_audio_streamer.Receiver.Threads.{stopped, over, System, Step, Reach}
use rtp_audio_streamer.Receiver.Queued.{
  kept, missed, ring_capacity-IsCapacity, push-Queued, pop_nothing,
}
use rtp_audio_streamer.Receiver.Account.{
  Accounted, receive_pass-Accounted, give-Accounted, pop-Accounted, leave-Accounted, kept_playing,
}

module _ {Double : Type 0} (host : Host) (F : Arithmetic Double) (process_start : Timespec)
    (idle_timeout_ms : ℤ) where
  Step-Accounted :
      {s t : System Double}
      → Step host F process_start idle_timeout_ms s t
      → Accounted host F process_start idle_timeout_ms s
      → Accounted host F process_start idle_timeout_ms t
  Step-Accounted {s} (Step.receive datagram now bytes free) v =
      receive_pass-Accounted host F process_start idle_timeout_ms datagram now s bytes v
  Step-Accounted {s} (Step.wake now at_wait) v = record {
    queue = v.queue;
    queued = v.queued;
    delivered = v.delivered;
    counted = v.counted;
    played = v.played;
    well_formed = v.well_formed;
    done = λ t. absurd (cc (v.done t, at_wait));
    ends = λ t. absurd cc;
    last = v.last;
    emptied = v.emptied;
  }
  Step-Accounted {s} (Step.frame_pushed {now_samples = now} {frame = frame} at_drain e) v =
      give-Accounted host F process_start idle_timeout_ms now frame s v at_drain e
        (Ring.push silence ring_capacity frame s.ring) (push-Queued frame v.queued)
  Step-Accounted {s} (Step.frame_refused {now_samples = now} {frame = frame} at_drain e) v =
      give-Accounted host F process_start idle_timeout_ms now frame s v at_drain e (false, s.ring)
        v.queued
  Step-Accounted {s} (Step.none_due {now_samples = now} at_drain e) v = record {
    queue = v.queue;
    queued = v.queued;
    delivered = v.delivered;
    counted = v.counted;
    played = kept_playing host F process_start idle_timeout_ms now s v at_drain e;
    well_formed = pull-Inv host F now s.jbuf v.well_formed;
    done = λ t. absurd (cc (v.done t, at_drain));
    ends = λ t. absurd cc;
    last = v.last;
    emptied = v.emptied;
  }
  Step-Accounted {s} (Step.leave at_leave) v =
      leave-Accounted host F process_start idle_timeout_ms s v at_leave
  Step-Accounted {s} (Step.popped {frame = frame} {ring = ring} at_poll e) v =
      pop-Accounted host F process_start idle_timeout_ms s frame ring v e
  Step-Accounted {s} (Step.seen_empty at_poll) v = record {
    queue = v.queue;
    queued = v.queued;
    delivered = v.delivered;
    counted = v.counted;
    played = v.played;
    well_formed = v.well_formed;
    done = v.done;
    ends = v.ends;
    last = λ t. absurd cc;
    emptied = λ t. absurd cc;
  }
  Step-Accounted {s} (Step.look at_check) v = elim (Bool-cases s.playout_done) [
    | inl done ↦ rw done (record {
      queue = v.queue;
      queued = v.queued;
      delivered = v.delivered;
      counted = v.counted;
      played = v.played;
      well_formed = v.well_formed;
      done = λ t. v.done done;
      ends = λ t. refl;
      last = λ t. refl;
      emptied = λ t. absurd cc;
    })
    | inr more ↦ rw more (record {
      queue = v.queue;
      queued = v.queued;
      delivered = v.delivered;
      counted = v.counted;
      played = v.played;
      well_formed = v.well_formed;
      done = λ t. absurd cc;
      ends = λ t. absurd (cc (v.ends t, more));
      last = λ t. absurd cc;
      emptied = λ t. absurd cc;
    })
  ]
  Step-Accounted {s} (Step.last_popped {frame = frame} {ring = ring} at_last e) v =
      pop-Accounted host F process_start idle_timeout_ms s frame ring v e
  Step-Accounted {s} (Step.last_empty {ring = ring} at_last e) v = record {
    queue = v.queue;
    queued = v.queued;
    delivered = v.delivered;
    counted = v.counted;
    played = v.played;
    well_formed = v.well_formed;
    done = v.done;
    ends = v.ends;
    last = λ t. absurd cc;
    emptied = λ t. (v.last at_last, pop_nothing v.queue v.queued e);
  }

  pub Reach-Accounted :
      {options : Options} {s : System Double}
      → Reach host F process_start idle_timeout_ms options s
      → Accounted host F process_start idle_timeout_ms s
  Reach-Accounted {options} Reach.start = record {
    queue = [];
    queued = empty-Holds silence ring_capacity ring_capacity-IsCapacity;
    delivered = refl;
    counted = refl;
    played = refl;
    well_formed = new-Inv host F options;
    done = λ t. absurd cc;
    ends = λ t. absurd cc;
    last = λ t. absurd cc;
    emptied = λ t. absurd cc;
  }
  Reach-Accounted (Reach.next r st) = Step-Accounted st (Reach-Accounted r)

  -- In every interleaving of the three threads, when the main thread has left its loop: the playout
  -- thread has stopped, the samples to be written are those of every frame that the ring took, in
  -- order, with none left in the ring; as many frames were given as the cursor of the jitter buffer
  -- says; and those that the ring did not take are counted as underruns (modulo 2^64).
  pub Reach-samples :
      {options : Options} {s : System Double}
      → Reach host F process_start idle_timeout_ms options s
      → s.main ≡ over
      → (s.playout ≡ stopped)
        × (s.samples ≡ kept s.given)
        × (length s.given ≡ s.jbuf.frames_played)
        × (s.underruns ≡ u64 (missed s.given))
  Reach-samples {s = s} r at_end =
      let v = Reach-Accounted r in
      let e = v.emptied at_end in
      (v.done e.0, sym (append-nil s.samples) ∙ (rw (e.1) at v.delivered), sym v.played, v.counted)

-- ===== src/Receiver/Calls.antt =====
-- The threads of src/receiver.cpp take the mutex of the jitter buffer in turn: what they make of the
-- buffer is what a sequence of calls makes of it.
use rtp_audio_streamer.Base.{
  ℕ, ◌≡◌, refl, sym, ap, ◌∙◌, Bool, false, Bool-cases, Option-cases, inl, inr, Option, none, some,
  List, [], ◌∷◌, ◌++◌, All, All-append,
}
use mathlib.Core.List.{append-nil}
use rtp_audio_streamer.Base.Int.{ℤ, ltb_ℤ}
use rtp_audio_streamer.Host.{Host}
use rtp_audio_streamer.Packet.{parse}
use rtp_audio_streamer.Packet.Parse.{parse_iff}
use rtp_audio_streamer.Ring.{SpscRingBuffer}
use rtp_audio_streamer.Ring
use rtp_audio_streamer.Jitter.{Arithmetic, JitterBuffer, Options, new_buffer}
use rtp_audio_streamer.Jitter.Decode.{silence}
use rtp_audio_streamer.Jitter.Pull.{try_pull_due_frame}
use rtp_audio_streamer.Jitter.Playback.{
  Call, IsCall, arrive, pull, end_stream, with_frame, step, run,
}
use rtp_audio_streamer.Receiver.{Timespec, samples_since}
use rtp_audio_streamer.Receiver.Playout.{ring_capacity, receive_datagram, arrival_of}
use rtp_audio_streamer.Receiver.Threads.{
  System, IsDatagram, idle_ms, receive_pass, give, Step, Reach,
}

-- The frames given, without whether the ring took them.
abbrev pub frames_of : List (Bool × List ℤ) → List (List ℤ)
frames_of [] = []
frames_of ((taken, frame) ∷ rest) = frame ∷ frames_of rest

frames_of-append :
    (gs : List (Bool × List ℤ)) (taken : Bool) (frame : List ℤ)
    → frames_of (gs ++ ((taken, frame) ∷ [])) ≡ frames_of gs ++ (frame ∷ [])
frames_of-append [] taken frame = refl
frames_of-append ((b, g) ∷ gs) taken frame = ap (λ t. g ∷ t) (frames_of-append gs taken frame)

module _ {Double : Type 0} (host : Host) (F : Arithmetic Double) where
  with_frame-append :
      (out : Option (List ℤ)) (xs ys : List (List ℤ))
      → with_frame out (xs ++ ys) ≡ with_frame out xs ++ ys
  with_frame-append none xs ys = refl
  with_frame-append (some f) xs ys = refl

  -- One call more.
  run-append :
      (cs : List Call) (c : Call) (jb : JitterBuffer Double)
      → let before = run host F cs jb in
        run host F (cs ++ (c ∷ [])) jb
        ≡ (before.0 ++ with_frame (step host F c before.1).0 [], (step host F c before.1).1)
  unfolding run
  run-append [] c jb = refl
  run-append (d ∷ cs) c jb =
      let next = (step host F d jb).1 in
      let before = run host F cs next in
      rw (
        run-append cs c next,
        with_frame-append (step host F d jb).0 before.0 (with_frame (step host F c before.1).0 []),
      )

module _ {Double : Type 0} (host : Host) (F : Arithmetic Double) (process_start : Timespec)
    (idle_timeout_ms : ℤ) (options : Options) where
  -- Calls that make the buffer what it is, and that give the frames that were given.
  pub record Called (s : System Double) : Type 0 where
    pub calls : List Call
    pub allowed : All IsCall calls
    pub same_frames : (run host F calls (new_buffer F options)).0 ≡ frames_of s.given
    pub same_buffer : (run host F calls (new_buffer F options)).1 ≡ s.jbuf

  Called-more :
      (c : Call) (s t : System Double)
      → IsCall c
      → Called s
      → frames_of t.given ≡ frames_of s.given ++ with_frame (step host F c s.jbuf).0 []
      → t.jbuf ≡ (step host F c s.jbuf).1
      → Called t
  Called-more c s t ok v frames buffer =
      let more = run-append host F v.calls c (new_buffer F options) in
      record {
        calls = v.calls ++ (c ∷ []);
        allowed = All-append IsCall v.calls (c ∷ []) v.allowed (ok, tt);
        same_frames = ap (λ r. r.0) more ∙ (rw (v.same_frames, v.same_buffer) (sym frames));
        same_buffer = ap (λ r. r.1) more ∙ (rw (v.same_buffer) (sym buffer));
      }

  -- What does not touch the buffer.
  Called-same : (s t : System Double) → t.given ≡ s.given → t.jbuf ≡ s.jbuf → Called s → Called t
  Called-same s t frames buffer v = record {
    calls = v.calls;
    allowed = v.allowed;
    same_frames = v.same_frames ∙ ap frames_of (sym frames);
    same_buffer = v.same_buffer ∙ sym buffer;
  }

  receive-Called :
      (datagram : Option (List ℕ)) (now : Timespec) (s : System Double)
      → IsDatagram datagram
      → Called s
      → Called (receive_pass host F process_start idle_timeout_ms datagram now s)
  unfolding receive_pass receive_datagram step
  receive-Called none now s u v =
      elim (Bool-cases (ltb_ℤ idle_timeout_ms (idle_ms now s.last_activity))) [
        | inl idle ↦
            Called-more end_stream s _ tt v
              (rw (receive_pass, idle) (sym (append-nil (frames_of s.given))))
              (rw (receive_pass, idle) refl)
        | inr busy ↦ Called-same s _ (rw (receive_pass, busy) refl) (rw (receive_pass, busy) refl) v
      ]
  receive-Called (some d) now s bytes v = elim (Option-cases (parse host d)) [
    | inl bad ↦ Called-same s _ refl (rw (receive_datagram, bad) refl) v
    | inr (p, good) ↦
        Called-more (arrive (arrival_of host F p (samples_since process_start now))) s _
          ((parse_iff host d p bytes).0 good).0.sequence_fits v
          (sym (append-nil (frames_of s.given))) (rw (receive_datagram, good) refl)
  ]

  give-Called :
      (now : ℕ) (frame : List ℤ) (s : System Double) (pushed : Bool × SpscRingBuffer (List ℤ))
      → Called s
      → (try_pull_due_frame host F now s.jbuf).0 ≡ some frame
      → Called (
          give host F process_start idle_timeout_ms now frame
            (try_pull_due_frame host F now s.jbuf).1
            pushed
            s)
  unfolding give step
  give-Called now frame s pushed v e =
      Called-more (pull now) s _ tt v (rw e (frames_of-append s.given (pushed.0) frame)) refl

  Step-Called :
      {s t : System Double} → Step host F process_start idle_timeout_ms s t → Called s → Called t
  unfolding step
  Step-Called {s} (Step.receive datagram now bytes free) v = receive-Called datagram now s bytes v
  Step-Called {s} {t} (Step.wake now at_wait) v = Called-same s t refl refl v
  Step-Called {s} (Step.frame_pushed {now_samples = now} {frame = frame} at_drain e) v =
      give-Called now frame s (Ring.push silence ring_capacity frame s.ring) v e
  Step-Called {s} (Step.frame_refused {now_samples = now} {frame = frame} at_drain e) v =
      give-Called now frame s (false, s.ring) v e
  Step-Called {s} {t} (Step.none_due {now_samples = now} at_drain e) v =
      Called-more (pull now) s t tt v (rw e (sym (append-nil (frames_of s.given)))) refl
  Step-Called {s} {t} (Step.leave at_leave) v = Called-same s t refl refl v
  Step-Called {s} {t} (Step.popped at_poll e) v = Called-same s t refl refl v
  Step-Called {s} {t} (Step.seen_empty at_poll) v = Called-same s t refl refl v
  Step-Called {s} {t} (Step.look at_check) v = Called-same s t refl refl v
  Step-Called {s} {t} (Step.last_popped at_last e) v = Called-same s t refl refl v
  Step-Called {s} {t} (Step.last_empty at_last e) v = Called-same s t refl refl v

  -- Every interleaving of the three threads makes of the jitter buffer what one sequence of calls
  -- makes of a new buffer, with a packet number of 16 bits in each `push`, and has given the frames
  -- that those calls give, in their order.
  pub Reach-Called :
      {s : System Double} → Reach host F process_start idle_timeout_ms options s → Called s
  unfolding run
  Reach-Called Reach.start = record {
    calls = [];
    allowed = tt;
    same_frames = refl;
    same_buffer = refl;
  }
  Reach-Called (Reach.next r st) = Step-Called st (Reach-Called r)

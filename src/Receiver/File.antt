-- ===== src/Receiver/File.antt =====
-- The WAV file that src/receiver.cpp writes after its threads.
use rtp_audio_streamer.Base.{
  All-append, ℕ, ◌+◌, ◌*◌, ◌≡◌, refl, sym, ap, arith, Bool, true, false, Bool-cases, Option-cases,
  inl, inr, Option, none, some, List, [], ◌∷◌, ◌++◌, length, All, length-append,
}
use rtp_audio_streamer.Base.Int.{ℤ, IsI16, ltb_ℤ}
use rtp_audio_streamer.AudioFormat.{sample_rate_hz, frame_samples}
use rtp_audio_streamer.Host.{Host}
use rtp_audio_streamer.Packet.{parse}
use rtp_audio_streamer.Wav.{ReadResult, write, read}
use rtp_audio_streamer.Wav.RoundTrip.{finished_with, read-write}
use rtp_audio_streamer.Jitter.{Arithmetic, Options}
use rtp_audio_streamer.Jitter.Pull.{try_pull_due_frame, mark_stream_ended}
use rtp_audio_streamer.Jitter.Frame.{
  IsFrame, silence-IsFrame, IsFading, FadesFrame, pull-IsFrame, given-IsFrame, push-concealer,
}
use rtp_audio_streamer.Receiver.{Timespec, samples_since}
use rtp_audio_streamer.Receiver.Playout.{receive_datagram, arrival_of}
use rtp_audio_streamer.Receiver.Threads.{over, System, idle_ms, receive_pass, give, Step, Reach}
use rtp_audio_streamer.Receiver.Queued.{kept, missed}
use rtp_audio_streamer.Receiver.Complete.{Reach-Accounted, Reach-samples}
use rtp_audio_streamer.Jitter.Inv.{few_played}
use mathlib.Core.Path.{subst}

-- Every frame that was given is a whole frame.
abbrev AllFrames : List (Bool × List ℤ) → Type 0
AllFrames = All (λ g. IsFrame g.1)

kept-IsI16 : (gs : List (Bool × List ℤ)) → AllFrames gs → All IsI16 (kept gs)
kept-IsI16 [] h = tt
kept-IsI16 ((true, f) ∷ gs) h = All-append IsI16 f (kept gs) h.0.samples (kept-IsI16 gs h.1)
kept-IsI16 ((false, f) ∷ gs) h = kept-IsI16 gs h.1

length-kept :
    (gs : List (Bool × List ℤ))
    → AllFrames gs
    → length (kept gs) + frame_samples * missed gs ≡ frame_samples * length gs
length-kept [] h = refl
length-kept ((true, f) ∷ gs) h =
    omega (arith, length-append f (kept gs), h.0.size, length-kept gs h.1)
length-kept ((false, f) ∷ gs) h = omega (arith, length-kept gs h.1)

module _ {Double : Type 0} (host : Host) (F : Arithmetic Double) (process_start : Timespec)
    (idle_timeout_ms : ℤ) (fading : IsFading F) where
  Framed : System Double → Type 0
  Framed s = AllFrames s.given × FadesFrame F fading s.jbuf

  receive-Framed :
      (datagram : Option (List ℕ)) (now : Timespec) (s : System Double)
      → Framed s
      → Framed (receive_pass host F process_start idle_timeout_ms datagram now s)
  unfolding Framed receive_pass receive_datagram mark_stream_ended
  receive-Framed none now s v =
      elim (Bool-cases (ltb_ℤ idle_timeout_ms (idle_ms now s.last_activity))) [
        | inl idle ↦ rw (receive_pass, idle) v
        | inr busy ↦ rw (receive_pass, busy) v
      ]
  receive-Framed (some d) now s v = elim (Option-cases (parse host d)) [
    | inl bad ↦ rw (receive_datagram, bad) v
    | inr (p, good) ↦
        let same =
          push-concealer F (arrival_of host F p (samples_since process_start now)) s.jbuf in
        rw (receive_datagram, good) (v.0, rw (same) (v.1))
  ]

  give-Framed :
      (now : ℕ) (frame : List ℤ) (s : System Double) (taken : Bool) (r : System Double)
      → Framed s
      → (try_pull_due_frame host F now s.jbuf).0 ≡ some frame
      → r.given ≡ s.given ++ ((taken, frame) ∷ [])
      → r.jbuf ≡ (try_pull_due_frame host F now s.jbuf).1
      → Framed r
  unfolding Framed
  give-Framed now frame s taken r v e grown next = (
    rw grown (
        All-append (λ g. IsFrame g.1) s.given ((taken, frame) ∷ []) (v.0)
          (given-IsFrame F fading host now s.jbuf frame (v.1) e, tt)),
    rw next (pull-IsFrame F fading host now s.jbuf (v.1)),
  )

  Step-Framed :
      {s t : System Double} → Step host F process_start idle_timeout_ms s t → Framed s → Framed t
  unfolding Framed give
  Step-Framed {s} (Step.receive datagram now bytes free) v = receive-Framed datagram now s v
  Step-Framed (Step.wake now at_wait) v = v
  Step-Framed {s} {t} (Step.frame_pushed {now_samples = now} {frame = frame} at_drain e) v =
      give-Framed now frame s _ t v e refl refl
  Step-Framed {s} {t} (Step.frame_refused {now_samples = now} {frame = frame} at_drain e) v =
      give-Framed now frame s false t v e refl refl
  Step-Framed {s} (Step.none_due {now_samples = now} at_drain e) v =
      (v.0, pull-IsFrame F fading host now s.jbuf (v.1))
  Step-Framed (Step.leave at_leave) v = v
  Step-Framed (Step.popped at_poll e) v = v
  Step-Framed (Step.seen_empty at_poll) v = v
  Step-Framed (Step.look at_check) v = v
  Step-Framed (Step.last_popped at_last e) v = v
  Step-Framed (Step.last_empty at_last e) v = v

  Reach-Framed :
      {options : Options} {s : System Double}
      → Reach host F process_start idle_timeout_ms options s
      → Framed s
  unfolding Framed
  Reach-Framed Reach.start = (tt, silence-IsFrame)
  Reach-Framed (Reach.next r st) = Step-Framed st (Reach-Framed r)

  -- Where a fade keeps samples within 16 bits, and whatever the order in which the three threads acted:
  -- when the main thread has left its loop, the WAV file that it writes is one that `read` accepts, at
  -- 8000 Hz, with one channel and 16 bits, and gives back its samples. They are 160 for each
  -- frame played, but for the frames that were underruns.
  pub written-read :
      (fseek : ℕ → Bool) {options : Options} {s : System Double}
      → Reach host F process_start idle_timeout_ms options s
      → s.main ≡ over
      → (read fseek (write sample_rate_hz s.samples)
          ≡ ReadResult.ok (finished_with sample_rate_hz s.samples))
        × (length s.samples + frame_samples * missed s.given ≡ frame_samples * s.jbuf.frames_played)
  unfolding Framed
  written-read fseek {s = s} r at_end =
      let (done, same, count, under) =
        Reach-samples host F process_start idle_timeout_ms r at_end in
      let frames = (Reach-Framed r).0 in
      let few =
        few_played s.jbuf (Reach-Accounted host F process_start idle_timeout_ms r).well_formed in
      let size = length-kept s.given frames in
      let all : All IsI16 s.samples = subst (All IsI16) (sym same) (kept-IsI16 s.given frames) in
      let total = ap length same in
      (
        read-write fseek sample_rate_hz s.samples (omega arith) all
            (omega (arith, size, total, count, few)),
        omega (arith, size, total, count),
      )

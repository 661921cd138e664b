-- ===== src/Jitter/Target.antt =====
-- The target depth, which `update_jitter_estimate` adapts.
use rtp_audio_streamer.Base.{
  ℕ, ◌≤◌, ◌≡◌, arith, Bool, List, [], ◌∷◌, ◌++◌, All, inl, inr, Bool-cases,
}
use rtp_audio_streamer.Base.Int.{ℤ}
use rtp_audio_streamer.Host.{Host}
use rtp_audio_streamer.Jitter.{
  Arithmetic, JitterBuffer, Estimate, Options, new_buffer, min_target_ms, max_target_ms,
}
use rtp_audio_streamer.Jitter.Push.{
  Arrival, push, place, observe, begin, count_arrival, clamp_target, target_of,
  update_jitter_estimate,
}
use rtp_audio_streamer.Jitter.Pull.{
  try_pull_due_frame, play, lose, mark_stream_ended, is_due, has_packet,
}
use rtp_audio_streamer.Jitter.Decode.{conceal}
use rtp_audio_streamer.Jitter.Playback.{Call, arrive, pull, end_stream, step, run}

abbrev pub IsTarget : ℕ → Type 0
IsTarget ms = (min_target_ms ≤ ms) × (ms ≤ max_target_ms)

-- The current target and every one in the history.
abbrev pub InRange : {Double : Type 0} → Estimate Double → Type 0
InRange e = IsTarget e.target_depth_ms × All IsTarget e.target_depth_history_ms

clamp_target-IsTarget : (t : ℤ) → IsTarget (clamp_target t)
unfolding clamp_target
clamp_target-IsTarget t = ground arith

All-snoc : (xs : List ℕ) (x : ℕ) → All IsTarget xs → IsTarget x → All IsTarget (xs ++ (x ∷ []))
All-snoc [] x h p = (p, tt)
All-snoc (y ∷ ys) x h p = (h.0, All-snoc ys x h.1 p)

module _ {Double : Type 0} (F : Arithmetic Double) where
  target_of-IsTarget : (j : Double) → IsTarget (target_of F j)
  unfolding target_of
  target_of-IsTarget j = clamp_target-IsTarget _

  update-InRange :
      (collect : Bool) (t arrival : ℕ) (e : Estimate Double)
      → InRange e
      → InRange (update_jitter_estimate F collect t arrival e)
  unfolding update_jitter_estimate
  update-InRange collect t arrival e h = elim (Bool-cases e.have_prev_arrival) [
    | inr first ↦ rw first h
    | inl later ↦ elim (Bool-cases collect) [
      | inl yes' ↦
          rw (later, yes')
            (target_of-IsTarget _, All-snoc e.target_depth_history_ms _ h.1 (target_of-IsTarget _))
      | inr no' ↦ rw (later, no') (target_of-IsTarget _, h.1)
    ]
  ]

  place_estimate : (a : Arrival) (jb : JitterBuffer Double) → (place a jb).estimate ≡ jb.estimate
  unfolding place
  place_estimate a jb = ground arith

  pull_estimate :
      (host : Host) (now : ℕ) (jb : JitterBuffer Double)
      → (try_pull_due_frame host F now jb).1.estimate ≡ jb.estimate
  unfolding try_pull_due_frame play lose conceal
  pull_estimate host now jb = elim (Bool-cases (is_due now jb)) [
    | inr wait ↦ rw wait
    | inl due ↦ elim (Bool-cases (has_packet jb)) [
      | inl there ↦ rw (due, there)
      | inr gone ↦ rw (due, gone)
    ]
  ]

  run-InRange :
      (host : Host) (cs : List Call) (jb : JitterBuffer Double)
      → InRange jb.estimate
      → InRange (run host F cs jb).1.estimate
  unfolding run step mark_stream_ended push count_arrival begin observe
  run-InRange host [] jb h = h
  run-InRange host (arrive a ∷ cs) jb h = run-InRange host cs (push F a jb) (
      rw (place_estimate a (observe a (begin a (count_arrival F a jb))))
        (update-InRange jb.options.collect_stats a.rtp_timestamp a.arrival_samples jb.estimate h))
  run-InRange host (pull now ∷ cs) jb h =
      run-InRange host cs (try_pull_due_frame host F now jb).1 (rw (pull_estimate host now jb) h)
  run-InRange host (end_stream ∷ cs) jb h = run-InRange host cs (mark_stream_ended jb) h

  -- Whatever calls are made of a new buffer, and however `double` computes, the target depth stays
  -- between 100 and 200 milliseconds, and so does every entry of its history.
  pub run_target :
      (host : Host) (o : Options) (cs : List Call)
      → InRange (run host F cs (new_buffer F o)).1.estimate
  run_target host o cs = run-InRange host cs (new_buffer F o) (omega arith, tt)

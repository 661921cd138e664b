-- ===== src/Jitter/Playback.antt =====
-- A run of the buffer, call by call, and the frames that it gives.
use rtp_audio_streamer.Base.{
  ℕ, ◌+◌, ◌^◌, ◌≤◌, ◌<◌, ◌≡◌, refl, ap, ◌∙◌, arith, true, inl, inr, Option, none, some, List, [],
  ◌∷◌, length, Bool-cases, if◌then◌else◌, All, length-replicate, get_or-replicate,
}
use rtp_audio_streamer.Base.Int.{ℤ}
use rtp_audio_streamer.Host.{Host}
use rtp_audio_streamer.Jitter.{Arithmetic, JitterBuffer, empty_slot, capacity, Options, new_buffer}
use rtp_audio_streamer.Jitter.Push.{Arrival, push, place, count_arrival, begin, observe}
use rtp_audio_streamer.Jitter.Decode.{conceal}
use rtp_audio_streamer.Jitter.Pull.{
  is_due, has_packet, play, lose, try_pull_due_frame, mark_stream_ended,
}
use rtp_audio_streamer.Jitter.Inv.{Inv, few_played}
use rtp_audio_streamer.Jitter.Keep.{push-Inv, pull-Inv}

-- What the two threads call, in the order in which they hold the mutex.
pub data Call : Type 0 where
  arrive : Arrival → Call
  pull : (now_samples : ℕ) → Call
  end_stream : Call

abbrev pub IsCall : Call → Type 0
IsCall (arrive a) = a.sequence_number < 2 ^ 16
IsCall (pull now) = Unit
IsCall end_stream = Unit

abbrev pub with_frame : Option (List ℤ) → List (List ℤ) → List (List ℤ)
with_frame none frames = frames
with_frame (some out) frames = out ∷ frames

module _ {Double : Type 0} (host : Host) (F : Arithmetic Double) where
  unfoldable pub step : Call → JitterBuffer Double → Option (List ℤ) × JitterBuffer Double
  step (arrive a) jb = (none, push F a jb)
  step (pull now) jb = try_pull_due_frame host F now jb
  step end_stream jb = (none, mark_stream_ended jb)

  -- The frames produced, in order, and the buffer afterwards.
  unfoldable pub run : List Call → JitterBuffer Double → List (List ℤ) × JitterBuffer Double
  run [] jb = ([], jb)
  run (c ∷ cs) jb =
      let (out, jb) = step c jb in let (frames, jb) = run cs jb in (with_frame out frames, jb)

  -- Each call that the threads make of the jitter buffer (`push` of a packet whose number fits 16
  -- bits, `try_pull_due_frame`, `mark_stream_ended`) keeps the invariant of the buffer.
  pub step-Inv : (c : Call) (jb : JitterBuffer Double) → IsCall c → Inv jb → Inv (step c jb).1
  unfolding step mark_stream_ended
  step-Inv (arrive a) jb h v = push-Inv F a jb h v
  step-Inv (pull now) jb h v = pull-Inv host F now jb v
  step-Inv end_stream jb h v = v

  pub place-kept :
      (a : Arrival) (jb : JitterBuffer Double)
      → ((place a jb).frames_played ≡ jb.frames_played)
        × ((place a jb).started ≡ jb.started)
        × ((place a jb).base_sequence ≡ jb.base_sequence)
  unfolding place
  place-kept a jb = ground arith

  pub push-kept :
      (a : Arrival) (jb : JitterBuffer Double)
      → ((push F a jb).frames_played ≡ jb.frames_played)
        × ((push F a jb).started ≡ true)
        × (jb.started ≡ true → (push F a jb).base_sequence ≡ jb.base_sequence)
  unfolding push count_arrival begin observe
  push-kept a jb =
      let kept = place-kept a (observe a (begin a (count_arrival F a jb))) in
      (kept.0, kept.1, λ on. kept.2 ∙ rw on)

  pub pull-kept :
      (now : ℕ) (jb : JitterBuffer Double)
      → Inv jb
      → ((try_pull_due_frame host F now jb).1.frames_played
          ≡ (if is_due now jb then jb.frames_played + 1 else jb.frames_played))
        × ((try_pull_due_frame host F now jb).1.started ≡ jb.started)
        × ((try_pull_due_frame host F now jb).1.base_sequence ≡ jb.base_sequence)
  unfolding try_pull_due_frame play lose conceal
  pull-kept now jb v = elim (Bool-cases (is_due now jb)) [
    | inr wait ↦ rw wait (refl, refl, refl)
    | inl due ↦ elim (Bool-cases (has_packet jb)) [
      | inl there ↦ rw (due, there) (omega (arith, few_played jb v), refl, refl)
      | inr gone ↦ rw (due, gone) (omega (arith, few_played jb v), refl, refl)
    ]
  ]

  pull-output :
      (now : ℕ) (jb : JitterBuffer Double)
      → length (with_frame (try_pull_due_frame host F now jb).0 [])
        ≡ (if is_due now jb then 1 else 0)
  unfolding try_pull_due_frame
  pull-output now jb = elim (Bool-cases (is_due now jb)) [ inr wait ↦ rw wait | inl due ↦ rw due ]

  length-with_frame :
      (out : Option (List ℤ)) (frames : List (List ℤ))
      → length (with_frame out frames) ≡ length (with_frame out []) + length frames
  length-with_frame none frames = omega arith
  length-with_frame (some out) frames = omega arith

  -- A step plays one frame or none.
  step-played :
      (c : Call) (jb : JitterBuffer Double)
      → Inv jb
      → (step c jb).1.frames_played ≡ length (with_frame (step c jb).0 []) + jb.frames_played
  unfolding step mark_stream_ended
  step-played (arrive a) jb v = omega (arith, (push-kept a jb).0)
  step-played (pull now) jb v =
      let p = (pull-kept now jb v).0 in let o = pull-output now jb in ground (arith, p, o)
  step-played end_stream jb v = omega arith

  run-Inv :
      (cs : List Call) (jb : JitterBuffer Double)
      → All IsCall cs
      → Inv jb
      → Inv (run cs jb).1 × ((run cs jb).1.frames_played ≡ length (run cs jb).0 + jb.frames_played)
  unfolding run
  run-Inv [] jb h v = (v, omega arith)
  run-Inv (c ∷ cs) jb h v =
      let next = step-Inv c jb h.0 v in
      let rest = run-Inv cs (step c jb).1 h.1 next in
      let one = step-played c jb v in
      let sum = length-with_frame (step c jb).0 (run cs (step c jb).1).0 in
      (rest.0, omega (arith, rest.1, one, sum))

  pub new-Inv : (o : Options) → Inv (new_buffer F o)
  new-Inv o = record {
    size = length-replicate capacity empty_slot;
    base_fits = omega arith;
    highest_low = omega arith;
    highest_fits = omega arith;
    played_le = omega arith;
    not_started = λ e. (refl, λ i. ap (λ s. s.occupied) (get_or-replicate capacity i empty_slot));
    slot_ok =
        λ i small e. absurd (cc (ap (λ s. s.occupied) (get_or-replicate capacity i empty_slot)));
  }

  -- Whatever calls are made of a new buffer, it keeps its invariant; the cursor counts the frames
  -- given out, and they are 32768 at most.
  pub run_frames :
      (o : Options) (cs : List Call)
      → All IsCall cs
      → (Inv (run cs (new_buffer F o)).1)
        × ((run cs (new_buffer F o)).1.frames_played ≡ length (run cs (new_buffer F o)).0)
        × (length (run cs (new_buffer F o)).0 ≤ 2 ^ 15)
  run_frames o cs h =
      let r = run-Inv cs (new_buffer F o) h (new-Inv o) in
      let few = few_played (run cs (new_buffer F o)).1 r.0 in
      (r.0, omega (arith, r.1), omega (arith, r.1, few))

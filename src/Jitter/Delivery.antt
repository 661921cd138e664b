-- ===== src/Jitter/Delivery.antt =====
-- What a call of `try_pull_due_frame` gives for the frame at the cursor, and when a packet is heard.
use rtp_audio_streamer.Base.{
  ℕ, zero, suc, ◌+◌, ◌-◌, ◌%◌, ◌^◌, ◌<◌, ◌≡◌, refl, ap, ◌∙◌, arith, Bool, true, false, inl, inr,
  Option, none, some, List, [], ◌∷◌, get_or, Bool-cases, if◌then◌else◌, ◌==◌, All,
}
use native.Mathlib.Decide.{ℕ_discrete}
use rtp_audio_streamer.Base.Int.{ℤ}
use rtp_audio_streamer.Host.{Host}
use rtp_audio_streamer.Jitter.{Arithmetic, JitterBuffer, Slot, capacity}
use rtp_audio_streamer.Jitter.Push.{Arrival, push}
use rtp_audio_streamer.Jitter.Decode.{decode_slot, conceal}
use rtp_audio_streamer.Jitter.Pull.{
  is_due, cursor_slot, cursor_sequence, has_packet, play, lose, try_pull_due_frame, pull_not_due,
  pull_play, pull_lose, mark_stream_ended,
}
use rtp_audio_streamer.Jitter.Inv.{offset, Inv}
use rtp_audio_streamer.Jitter.Keep.{push-Inv, pull-Inv}
use rtp_audio_streamer.Jitter.Buffered.{waiting, buffered, IsAhead, push-buffered, waiting-set_ne}
use rtp_audio_streamer.Jitter.Playback.{
  Call, IsCall, arrive, pull, end_stream, step, run, push-kept, pull-kept,
}

-- The frame given for what waits at the cursor.
abbrev pub heard :
    {Double : Type 0} → Host → Arithmetic Double → JitterBuffer Double → Option Slot → List ℤ
heard host F jb none = (lose F jb).0
heard host F jb (some slot) = decode_slot host slot

module _ {Double : Type 0} (host : Host) (F : Arithmetic Double) where
  pub at_cursor :
      (jb : JitterBuffer Double)
      → buffered jb jb.frames_played ≡ (if has_packet jb then some (cursor_slot jb) else none)
  unfolding waiting
  at_cursor jb = refl

  pub kept_ahead :
      (now : ℕ) (jb : JitterBuffer Double) (n : ℕ)
      → Inv jb
      → jb.frames_played < n
      → n < jb.frames_played + capacity
      → buffered (try_pull_due_frame host F now jb).1 n ≡ buffered jb n
  unfolding play lose conceal
  kept_ahead now jb n v later near = elim (Bool-cases (is_due now jb)) [
    | inr wait ↦ rw (pull_not_due host F now jb wait)
    | inl due ↦ elim (Bool-cases (has_packet jb)) [
      | inl there ↦ rw (pull_play host F now jb due there) (
          waiting-set_ne jb.slots jb.base_sequence n (cursor_sequence jb % capacity)
            (record (cursor_slot jb) { occupied = false }) (omega (arith, v.base_fits)))
      | inr gone ↦ rw (pull_lose host F now jb due gone)
    ]
  ]

  output :
      (now : ℕ) (jb : JitterBuffer Double)
      → (try_pull_due_frame host F now jb).0
        ≡ (if is_due now jb then some (heard host F jb (buffered jb jb.frames_played)) else none)
  unfolding play
  output now jb = elim (Bool-cases (is_due now jb)) [
    | inr wait ↦ rw (pull_not_due host F now jb wait, wait)
    | inl due ↦ elim (Bool-cases (has_packet jb)) [
      | inl there ↦ rw (at_cursor jb, there, pull_play host F now jb due there, due)
      | inr gone ↦ rw (at_cursor jb, gone, pull_lose host F now jb due gone, due)
    ]
  ]

  -- A call with no frame due gives none and leaves the cursor. Otherwise it gives the samples of
  -- the packet that waits for the cursor's frame, or the concealed frame if none waits, and the
  -- cursor moves one frame on. Either way, what waits for a frame `n` after the cursor's, within
  -- reach of the 32 slots, is as it was.
  pub pull-buffered :
      (now : ℕ) (jb : JitterBuffer Double) (n : ℕ)
      → Inv jb
      → jb.frames_played < n
      → n < jb.frames_played + capacity
      → ((try_pull_due_frame host F now jb).0
          ≡ (if is_due now jb then some (heard host F jb (buffered jb jb.frames_played)) else none))
        × ((try_pull_due_frame host F now jb).1.frames_played
            ≡ (if is_due now jb then jb.frames_played + 1 else jb.frames_played))
        × (buffered (try_pull_due_frame host F now jb).1 n ≡ buffered jb n)
  pull-buffered now jb n v later near =
      (output now jb, (pull-kept host F now jb v).0, kept_ahead now jb n v later near)

  -- The frame of a packet that waits stays ahead, and the packet waits on, until a pull gives it.
  pub still_waiting :
      (a : Arrival) (jb : JitterBuffer Double) (n : ℕ) (s : Slot)
      → a.sequence_number < 2 ^ 16
      → jb.started ≡ true
      → Inv jb
      → IsAhead jb n
      → buffered jb n ≡ some s
      → buffered (push F a jb) n ≡ some s
  still_waiting a jb n s h on v ahead held =
      push-buffered F a jb n h on v ahead
      ∙ rw held (both (offset jb.base_sequence a.sequence_number == n))
    where
      both : (b : Bool) → (if b then some s else some s) ≡ some s
      both true = refl
      both false = refl

  next_frame :
      (out : List ℤ) (frames : List (List ℤ)) (k : ℕ)
      → 0 < k
      → get_or (out ∷ frames) k [] ≡ get_or frames (k - 1) []
  next_frame out frames zero h = absurd (omega arith)
  next_frame out frames (suc k) h = ap (λ m. get_or frames m []) (omega arith)

  first_frame :
      (out : List ℤ) (frames : List (List ℤ)) (k : ℕ) → k ≡ 0 → get_or (out ∷ frames) k [] ≡ out
  first_frame out frames k e = ap (λ m. get_or (out ∷ frames) m []) e

  -- By the distance `k` of the frame from the cursor.
  run_plays_at :
      (cs : List Call) (jb : JitterBuffer Double) (n k : ℕ) (s : Slot)
      → n ≡ jb.frames_played + k
      → All IsCall cs
      → Inv jb
      → jb.started ≡ true
      → IsAhead jb n
      → buffered jb n ≡ some s
      → n < (run host F cs jb).1.frames_played
      → get_or (run host F cs jb).0 k [] ≡ decode_slot host s
  unfolding run step mark_stream_ended
  run_plays_at [] jb n k s e h v on ahead held past = absurd (omega arith)
  run_plays_at (end_stream ∷ cs) jb n k s e h v on ahead held past =
      run_plays_at cs (mark_stream_ended jb) n k s e h.1 v on ahead held past
  run_plays_at (arrive a ∷ cs) jb n k s e h v on ahead held past =
      let kept = push-kept host F a jb in
      run_plays_at cs (push F a jb) n k s (omega (arith, kept.0)) h.1 (push-Inv F a jb h.0 v) kept.1
        (omega (arith, kept.0), omega (arith, kept.0), ahead.2)
        (still_waiting a jb n s h.0 on v ahead held) past
  run_plays_at (pull now ∷ cs) jb n k s e h v on ahead held past =
      let next = (try_pull_due_frame host F now jb).1 in
      let kept = pull-kept host F now jb v in
      elim (Bool-cases (is_due now jb)) [
        | inr wait ↦
            let same = pull_not_due host F now jb wait in
            rw same (run_plays_at cs jb n k s e h.1 v on ahead held (rw same at past))
        | inl due ↦ elim (ℕ_discrete jb.frames_played n) [
          | yes here ↦
              rw (output now jb, due)
                (first_frame (heard host F jb (buffered jb jb.frames_played)) (run host F cs next).0
                    k (omega arith)
                  ∙ ap (heard host F jb) (ap (buffered jb) here ∙ held))
          | no other ↦
              let moved : next.frames_played ≡ jb.frames_played + 1 = rw due at kept.0 in
              rw (output now jb, due)
                (next_frame (heard host F jb (buffered jb jb.frames_played)) (run host F cs next).0
                    k (omega arith)
                  ∙ run_plays_at cs next n (k - 1) s (omega (arith, moved)) h.1
                      (pull-Inv host F now jb v) (kept.1 ∙ on)
                      (omega (arith, moved), omega (arith, moved), ahead.2)
                      (kept_ahead now jb n v (omega arith) ahead.1 ∙ held) past)
        ]
      ]

  -- Whatever calls are made of a started buffer: a packet that waits for frame `n`, which the slots
  -- can hold, is decoded as the frame given out in the place of `n`, once the cursor is past it.
  pub run_plays :
      (cs : List Call) (jb : JitterBuffer Double) (n : ℕ) (s : Slot)
      → All IsCall cs
      → Inv jb
      → jb.started ≡ true
      → IsAhead jb n
      → buffered jb n ≡ some s
      → n < (run host F cs jb).1.frames_played
      → get_or (run host F cs jb).0 (n - jb.frames_played) [] ≡ decode_slot host s
  run_plays cs jb n s h v on ahead held past =
      run_plays_at cs jb n (n - jb.frames_played) s (omega arith) h v on ahead held past

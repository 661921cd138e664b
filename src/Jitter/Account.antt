-- ===== src/Jitter/Account.antt =====
-- The counters of the jitter buffer: where every packet received went, and every frame played.
use rtp_audio_streamer.Base.{
  ℕ, zero, suc, ◌+◌, ◌%◌, ◌^◌, ◌<◌, ◌≡◌, refl, ap, arith, Bool, true, false, inl, inr, List, [],
  ◌∷◌, get_or, set, u64, Bool-cases, All, length, ==_iff,
}
use rtp_audio_streamer.Host.{Host}
use rtp_audio_streamer.Jitter.{
  Arithmetic, JitterBuffer, Slot, Options, empty_slot, capacity, new_buffer,
}
use rtp_audio_streamer.Jitter.Push.{Arrival, push, filled, place, observe, begin, count_arrival}
use rtp_audio_streamer.Jitter.Decode.{conceal}
use rtp_audio_streamer.Jitter.Pull.{
  is_due, cursor_slot, cursor_sequence, has_packet, play, lose, try_pull_due_frame, pull_not_due,
  pull_play, pull_lose, mark_stream_ended,
}
use rtp_audio_streamer.Jitter.Inv.{
  Inv, InReach, reach_dec, few_played, begin-Inv, observe-Inv, place-InReach, place-not_InReach,
}
use rtp_audio_streamer.Jitter.Keep.{push-Inv, pull-Inv}
use rtp_audio_streamer.Jitter.Playback.{Call, IsCall, arrive, pull, end_stream, step, run, new-Inv}

abbrev one_if : Bool → ℕ
one_if true = 1
one_if false = 0

abbrev pub occupied_count : List Slot → ℕ
occupied_count [] = 0
occupied_count (s ∷ ss) = one_if s.occupied + occupied_count ss

occupied_count-set :
    (xs : List Slot) (i : ℕ) (s : Slot)
    → i < length xs
    → occupied_count (set xs i s) + one_if (get_or xs i empty_slot).occupied
      ≡ occupied_count xs + one_if s.occupied
occupied_count-set [] i s h = absurd (omega arith)
occupied_count-set (x ∷ xs) zero s h = omega arith
occupied_count-set (x ∷ xs) (suc i) s h =
    let rest = occupied_count-set xs i s (omega arith) in omega (arith, rest)

module _ {Double : Type 0} where
  -- The packets received are those dropped as late, those dropped as duplicates, those that wait,
  -- and those played, which are the frames played but for the lost ones; each lost one is concealed.
  abbrev pub Balanced : JitterBuffer Double → ℕ → Type 0
  Balanced jb pending =
      (u64 (jb.counts.received + jb.counts.lost)
        ≡ u64 (
            pending
            + jb.counts.late_dropped
            + jb.counts.duplicate
            + occupied_count jb.slots
            + jb.frames_played))
      × (jb.counts.lost ≡ jb.counts.concealed)

  -- A packet in reach finds its slot free, or holding itself.
  no_overwrite :
      (a : Arrival) (jb : JitterBuffer Double)
      → Inv jb
      → a.sequence_number < 2 ^ 16
      → InReach jb.base_sequence jb.frames_played a.sequence_number
      → let slot = get_or jb.slots (a.sequence_number % capacity) empty_slot in
        slot.occupied ≡ true → slot.sequence_number ≡ a.sequence_number
  no_overwrite a jb v h r full =
      let ok = v.slot_ok (a.sequence_number % capacity) (omega arith) full in
      omega (arith, ok.fits, ok.own_index, ok.not_played, ok.in_reach, ok.in_half, v.base_fits)

  place-Balanced :
      (a : Arrival) (jb : JitterBuffer Double)
      → a.sequence_number < 2 ^ 16
      → Inv jb
      → Balanced jb 1
      → Balanced (place a jb) 0
  place-Balanced a jb h v b = elim (reach_dec jb.base_sequence jb.frames_played a.sequence_number) [
    | inr r ↦ rw (place-not_InReach a jb h v r) (omega (arith, b.0), b.1)
    | inl r ↦
        let i = a.sequence_number % capacity in
        let slot = get_or jb.slots i empty_slot in
        elim (Bool-cases slot.occupied) [
          | inl full ↦
              let own = no_overwrite a jb v h r full in
              rw (place-InReach a jb h v r, full, (==_iff _ _).1 own) (omega (arith, b.0), b.1)
          | inr free ↦
              let count = occupied_count-set jb.slots i (filled a) (omega (arith, v.size)) in
              let one : one_if slot.occupied ≡ 0 = ap one_if free in
              rw (place-InReach a jb h v r, free) (omega (arith, b.0, count, one), b.1)
        ]
  ]

  seen-Balanced :
      (F : Arithmetic Double) (a : Arrival) (jb : JitterBuffer Double)
      → Balanced jb 0
      → Balanced (observe a (begin a (count_arrival F a jb))) 1
  unfolding observe begin count_arrival
  seen-Balanced F a jb b = ground (arith, b.0, b.1)

  push-Balanced :
      (F : Arithmetic Double) (a : Arrival) (jb : JitterBuffer Double)
      → a.sequence_number < 2 ^ 16
      → Inv jb
      → Balanced jb 0
      → Balanced (push F a jb) 0
  unfolding push count_arrival begin observe
  push-Balanced F a jb h v b =
      place-Balanced a (observe a (begin a (count_arrival F a jb))) h
        (observe-Inv a (begin a (count_arrival F a jb)) refl
          (begin-Inv a (count_arrival F a jb) h v))
        (seen-Balanced F a jb b)

  pull-Balanced :
      (host : Host) (F : Arithmetic Double) (now : ℕ) (jb : JitterBuffer Double)
      → Inv jb
      → Balanced jb 0
      → Balanced (try_pull_due_frame host F now jb).1 0
  unfolding play lose conceal
  pull-Balanced host F now jb v b = elim (Bool-cases (is_due now jb)) [
    | inr wait ↦ rw (pull_not_due host F now jb wait) b
    | inl due ↦ elim (Bool-cases (has_packet jb)) [
      | inl there ↦
          let given = record (cursor_slot jb) { occupied = false } in
          let count =
            occupied_count-set jb.slots (cursor_sequence jb % capacity) given
              (omega (arith, v.size)) in
          let one : one_if (cursor_slot jb).occupied ≡ 1 = ground (arith, there) in
          rw (pull_play host F now jb due there)
            (omega (arith, b.0, count, one, few_played jb v), b.1)
      | inr gone ↦
          rw (pull_lose host F now jb due gone)
            (omega (arith, b.0, few_played jb v), ap (λ n. u64 (n + 1)) b.1)
    ]
  ]

module _ {Double : Type 0} (host : Host) (F : Arithmetic Double) where
  run-Balanced :
      (cs : List Call) (jb : JitterBuffer Double)
      → All IsCall cs
      → Inv jb
      → Balanced jb 0
      → Balanced (run host F cs jb).1 0
  unfolding run step mark_stream_ended
  run-Balanced [] jb h v b = b
  run-Balanced (arrive a ∷ cs) jb h v b =
      run-Balanced cs (push F a jb) h.1 (push-Inv F a jb h.0 v) (push-Balanced F a jb h.0 v b)
  run-Balanced (pull now ∷ cs) jb h v b =
      run-Balanced cs (try_pull_due_frame host F now jb).1 h.1 (pull-Inv host F now jb v)
        (pull-Balanced host F now jb v b)
  run-Balanced (end_stream ∷ cs) jb h v b = run-Balanced cs (mark_stream_ended jb) h.1 v b

  -- Whatever calls are made of a new buffer, modulo 2^64: the packets received and the frames lost
  -- together are the packets dropped as late or duplicate, those waiting in the slots, and the
  -- frames played. Every frame lost is counted as concealed.
  pub run_accounts :
      (o : Options) (cs : List Call) → All IsCall cs → Balanced (run host F cs (new_buffer F o)).1 0
  run_accounts o cs h = run-Balanced cs (new_buffer F o) h (new-Inv host F o) (refl, refl)

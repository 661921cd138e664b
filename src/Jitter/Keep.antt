-- ===== src/Jitter/Keep.antt =====
-- Every operation of the jitter buffer keeps its invariant.
use rtp_audio_streamer.Base.{
  ℕ, ◌+◌, ◌%◌, ◌^◌, ◌≤◌, ◌<◌, ◌≡◌, ◌≢◌, refl, sym, ◌∙◌, arith, Bool, true, false, inl, inr, List,
  length, get_or, set, u16, u32, length-set, get_or-set_self, get_or-set_ne, Bool-cases,
  if◌then◌else◌, ◌==◌,
}
use mathlib.Core.Path.{subst}
use native.Mathlib.Decide.{ℕ_discrete}
use rtp_audio_streamer.Host.{Host}
use rtp_audio_streamer.Jitter.{Arithmetic, JitterBuffer, Slot, empty_slot, capacity}
use rtp_audio_streamer.Jitter.Push.{Arrival, begin, observe, place, count_arrival, push, filled}
use rtp_audio_streamer.Jitter.Decode.{conceal}
use rtp_audio_streamer.Jitter.Pull.{
  past_highest, finished, is_due, cursor_sequence, has_packet, play, lose, advance_cursor,
  try_pull_due_frame, cursor_slot, pull_not_due, pull_play, pull_lose,
}
use rtp_audio_streamer.Jitter.Inv.{
  SlotOk, Window, Inv, InReach, reach_dec, begin-Inv, observe-Inv, few_played, place-InReach,
  place-not_InReach, drop_duplicate,
}

SlotOk-next :
    {base played i : ℕ} {s : Slot}
    → SlotOk base played i s
    → base < 2 ^ 16
    → played ≤ 2 ^ 15
    → i ≢ u16 (base + played) % capacity
    → SlotOk base (u32 (played + 1)) i s
SlotOk-next ok fits few other = omega arith

eq_self : (n : ℕ) → (n == n) ≡ true
eq_self n = ground arith

-- The packet in the slot of the cursor is that of the cursor.
SlotOk-cursor :
    {base played : ℕ} {s : Slot}
    → SlotOk base played (u16 (base + played) % capacity) s
    → base < 2 ^ 16
    → played ≤ 2 ^ 15
    → s.sequence_number ≡ u16 (base + played)
SlotOk-cursor ok fits few = omega arith

module _ {Double : Type 0} where
  store-Inv :
      (a : Arrival) (jb : JitterBuffer Double)
      → a.sequence_number < 2 ^ 16
      → jb.started ≡ true
      → Inv jb
      → InReach jb.base_sequence jb.frames_played a.sequence_number
      → Inv (record jb { slots = set jb.slots (a.sequence_number % capacity) (filled a) })
  store-Inv a jb h on v r = record {
    size = length-set jb.slots (a.sequence_number % capacity) (filled a) ∙ v.size;
    base_fits = v.base_fits;
    highest_low = v.highest_low;
    highest_fits = v.highest_fits;
    played_le = v.played_le;
    not_started = λ e. cc;
    slot_ok = λ i below e. elim (ℕ_discrete (a.sequence_number % capacity) i) [
      | yes here ↦
          let there : get_or (set jb.slots (a.sequence_number % capacity) (filled a)) i empty_slot
              ≡ filled a =
            rw (← here) (
              get_or-set_self jb.slots (a.sequence_number % capacity) (filled a) empty_slot
                (omega (arith, v.size))) in
          rw there
            (record { fits = h; own_index = here; not_played = r.0; in_reach = r.1; in_half = r.2 })
      | no other ↦
          let there =
            get_or-set_ne jb.slots (a.sequence_number % capacity) i (filled a) empty_slot other in
          rw there (v.slot_ok i below (rw there at e))
    ];
  }

  place-Inv :
      (a : Arrival) (jb : JitterBuffer Double)
      → a.sequence_number < 2 ^ 16
      → jb.started ≡ true
      → Inv jb
      → Inv (place a jb)
  place-Inv a jb h on v = elim (reach_dec jb.base_sequence jb.frames_played a.sequence_number) [
    | inl r ↦ rw (place-InReach a jb h v r) (both _ (store-Inv a jb h on v r))
    | inr r ↦ rw (place-not_InReach a jb h v r) v
  ]
    where
      both :
          (b : Bool)
          → Inv (record jb { slots = set jb.slots (a.sequence_number % capacity) (filled a) })
          → Inv (
              if b
              then drop_duplicate jb
              else record jb { slots = set jb.slots (a.sequence_number % capacity) (filled a) })
      both true s = v
      both false s = s

  -- `push` keeps the invariant, whatever arrives.
  pub push-Inv :
      (F : Arithmetic Double) (a : Arrival) (jb : JitterBuffer Double)
      → a.sequence_number < 2 ^ 16
      → Inv jb
      → Inv (push F a jb)
  unfolding push count_arrival begin observe
  push-Inv F a jb h v =
      place-Inv a (observe a (begin a (count_arrival F a jb))) h refl (
        observe-Inv a (begin a (count_arrival F a jb)) refl
          (begin-Inv a (count_arrival F a jb) h v))

  -- A frame is due only if the stream has started and the cursor is not past the highest frame.
  pub is_due-started :
      (now : ℕ) (jb : JitterBuffer Double)
      → is_due now jb ≡ true
      → (jb.started ≡ true) × (past_highest jb ≡ false)
  unfolding is_due finished
  is_due-started now jb h = ground arith

  advance-Inv :
      (jb : JitterBuffer Double) (slots : List Slot)
      → Inv jb
      → jb.started ≡ true
      → past_highest jb ≡ false
      → length slots ≡ capacity
      → ((i : ℕ)
          → i < capacity
          → i ≢ cursor_sequence jb % capacity
          → get_or slots i empty_slot ≡ get_or jb.slots i empty_slot)
      → ¬ ((get_or slots (cursor_sequence jb % capacity) empty_slot).occupied ≡ true)
      → Window slots jb.started jb.base_sequence
          (u32 (jb.frames_played + 1))
          jb.highest_frame_index_seen
  advance-Inv jb slots v on below size same free = record {
    size = size;
    base_fits = v.base_fits;
    highest_low = v.highest_low;
    highest_fits = v.highest_fits;
    played_le = ground arith;
    not_started = λ e. cc;
    slot_ok = λ i small e. elim (ℕ_discrete i (cursor_sequence jb % capacity)) [
      | yes here ↦ absurd (free (subst (λ k. (get_or slots k empty_slot).occupied ≡ true) here e))
      | no other ↦
          let old = v.slot_ok i small (rw (same i small other) at e) in
          rw (same i small other) (SlotOk-next old v.base_fits (few_played jb v) other)
    ];
  }

  play-Inv :
      (host : Host) (now : ℕ) (jb : JitterBuffer Double)
      → Inv jb
      → jb.started ≡ true
      → past_highest jb ≡ false
      → Inv (advance_cursor (play host now jb).1)
  unfolding play
  play-Inv host now jb v on below =
      let i = cursor_sequence jb % capacity in
      let given = record (cursor_slot jb) { occupied = false } in
      advance-Inv jb (set jb.slots i given) v on below (length-set jb.slots i given ∙ v.size)
        (λ j small other. get_or-set_ne jb.slots i j given empty_slot (λ e. other (sym e)))
        (λ e. cc (get_or-set_self jb.slots i given empty_slot (omega (arith, v.size))))

  lose-Inv :
      (F : Arithmetic Double) (jb : JitterBuffer Double)
      → Inv jb
      → jb.started ≡ true
      → past_highest jb ≡ false
      → has_packet jb ≡ false
      → Inv (advance_cursor (lose F jb).1)
  unfolding lose conceal
  lose-Inv F jb v on below gone =
      advance-Inv jb jb.slots v on below v.size (λ j small other. refl)
        λ e.
          let ok = v.slot_ok (cursor_sequence jb % capacity) (omega arith) e in
          let here = SlotOk-cursor ok v.base_fits (few_played jb v) in
          cc (rw (e, here, eq_self (cursor_sequence jb)) at gone)

  -- `try_pull_due_frame` keeps the invariant.
  pub pull-Inv :
      (host : Host) (F : Arithmetic Double) (now : ℕ) (jb : JitterBuffer Double)
      → Inv jb
      → Inv (try_pull_due_frame host F now jb).1
  pull-Inv host F now jb v = elim (Bool-cases (is_due now jb)) [
    | inr wait ↦ rw (pull_not_due host F now jb wait) v
    | inl due ↦ elim (Bool-cases (has_packet jb)) [
      | inl there ↦
          rw (pull_play host F now jb due there)
            (play-Inv host now jb v (is_due-started now jb due).0 (is_due-started now jb due).1)
      | inr gone ↦
          rw (pull_lose host F now jb due gone)
            (lose-Inv F jb v (is_due-started now jb due).0 (is_due-started now jb due).1 gone)
    ]
  ]

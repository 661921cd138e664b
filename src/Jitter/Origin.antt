-- ===== src/Jitter/Origin.antt =====
-- Where the frames that the jitter buffer gives out come from. `Good` is any property of the packets
-- that are pushed.
use rtp_audio_streamer.Base.{
  ℕ, ◌+◌, ◌%◌, ◌≤◌, ◌<◌, ◌≡◌, refl, arith, true, false, Bool-cases, ◌⊎◌, inl, inr, some, List,
  get_or, set, get_or-set_self, get_or-set_ne, get_or-replicate, length,
}
use mathlib.Core.Path.{subst}
use native.Mathlib.Decide.{ℕ_discrete}
use rtp_audio_streamer.Base.Int.{ℤ}
use rtp_audio_streamer.Host.{Host}
use rtp_audio_streamer.Jitter.{
  Arithmetic, JitterBuffer, Options, new_buffer, Slot, empty_slot, capacity,
}
use rtp_audio_streamer.Jitter.Push.{Arrival, begin, observe, place, count_arrival, push, filled}
use rtp_audio_streamer.Jitter.Pull.{
  is_due, cursor_slot, cursor_sequence, has_packet, play, lose, try_pull_due_frame, pull_not_due,
  pull_play, pull_lose,
}
use rtp_audio_streamer.Jitter.Decode.{silence, decode_slot, faded, is_silent, conceal}
use rtp_audio_streamer.Jitter.Inv.{Inv}
use rtp_audio_streamer.Jitter.Frame.{push-concealer}

module _ {Double : Type 0} (host : Host) (F : Arithmetic Double) (Good : Slot → Type 0) where
  -- The samples of a good packet.
  pub record Real (frame : List ℤ) : Type 0 where
    pub packet : Slot
    pub good : Good packet
    pub decoded : frame ≡ decode_slot host packet

  -- What may be given out for a sequence number: its own packet, silence, or one of the three fades
  -- of a packet.
  pub data Played (sequence_number : ℕ) (frame : List ℤ) : Type 0 where
    own :
        (r : Real frame) → r.packet.sequence_number ≡ sequence_number → Played sequence_number frame
    silent : frame ≡ silence → Played sequence_number frame
    fade :
        (n : ℕ) (last : List ℤ)
        → 0 < n
        → n ≤ 3
        → Real last
        → frame ≡ faded F n last
        → Played sequence_number frame

  -- The packets that wait are good, and the last real frame was one.
  pub record Origin (jb : JitterBuffer Double) : Type 0 where
    pub waiting :
        (i : ℕ)
        → i < capacity
        → (get_or jb.slots i empty_slot).occupied ≡ true
        → Good (get_or jb.slots i empty_slot)
    pub last : jb.concealer.have_last_real_frame ≡ true → Real jb.concealer.last_real_frame

  place-slots :
      (a : Arrival) (jb : JitterBuffer Double)
      → ((place a jb).slots ≡ jb.slots)
        ⊎ ((place a jb).slots ≡ set jb.slots (a.sequence_number % capacity) (filled a))
  unfolding place
  place-slots a jb = ground arith

  set-Good :
      (slots : List Slot) (j : ℕ) (t : Slot)
      → length slots ≡ capacity
      → (t.occupied ≡ true → Good t)
      → ((i : ℕ)
          → i < capacity
          → (get_or slots i empty_slot).occupied ≡ true
          → Good (get_or slots i empty_slot))
      → (i : ℕ) → i < capacity
      → (get_or (set slots j t) i empty_slot).occupied ≡ true
      → Good (get_or (set slots j t) i empty_slot)
  set-Good slots j t size good old i below full = elim (ℕ_discrete j i) [
    | yes here ↦
        let own : get_or (set slots j t) i empty_slot ≡ t =
          rw (← here) (get_or-set_self slots j t empty_slot (omega (arith, size))) in
        rw own (good (rw own at full))
    | no other ↦
        let same = get_or-set_ne slots j i t empty_slot other in
        rw same (old i below (rw same at full))
  ]

  push-slots :
      (a : Arrival) (jb : JitterBuffer Double)
      → ((push F a jb).slots ≡ jb.slots)
        ⊎ ((push F a jb).slots ≡ set jb.slots (a.sequence_number % capacity) (filled a))
  unfolding push count_arrival begin observe
  push-slots a jb = place-slots a (observe a (begin a (count_arrival F a jb)))

  pub push-Origin :
      (a : Arrival) (jb : JitterBuffer Double)
      → Inv jb
      → Good (filled a)
      → Origin jb
      → Origin (push F a jb)
  push-Origin a jb v good o = record {
    waiting = elim (push-slots a jb) [
      | inl same ↦ rw same o.waiting
      | inr set ↦ rw set (set-Good jb.slots _ (filled a) v.size (λ t. good) o.waiting)
    ];
    last = rw (push-concealer F a jb) o.last;
  }

  cursor-Real :
      (jb : JitterBuffer Double)
      → Origin jb
      → has_packet jb ≡ true
      → (r : Real (decode_slot host (cursor_slot jb))) × (r.packet.sequence_number
          ≡ cursor_sequence jb)
  cursor-Real jb o there = (
    record {
      packet = cursor_slot jb;
      good = o.waiting (cursor_sequence jb % capacity) (omega arith) (ground arith);
      decoded = refl;
    },
    ground arith,
  )

  play-Origin :
      (now : ℕ) (jb : JitterBuffer Double)
      → Inv jb
      → has_packet jb ≡ true
      → Origin jb
      → Origin (play host now jb).1
  unfolding play
  play-Origin now jb v there o = record {
    waiting =
        set-Good jb.slots (cursor_sequence jb % capacity)
          (record (cursor_slot jb) { occupied = false }) v.size (λ t. absurd cc) o.waiting;
    last = λ t. (cursor-Real jb o there).0;
  }

  lose-Origin : (jb : JitterBuffer Double) → Origin jb → Origin (lose F jb).1
  unfolding lose conceal
  lose-Origin jb o = record { waiting = o.waiting; last = o.last }

  lose-Played :
      (jb : JitterBuffer Double) (sequence_number : ℕ)
      → Origin jb
      → Played sequence_number (lose F jb).0
  unfolding lose conceal is_silent
  lose-Played jb n o = elim (Bool-cases (is_silent F jb)) [
    | inl t ↦ Played.silent (rw t refl)
    | inr f ↦
        Played.fade (jb.concealer.consecutive_concealments + 1) jb.concealer.last_real_frame
          (omega arith) (ground arith) (o.last (ground arith)) (rw f refl)
  ]

  -- What is kept, and what is given for the frame at the cursor.
  pub pull-Origin :
      (now : ℕ) (jb : JitterBuffer Double)
      → Inv jb
      → Origin jb
      → Origin (try_pull_due_frame host F now jb).1
  pull-Origin now jb v o = elim (Bool-cases (is_due now jb)) [
    | inr wait ↦ rw (pull_not_due host F now jb wait) o
    | inl due ↦ elim (Bool-cases (has_packet jb)) [
      | inl there ↦
          let after = play-Origin now jb v there o in
          rw (pull_play host F now jb due there)
            (record { waiting = after.waiting; last = after.last })
      | inr gone ↦
          let after = lose-Origin jb o in
          rw (pull_lose host F now jb due gone)
            (record { waiting = after.waiting; last = after.last })
    ]
  ]

  pub pull-Played :
      (now : ℕ) (jb : JitterBuffer Double) (frame : List ℤ)
      → Origin jb
      → (try_pull_due_frame host F now jb).0 ≡ some frame
      → Played (cursor_sequence jb) frame
  unfolding play
  pull-Played now jb frame o e = elim (Bool-cases (is_due now jb)) [
    | inr wait ↦ absurd (cc (rw (pull_not_due host F now jb wait) at e))
    | inl due ↦ elim (Bool-cases (has_packet jb)) [
      | inl there ↦
          let same : (play host now jb).0 ≡ frame =
            cc (rw (pull_play host F now jb due there) at e) in
          let (r, n) = cursor-Real jb o there in
          subst (Played (cursor_sequence jb)) same (Played.own r n)
      | inr gone ↦
          let same : (lose F jb).0 ≡ frame = cc (rw (pull_lose host F now jb due gone) at e) in
          subst (Played (cursor_sequence jb)) same (lose-Played jb (cursor_sequence jb) o)
    ]
  ]

  -- A new buffer holds no packet.
  pub new-Origin : (options : Options) → Origin (new_buffer F options)
  new-Origin options = record {
    waiting = λ i below full. absurd (cc (rw (get_or-replicate capacity i empty_slot) at full));
    last = λ t. absurd cc;
  }

-- ===== src/Jitter/Inv.antt =====
-- The invariant of the jitter buffer: where the cursor stands, and which packets the slots hold.
use rtp_audio_streamer.Base.{
  ℕ, ◌+◌, ◌-◌, ◌%◌, ◌^◌, ◌≤◌, ◌<◌, ◌≡◌, refl, arith, Bool, true, false, ◌⊎◌, inl, inr, List, length,
  get_or, set, u64, Bool-cases, if◌then◌else◌, ◌&&◌, ◌==◌,
}
use rtp_audio_streamer.Base.Int.{ℤ, pos, pos_part, neg_part, ltb_ℤ, ◌-ℤ◌, i32}
use rtp_audio_streamer.Stats.{sequence_delta}
use rtp_audio_streamer.Jitter.{JitterBuffer, Slot, empty_slot, capacity}
use rtp_audio_streamer.Jitter.Push.{
  Arrival, begin, observe, place, frame_index_of, filled, drop_late,
}

-- The frame that a sequence number is for, as an offset from the base.
abbrev pub offset : ℕ → ℕ → ℕ
offset base sequence_number = (sequence_number + 2 ^ 16 - base) % 2 ^ 16

-- An occupied slot holds a packet of its own index, for one of the next 32 frames.
pub record SlotOk (base played i : ℕ) (s : Slot) : Type 0 where
  pub fits : s.sequence_number < 2 ^ 16
  pub own_index : s.sequence_number % capacity ≡ i
  pub not_played : played ≤ offset base s.sequence_number
  pub in_reach : offset base s.sequence_number < played + capacity
  pub in_half : offset base s.sequence_number < 2 ^ 15

-- Over the fields that it speaks of.
pub record Window (slots : List Slot) (started : Bool) (base played : ℕ) (highest : ℤ)
    : Type 0 where
  pub size : length slots ≡ capacity
  pub base_fits : base < 2 ^ 16
  pub highest_low : neg_part highest ≤ 1
  pub highest_fits : pos_part highest < 2 ^ 15
  pub played_le : played + neg_part highest ≤ pos_part highest + 1
  pub not_started :
      started ≡ false → (played ≡ 0) × ((i : ℕ) → (get_or slots i empty_slot).occupied ≡ false)
  pub slot_ok :
      (i : ℕ)
      → i < capacity
      → (get_or slots i empty_slot).occupied ≡ true
      → SlotOk base played i (get_or slots i empty_slot)

-- The frame is to come, is within reach of the slots, and is less than half the 16-bit space ahead
-- of the base.
abbrev pub InReach : ℕ → ℕ → ℕ → Type 0
InReach base played n =
    (played ≤ offset base n) × (offset base n < played + capacity) × (offset base n < 2 ^ 15)

pub reach_dec : (base played n : ℕ) → InReach base played n ⊎ (¬ InReach base played n)
reach_dec base played n = ground arith

module _ (base played n : ℕ) (fits : base < 2 ^ 16) (small : n < 2 ^ 16)
    (few : played ≤ 2 ^ 15) where
  abbrev is_late : Bool
  is_late = ltb_ℤ (sequence_delta n base) (i32 played)

  abbrev is_near : Bool
  is_near = ltb_ℤ (sequence_delta n base -ℤ i32 played) (pos capacity)

  reach_yes : InReach base played n → (is_late ≡ false) × (is_near ≡ true)
  reach_yes h = ground arith

  reach_no : ¬ InReach base played n → (is_late ≡ true) ⊎ (is_near ≡ false)
  reach_no h = ground arith

abbrev pub Inv : {Double : Type 0} → JitterBuffer Double → Type 0
Inv jb = Window jb.slots jb.started jb.base_sequence jb.frames_played jb.highest_frame_index_seen

module _ {Double : Type 0} where
  pub begin-Inv :
      (a : Arrival) (jb : JitterBuffer Double)
      → a.sequence_number < 2 ^ 16
      → Inv jb
      → Inv (begin a jb)
  unfolding begin
  begin-Inv a jb h v = elim (Bool-cases jb.started) [
    | inl on ↦ rw on (record {
      size = v.size;
      base_fits = v.base_fits;
      highest_low = v.highest_low;
      highest_fits = v.highest_fits;
      played_le = v.played_le;
      not_started = λ e. cc;
      slot_ok = v.slot_ok;
    })
    | inr off ↦ rw off (record {
      size = v.size;
      base_fits = h;
      highest_low = v.highest_low;
      highest_fits = v.highest_fits;
      played_le = v.played_le;
      not_started = λ e. cc;
      slot_ok = λ i below e. absurd (cc ((v.not_started off).1 i));
    })
  ]

  pub observe-Inv :
      (a : Arrival) (jb : JitterBuffer Double) → jb.started ≡ true → Inv jb → Inv (observe a jb)
  unfolding observe frame_index_of
  observe-Inv a jb on v = record {
    size = v.size;
    base_fits = v.base_fits;
    highest_low = ground arith;
    highest_fits = ground arith;
    played_le = ground arith;
    not_started = v.not_started;
    slot_ok = v.slot_ok;
  }

  pub few_played : (jb : JitterBuffer Double) → Inv jb → jb.frames_played ≤ 2 ^ 15
  few_played jb v = omega arith

  abbrev pub drop_duplicate : JitterBuffer Double → JitterBuffer Double
  drop_duplicate jb = record jb {
    counts = record (jb.counts) { duplicate = u64 (jb.counts.duplicate + 1) };
  }

  -- A packet in reach is stored, unless it is in its slot already.
  pub place-InReach :
      (a : Arrival) (jb : JitterBuffer Double)
      → a.sequence_number < 2 ^ 16
      → Inv jb
      → InReach jb.base_sequence jb.frames_played a.sequence_number
      → let i = a.sequence_number % capacity in
        let slot = get_or jb.slots i empty_slot in
        place a jb ≡ (
          if slot.occupied && slot.sequence_number == a.sequence_number
          then drop_duplicate jb
          else record jb { slots = set jb.slots i (filled a) })
  unfolding place frame_index_of
  place-InReach a jb h v r =
      let t =
        reach_yes jb.base_sequence jb.frames_played a.sequence_number v.base_fits h
          (few_played jb v) r in
      rw (t.0, t.1)

  -- Any other is dropped as late.
  pub place-not_InReach :
      (a : Arrival) (jb : JitterBuffer Double)
      → a.sequence_number < 2 ^ 16
      → Inv jb
      → ¬ InReach jb.base_sequence jb.frames_played a.sequence_number
      → place a jb ≡ drop_late jb
  unfolding place frame_index_of
  place-not_InReach a jb h v r =
      elim (reach_no jb.base_sequence jb.frames_played a.sequence_number v.base_fits h
        (few_played jb v) r) [
          | inl late ↦ rw late
          | inr far ↦ rw far (
              either
                (ltb_ℤ (sequence_delta a.sequence_number jb.base_sequence) (i32 jb.frames_played)))
        ]
    where
      either : (b : Bool) → (if b then drop_late jb else drop_late jb) ≡ drop_late jb
      either true = refl
      either false = refl

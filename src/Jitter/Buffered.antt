-- ===== src/Jitter/Buffered.antt =====
-- The slots as a map from the frames to come to the packets that wait for them.
use rtp_audio_streamer.Base.{
  ℕ, ◌+◌, ◌%◌, ◌^◌, ◌≤◌, ◌<◌, ◌≡◌, ◌≢◌, refl, sym, ◌∙◌, arith, Bool, true, false, ◌&&◌, inl, inr,
  Option, none, some, List, length, get_or, set, u16, get_or-set_self, get_or-set_ne, Bool-cases,
  if◌then◌else◌, ◌==◌, ==_iff, ne→not_eq,
}
use mathlib.Core.Path.{subst}
use native.Mathlib.Decide.{ℕ_discrete}
use rtp_audio_streamer.Jitter.{Arithmetic, JitterBuffer, Slot, empty_slot, capacity}
use rtp_audio_streamer.Jitter.Push.{Arrival, begin, observe, place, count_arrival, push, filled}
use rtp_audio_streamer.Jitter.Inv.{
  offset, Inv, InReach, reach_dec, begin-Inv, observe-Inv, place-InReach, place-not_InReach,
  drop_duplicate,
}

-- The packet that waits for frame `n`, in slots whose first frame has sequence number `base`.
unfoldable pub waiting : List Slot → ℕ → ℕ → Option Slot
waiting slots base n =
    let slot = get_or slots (u16 (base + n) % capacity) empty_slot in
    if slot.occupied && slot.sequence_number == u16 (base + n) then some slot else none

abbrev pub buffered : {Double : Type 0} → JitterBuffer Double → ℕ → Option Slot
buffered jb n = waiting jb.slots jb.base_sequence n

-- The packet that came first stays.
abbrev pub or_else : Option Slot → Slot → Option Slot
or_else none s = some s
or_else (some t) s = some t

module _ (base n sequence : ℕ) (fits : base < 2 ^ 16) (small : sequence < 2 ^ 16)
    (half : n < 2 ^ 15) where
  offset_self : offset base sequence ≡ n → u16 (base + n) ≡ sequence
  offset_self e = omega arith

  offset_other : offset base sequence ≢ n → u16 (base + n) ≢ sequence
  offset_other e = omega arith

-- Writing the slot of one sequence number leaves what waits for another frame in reach.
pub waiting-set_ne :
    (slots : List Slot) (base n i : ℕ) (s : Slot)
    → u16 (base + n) % capacity ≢ i
    → waiting (set slots i s) base n ≡ waiting slots base n
unfolding waiting
waiting-set_ne slots base n i s other =
    rw (get_or-set_ne slots i (u16 (base + n) % capacity) s empty_slot (λ e. other (sym e)))

pub waiting-set_self :
    (slots : List Slot) (base n : ℕ) (s : Slot)
    → length slots ≡ capacity
    → waiting (set slots (u16 (base + n) % capacity) s) base n
      ≡ (if s.occupied && s.sequence_number == u16 (base + n) then some s else none)
unfolding waiting
waiting-set_self slots base n s size =
    rw (get_or-set_self slots (u16 (base + n) % capacity) s empty_slot (omega (arith, size)))

-- The test of `push` for a packet that is there already.
abbrev is_there : List Slot → ℕ → Bool
is_there slots sequence =
    let slot = get_or slots (sequence % capacity) empty_slot in
    slot.occupied && slot.sequence_number == sequence

abbrev stored : List Slot → ℕ → Slot → List Slot
stored slots sequence s =
    if is_there slots sequence then slots else set slots (sequence % capacity) s

own_test :
    (s : Slot) (q : ℕ)
    → s.occupied ≡ true
    → s.sequence_number ≡ q
    → (if s.occupied && s.sequence_number == q then some s else none) ≡ some s
own_test s q full own = ground arith

stored_hit :
    (slots : List Slot) (base n : ℕ) (s : Slot)
    → length slots ≡ capacity
    → s.occupied ≡ true
    → s.sequence_number ≡ u16 (base + n)
    → waiting (stored slots (u16 (base + n)) s) base n ≡ or_else (waiting slots base n) s
stored_hit slots base n s size full own = elim (Bool-cases (is_there slots (u16 (base + n)))) [
  | inl there ↦ rw there (unfold waiting in rw there)
  | inr free ↦
      let nothing : waiting slots base n ≡ none = unfold waiting in rw free in
      rw (free, nothing)
        (waiting-set_self slots base n s size ∙ own_test s (u16 (base + n)) full own)
]

stored_other :
    (slots : List Slot) (base n sequence : ℕ) (s : Slot)
    → u16 (base + n) % capacity ≢ sequence % capacity
    → waiting (stored slots sequence s) base n ≡ waiting slots base n
stored_other slots base n sequence s other = elim (Bool-cases (is_there slots sequence)) [
  | inl there ↦ rw there
  | inr free ↦ rw free (waiting-set_ne slots base n (sequence % capacity) s other)
]

module _ {Double : Type 0} where
  -- A frame that the slots can hold.
  abbrev pub IsAhead : JitterBuffer Double → ℕ → Type 0
  IsAhead jb n = (jb.frames_played ≤ n) × (n < jb.frames_played + capacity) × (n < 2 ^ 15)

  place-stored :
      (a : Arrival) (jb : JitterBuffer Double)
      → a.sequence_number < 2 ^ 16
      → Inv jb
      → InReach jb.base_sequence jb.frames_played a.sequence_number
      → ((place a jb).slots ≡ stored jb.slots a.sequence_number (filled a))
        × ((place a jb).base_sequence ≡ jb.base_sequence)
  place-stored a jb h v r = rw (place-InReach a jb h v r) (both _)
    where
      both :
          (b : Bool)
          → let kept = record jb {
            slots = set jb.slots (a.sequence_number % capacity) (filled a);
          } in
            ((if b then drop_duplicate jb else kept).slots
              ≡ (if b then jb.slots else set jb.slots (a.sequence_number % capacity) (filled a)))
            × ((if b then drop_duplicate jb else kept).base_sequence ≡ jb.base_sequence)
      both true = (refl, refl)
      both false = (refl, refl)

  waiting-store :
      (a : Arrival) (jb : JitterBuffer Double) (n : ℕ)
      → a.sequence_number < 2 ^ 16
      → Inv jb
      → IsAhead jb n
      → InReach jb.base_sequence jb.frames_played a.sequence_number
      → waiting (stored jb.slots a.sequence_number (filled a)) jb.base_sequence n ≡ (
          if offset jb.base_sequence a.sequence_number == n
          then or_else (buffered jb n) (filled a)
          else buffered jb n)
  waiting-store a jb n h v ahead r =
      elim (ℕ_discrete (offset jb.base_sequence a.sequence_number) n) [
        | yes here ↦
            let own = offset_self jb.base_sequence n a.sequence_number v.base_fits h ahead.2 here in
            rw ((==_iff _ n).1 here) (
              subst
                (λ q.
                  waiting (stored jb.slots q (filled a)) jb.base_sequence n
                  ≡ or_else (buffered jb n) (filled a))
                own (stored_hit jb.slots jb.base_sequence n (filled a) v.size refl (sym own)))
        | no other ↦ rw (ne→not_eq _ n other) (
            stored_other jb.slots jb.base_sequence n a.sequence_number (filled a)
              (omega (arith, v.base_fits)))
      ]

  place-buffered :
      (a : Arrival) (jb : JitterBuffer Double) (n : ℕ)
      → a.sequence_number < 2 ^ 16
      → Inv jb
      → IsAhead jb n
      → buffered (place a jb) n ≡ (
          if offset jb.base_sequence a.sequence_number == n
          then or_else (buffered jb n) (filled a)
          else buffered jb n)
  place-buffered a jb n h v ahead =
      elim (reach_dec jb.base_sequence jb.frames_played a.sequence_number) [
        | inl r ↦
            let p = place-stored a jb h v r in rw (p.0, p.1) (waiting-store a jb n h v ahead r)
        | inr r ↦
            let apart : offset jb.base_sequence a.sequence_number ≢ n = λ e. r (omega arith) in
            rw (place-not_InReach a jb h v r, ne→not_eq _ n apart)
      ]

  -- A packet pushed into a started stream waits for its frame if the slots can hold that frame and
  -- no packet waits for it yet; what waits for any other frame ahead is as it was.
  pub push-buffered :
      (F : Arithmetic Double) (a : Arrival) (jb : JitterBuffer Double) (n : ℕ)
      → a.sequence_number < 2 ^ 16
      → jb.started ≡ true
      → Inv jb
      → IsAhead jb n
      → buffered (push F a jb) n ≡ (
          if offset jb.base_sequence a.sequence_number == n
          then or_else (buffered jb n) (filled a)
          else buffered jb n)
  unfolding push count_arrival begin observe
  push-buffered F a jb n h on v ahead =
      let seen = observe a (begin a (count_arrival F a jb)) in
      let same : seen.base_sequence ≡ jb.base_sequence = rw on in
      let kept =
        observe-Inv a (begin a (count_arrival F a jb)) refl
          (begin-Inv a (count_arrival F a jb) h v) in
      subst
        (λ b. buffered (place a seen) n ≡ (
          if offset b a.sequence_number == n
          then or_else (waiting jb.slots b n) (filled a)
          else waiting jb.slots b n))
        same (place-buffered a seen n h kept ahead)

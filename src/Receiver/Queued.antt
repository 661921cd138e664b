-- ===== src/Receiver/Queued.antt =====
-- The ring of src/receiver.cpp as a queue of frames, and the frames given to it in order.
use rtp_audio_streamer.Base.{
  ℕ, ◌+◌, ◌≡◌, refl, sym, ap, ◌∙◌, arith, Bool, true, false, none, some, List, [], ◌∷◌, ◌++◌,
  length, if◌then◌else◌,
}
use mathlib.Core.Path.{subst}
use mathlib.Core.List.{append_assoc, append-nil}
use native.Mathlib.Decide.{dec_lt}
use rtp_audio_streamer.Base.Int.{ℤ}
use rtp_audio_streamer.Ring.{SpscRingBuffer, IsCapacity}
use rtp_audio_streamer.Ring
use rtp_audio_streamer.Ring.Queue.{
  Holds, push_full, push_next, Holds-push, pop_empty, pop_next, Holds-pop,
}
use rtp_audio_streamer.Jitter.Decode.{silence}
use rtp_audio_streamer.Receiver.Playout.{ring_capacity}
use rtp_audio_streamer.Receiver.Threads.{draining, leaving, stopped}

-- The samples of the frames that the ring took, in order.
abbrev pub kept : List (Bool × List ℤ) → List ℤ
kept [] = []
kept ((taken, frame) ∷ rest) = (if taken then frame else []) ++ kept rest

-- How many frames the ring did not take.
abbrev pub missed : List (Bool × List ℤ) → ℕ
missed [] = 0
missed ((taken, frame) ∷ rest) = (if taken then 0 else 1) + missed rest

abbrev pub joined : List (List ℤ) → List ℤ
joined [] = []
joined (f ∷ fs) = f ++ joined fs

pub joined-append : (fs : List (List ℤ)) (f : List ℤ) → joined (fs ++ (f ∷ [])) ≡ joined fs ++ f
joined-append [] f = append-nil f
joined-append (g ∷ fs) f = rw (joined-append fs f) (sym (append_assoc g (joined fs) f))

pub kept-append :
    (gs : List (Bool × List ℤ)) (taken : Bool) (f : List ℤ)
    → kept (gs ++ ((taken, f) ∷ [])) ≡ kept gs ++ (if taken then f else [])
kept-append [] taken f = append-nil (if taken then f else [])
kept-append ((b, g) ∷ gs) taken f =
    rw (kept-append gs taken f)
      (sym (append_assoc (if b then g else []) (kept gs) (if taken then f else [])))

pub missed-append :
    (gs : List (Bool × List ℤ)) (taken : Bool) (f : List ℤ)
    → missed (gs ++ ((taken, f) ∷ [])) ≡ missed gs + (if taken then 0 else 1)
missed-append [] taken f = omega arith
missed-append ((b, g) ∷ gs) taken f = omega (arith, missed-append gs taken f)

pub ring_capacity-IsCapacity : IsCapacity ring_capacity
ring_capacity-IsCapacity = record {
  exponent = 10;
  power_of_two = refl;
  at_least_two = omega arith;
  addressable = omega arith;
}

abbrev pub Queued : SpscRingBuffer (List ℤ) → List (List ℤ) → Type 0
Queued = Holds silence ring_capacity

-- What a push makes of a ring that holds `q`.
pub push-Queued :
    (f : List ℤ) {r : SpscRingBuffer (List ℤ)} {q : List (List ℤ)}
    → Queued r q
    → let pushed = Ring.push silence ring_capacity f r in
      Queued pushed.1 (if pushed.0 then q ++ (f ∷ []) else q)
push-Queued f {r} {q} h = elim (dec_lt (length q + 1) ring_capacity) [
  | yes free ↦
      rw (push_next silence ring_capacity ring_capacity-IsCapacity f h free)
        (Holds-push silence ring_capacity ring_capacity-IsCapacity f h free)
  | no full ↦ rw (push_full silence ring_capacity ring_capacity-IsCapacity f h (omega arith)) h
]

-- The ring gives its first frame, and is empty only if it holds none.
pub pop-Queued :
    {r ring : SpscRingBuffer (List ℤ)} {f : List ℤ} (q : List (List ℤ))
    → Queued r q
    → Ring.pop silence ring_capacity r ≡ (some f, ring)
    → (q' : List (List ℤ)) × (q ≡ f ∷ q') × Queued ring q'
pop-Queued [] h e = absurd (cc (pop_empty silence ring_capacity ring_capacity-IsCapacity h, e))
pop-Queued (x ∷ q') h e =
    let same = sym (pop_next silence ring_capacity ring_capacity-IsCapacity h) ∙ e in
    (
      q',
      cc same,
      subst (λ r. Queued r q') (ap (λ t. t.1) same)
          (Holds-pop silence ring_capacity ring_capacity-IsCapacity h),
    )

pub pop_nothing :
    {r ring : SpscRingBuffer (List ℤ)} (q : List (List ℤ))
    → Queued r q
    → Ring.pop silence ring_capacity r ≡ (none, ring)
    → q ≡ []
pop_nothing [] h e = refl
pop_nothing (x ∷ q) h e = absurd (cc (pop_next silence ring_capacity ring_capacity-IsCapacity h, e))

pub still_on : (now : ℕ) (b : Bool) → ¬ ((if b then leaving else draining now) ≡ stopped)
still_on now true e = absurd cc
still_on now false e = absurd cc

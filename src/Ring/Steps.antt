-- ===== src/Ring/Steps.antt =====
-- The calls of `push` and `pop` are runs of steps: one thread's call while the other stands still.
use native.Mathlib.Decide.{ℕ_discrete}
use native.Mathlib.Nat.{le_refl}
use rtp_audio_streamer.Base.{
  ℕ, ◌≡◌, refl, sym, ◌∙◌, arith, none, some, [], ◌∷◌, ◌++◌, length, if◌then◌else◌,
}
use rtp_audio_streamer.Ring.{IsCapacity, next_index, push, pop}
use rtp_audio_streamer.Ring.Thread.{System, Step, Producer, Consumer, Reach}
use rtp_audio_streamer.Ring.Queue.{Op}
use rtp_audio_streamer.Ring.Inv.{Inv, Reach-Inv}

module _ {T : Type 0} (blank : T) (capacity : ℕ) (cap : IsCapacity capacity) where
  -- An uninterrupted call of `push` in a reachable state is a run of the producer's steps that ends
  -- in the ring of `push`, with the item sent exactly if `push` returns true.
  pub push-Reach :
      (item : T) {s : System T}
      → Reach blank capacity s
      → s.producer ≡ Producer.idle
      → (t : System T) × Reach blank capacity t
        × (t.ring ≡ (push blank capacity item s.ring).1)
        × (t.sent ≡ (if (push blank capacity item s.ring).0 then s.sent ++ (item ∷ []) else s.sent))
        × (t.received ≡ s.received)
        × (t.producer ≡ Producer.idle)
  unfolding push
  push-Reach item {s} r at_rest = elim (ℕ_discrete (next_index capacity s.ring.head) s.ring.tail) [
    | yes full ↦ (
      _,
      Reach.next (Reach.next r (Step.push_call item at_rest)) (
          Step.push_full (length s.received) refl v.tail_seen_le (le_refl _) (full ∙ v.tail_count)),
      ground arith,
      ground arith,
      refl,
      refl,
    )
    | no room ↦ (
      _,
      Reach.next
          (Reach.next
            (Reach.next (Reach.next r (Step.push_call item at_rest)) (
              Step.push_room (length s.received) refl v.tail_seen_le (le_refl _)
                (λ e. room (e ∙ sym v.tail_count))))
            (Step.push_write refl))
          (Step.push_publish refl),
      ground arith,
      ground arith,
      refl,
      refl,
    )
  ]
    where
      v : Inv blank capacity s
      v = Reach-Inv blank capacity cap r

  -- The same for `pop`: the item that it gives is received, and nothing if it gives none.
  pub pop-Reach :
      {s : System T}
      → Reach blank capacity s
      → s.consumer ≡ Consumer.idle
      → (t : System T) × Reach blank capacity t
        × (t.ring ≡ (pop blank capacity s.ring).1)
        × (t.received ≡ elim (pop blank capacity s.ring).0 [
          | none ↦ s.received
          | some out ↦ s.received ++ (out ∷ [])
        ])
        × (t.sent ≡ s.sent)
        × (t.consumer ≡ Consumer.idle)
  unfolding pop
  pop-Reach {s} r at_rest = elim (ℕ_discrete s.ring.tail s.ring.head) [
    | yes empty ↦ (
      _,
      Reach.next (Reach.next r (Step.pop_call at_rest))
          (Step.pop_empty (length s.sent) refl v.head_seen_le (le_refl _) (empty ∙ v.head_count)),
      ground arith,
      ground arith,
      refl,
      refl,
    )
    | no item ↦ (
      _,
      Reach.next
          (Reach.next
            (Reach.next (Reach.next r (Step.pop_call at_rest)) (
              Step.pop_item (length s.sent) refl v.head_seen_le (le_refl _)
                (λ e. item (e ∙ sym v.head_count))))
            (Step.pop_read refl))
          (Step.pop_release refl),
      ground arith,
      ground arith,
      refl,
      refl,
    )
  ]
    where
      v : Inv blank capacity s
      v = Reach-Inv blank capacity cap r

  -- The thread that makes a call is at rest.
  abbrev pub AtRest : Op T → System T → Type 0
  AtRest (Op.put item) s = s.producer ≡ Producer.idle
  AtRest Op.get s = s.consumer ≡ Consumer.idle

  -- What a call of the function `push` or `pop` makes of the ring, of what was sent and received, and of
  -- the thread.
  abbrev pub Called : Op T → System T → System T → Type 0
  Called (Op.put item) s t =
      (t.ring ≡ (push blank capacity item s.ring).1)
      × (t.sent ≡ (if (push blank capacity item s.ring).0 then s.sent ++ (item ∷ []) else s.sent))
      × (t.received ≡ s.received)
      × (t.producer ≡ Producer.idle)
  Called Op.get s t =
      (t.ring ≡ (pop blank capacity s.ring).1)
      × (t.received ≡ elim (pop blank capacity s.ring).0 [
        | none ↦ s.received
        | some out ↦ s.received ++ (out ∷ [])
      ])
      × (t.sent ≡ s.sent)
      × (t.consumer ≡ Consumer.idle)

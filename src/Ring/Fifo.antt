-- ===== src/Ring/Fifo.antt =====
-- What the two threads see of the queue, in every interleaving.
use mathlib.Core.Path.{subst}
use rtp_audio_streamer.Base.{ℕ, ◌+◌, ◌-◌, ◌≤◌, ◌<◌, ◌≡◌, ◌≢◌, ◌∙◌, sym, arith, length, take}
use rtp_audio_streamer.Ring.{IsCapacity}
use rtp_audio_streamer.Ring.Index.{mod_inj}
use rtp_audio_streamer.Ring.Thread.{System, Producer, Consumer, Reach}
use rtp_audio_streamer.Ring.Inv.{ProducerOk, ConsumerOk, Reach-Inv}

module _ {T : Type 0} (blank : T) (capacity : ℕ) (cap : IsCapacity capacity) where
  -- In every interleaving of one producer and one consumer the items popped are the first of the
  -- items pushed, in order, each once; and at most `capacity - 1` items are in the queue.
  pub Reach-fifo :
      {s : System T}
      → Reach blank capacity s
      → (s.received ≡ take (length s.received) s.sent)
        × (length s.received ≤ length s.sent)
        × (length s.sent ≤ length s.received + (capacity - 1))
  Reach-fifo {s} r =
      let v = Reach-Inv blank capacity cap r in (v.in_order, omega arith, omega arith)

  -- No slot is written by the producer while the consumer reads it, and both accesses are inside
  -- the array.
  pub Reach-race_free :
      {s : System T} {item : T} {head tail : ℕ}
      → Reach blank capacity s
      → s.producer ≡ Producer.write item head
      → s.consumer ≡ Consumer.read tail
      → (head ≢ tail) × (head < length s.ring.buffer) × (tail < length s.ring.buffer)
  Reach-race_free {s} {item} {head} {tail} r writing reading =
      let v = Reach-Inv blank capacity cap r in
      let p : ProducerOk blank capacity s.ring.buffer (length s.sent) s.tail_seen
          (Producer.write item head) =
        subst (ProducerOk blank capacity s.ring.buffer (length s.sent) s.tail_seen) writing
          v.producer_ok in
      let c : ConsumerOk blank capacity s.sent (length s.received) s.head_seen
          (Consumer.read tail) =
        subst (ConsumerOk blank capacity s.sent (length s.received) s.head_seen) reading
          v.consumer_ok in
      (
        λ e. omega (
          arith,
          mod_inj capacity (length s.received) (length s.sent) (omega arith) (omega arith)
              (sym c.0 ∙ (sym e ∙ p.0)),
        ),
        omega (arith, cap.at_least_two),
        omega (arith, cap.at_least_two),
      )

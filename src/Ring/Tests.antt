-- ===== src/Ring/Tests.antt =====
-- A ring of four slots: a call after the other, and both threads at work at once.
use rtp_audio_streamer.Base.{
  ℕ, ◌+◌, ◌-◌, ◌≤◌, ◌<◌, ◌≡◌, ◌≢◌, refl, arith, List, [], ◌∷◌, length, take,
}
use rtp_audio_streamer.Ring.{IsCapacity, next_index, empty_ring}
use rtp_audio_streamer.Ring.Thread.{Producer, Consumer, System, Step, Reach}
use rtp_audio_streamer.Ring.Fifo.{Reach-fifo, Reach-race_free}
use rtp_audio_streamer.Ring.Queue.{Op, run_queue, run_ring, empty-Holds, run_ring_refines}

four-IsCapacity : IsCapacity 4
four-IsCapacity = record {
  exponent = 2;
  power_of_two = refl;
  at_least_two = omega arith;
  addressable = omega arith;
}

abbrev ops : List (Op ℕ)
ops =
    Op.put 1
    ∷ Op.put 2
    ∷ Op.put 3
    ∷ Op.put 4
    ∷ Op.get
    ∷ Op.put 5
    ∷ Op.get
    ∷ Op.get
    ∷ Op.get
    ∷ Op.get
    ∷ []

run_ring_refines_example : run_ring 0 4 (empty_ring 0 4) ops ≡ run_queue 4 [] ops
run_ring_refines_example =
    run_ring_refines 0 4 four-IsCapacity ops (empty-Holds 0 4 four-IsCapacity)

-- One item is in the ring; the producer is about to write the next, the consumer to read the first.
abbrev both_busy : System ℕ
both_busy = record {
  ring = record { buffer = 7 ∷ 0 ∷ 0 ∷ 0 ∷ []; head = 1; tail = 0 };
  producer = Producer.write 8 1;
  consumer = Consumer.read 0;
  sent = 7 ∷ [];
  received = [];
  tail_seen = 0;
  head_seen = 1;
}

both_busy-Reach : Reach 0 4 both_busy
unfolding next_index
both_busy-Reach =
    let r = Reach.next Reach.start (Step.push_call 7 refl) in
    let r =
      Reach.next r (Step.push_room 0 refl (omega arith) (omega arith) (λ e. omega (arith, e))) in
    let r = Reach.next r (Step.push_write refl) in
    let r = Reach.next r (Step.push_publish refl) in
    let r = Reach.next r (Step.push_call 8 refl) in
    let r =
      Reach.next r (Step.push_room 0 refl (omega arith) (omega arith) (λ e. omega (arith, e))) in
    let r = Reach.next r (Step.pop_call refl) in
    Reach.next r (Step.pop_item 1 refl (omega arith) (omega arith) (λ e. omega (arith, e)))

Reach-race_free_example : (◌≢◌ {A = ℕ} 1 0) × (1 < 4) × (0 < 4)
Reach-race_free_example = Reach-race_free 0 4 four-IsCapacity both_busy-Reach refl refl

Reach-fifo_example :
    (both_busy.received ≡ take (length both_busy.received) both_busy.sent)
    × (length both_busy.received ≤ length both_busy.sent)
    × (length both_busy.sent ≤ length both_busy.received + (4 - 1))
Reach-fifo_example = Reach-fifo 0 4 four-IsCapacity both_busy-Reach

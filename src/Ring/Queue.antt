-- ===== src/Ring/Queue.antt =====
-- The ring used by one thread is a queue of at most `capacity - 1` items.
use native.Mathlib.Decide.{dec_lt}
use rtp_audio_streamer.Base.{
  ℕ, suc, ◌+◌, ◌%◌, ◌≤◌, ◌<◌, ◌≡◌, ◌≢◌, refl, sym, ap, ◌∙◌, arith, Bool, true, false, Option, none,
  some, List, [], ◌∷◌, ◌++◌, ltb, if◌then◌else◌, length, get_or, set, length-append, length-set,
  get_or-set_self, get_or-set_ne, get_or-append_left, get_or-append_end, length-replicate, lt→ltb,
  le→not_ltb,
}
use rtp_audio_streamer.Ring.{SpscRingBuffer, IsCapacity, empty_ring, push, pop}
use rtp_audio_streamer.Ring.Index.{next_index-mod, mod_inj, mod_turn}

pub data Op (T : Type 0) : Type 0 where
  put : T → Op T
  get : Op T

-- What a call returns: the result of `push`, or the result and the item of `pop`.
pub data Reply (T : Type 0) : Type 0 where
  pushed : Bool → Reply T
  popped : Option T → Reply T

module _ {T : Type 0} (capacity : ℕ) where
  -- The specification: items wait in order, and one place of the capacity stays free.
  unfoldable pub run_queue : List T → List (Op T) → List (Reply T)
  run_queue q [] = []
  run_queue q (Op.put x ∷ ops) =
      let rest = run_queue (if ltb (length q + 1) capacity then q ++ (x ∷ []) else q) ops in
      Reply.pushed (ltb (length q + 1) capacity) ∷ rest
  run_queue [] (Op.get ∷ ops) = Reply.popped none ∷ run_queue [] ops
  run_queue (x ∷ q) (Op.get ∷ ops) = Reply.popped (some x) ∷ run_queue q ops

module _ {T : Type 0} (blank : T) (capacity : ℕ) where
  -- The calls of one thread, in order, on the ring itself.
  unfoldable pub run_ring : SpscRingBuffer T → List (Op T) → List (Reply T)
  run_ring r [] = []
  run_ring r (Op.put x ∷ ops) =
      let (done, r') = push blank capacity x r in Reply.pushed done ∷ run_ring r' ops
  run_ring r (Op.get ∷ ops) =
      let (out, r') = pop blank capacity r in Reply.popped out ∷ run_ring r' ops

  -- The ring holds the items `q`, with `count` items popped since it was made.
  pub record Holds (r : SpscRingBuffer T) (q : List T) : Type 0 where
    pub count : ℕ
    pub size : length r.buffer ≡ capacity
    pub tail_at : r.tail ≡ count % capacity
    pub head_at : r.head ≡ (count + length q) % capacity
    pub room : length q < capacity
    pub items :
        (i : ℕ) → i < length q → get_or r.buffer ((count + i) % capacity) blank ≡ get_or q i blank

  module _ (cap : IsCapacity capacity) where
    pub push_full :
        (x : T) {r : SpscRingBuffer T} {q : List T}
        → Holds r q
        → capacity ≤ length q + 1
        → push blank capacity x r ≡ (false, r)
    unfolding push
    push_full x {r} {q} h full = ground (
      arith,
      h.head_at,
      next_index-mod (h.count + length q) cap,
      mod_turn capacity (h.count + length q + 1) h.count,
    )

    pub push_next :
        (x : T) {r : SpscRingBuffer T} {q : List T} (h : Holds r q)
        → length q + 1 < capacity
        → push blank capacity x r ≡ (
          true,
          record r { buffer = set r.buffer r.head x; head = (h.count + (length q + 1)) % capacity },
        )
    unfolding push
    push_next x {r} {q} h free = ground (
      arith,
      h.head_at,
      h.tail_at,
      next_index-mod (h.count + length q) cap,
      mod_inj capacity h.count (h.count + length q + 1),
    )

    pub Holds-push :
        (x : T) {r : SpscRingBuffer T} {q : List T} (h : Holds r q)
        → length q + 1 < capacity
        → Holds
            (record r {
              buffer = set r.buffer r.head x;
              head = (h.count + (length q + 1)) % capacity;
            })
            (q ++ (x ∷ []))
    Holds-push x {r} {q} h free = record {
      count = h.count;
      size = length-set r.buffer r.head x ∙ h.size;
      tail_at = h.tail_at;
      head_at = rw (length-append q (x ∷ []));
      room = omega (arith, length-append q (x ∷ []));
      items = λ i below. elim (dec_lt i (length q)) [
        | yes old ↦
            get_or-set_ne r.buffer r.head ((h.count + i) % capacity) x blank (apart i old)
            ∙ h.items i old
            ∙ sym (get_or-append_left q (x ∷ []) i blank old)
        | no new ↦
            let last : i ≡ length q = omega (arith, length-append q (x ∷ [])) in
            rw (get_or-append_end q x i blank last, last, ← h.head_at)
              (get_or-set_self r.buffer r.head x blank (omega (arith, h.head_at, cap.at_least_two)))
      ];
    }
      where
        apart : (i : ℕ) → i < length q → r.head ≢ (h.count + i) % capacity
        apart i below e = omega (
          arith,
          mod_inj capacity (h.count + i) (h.count + length q) (omega arith) (omega arith)
              (sym e ∙ h.head_at),
        )

    pub pop_empty : {r : SpscRingBuffer T} → Holds r [] → pop blank capacity r ≡ (none, r)
    unfolding pop
    pop_empty {r} h = ground (arith, h.head_at, h.tail_at)

    pub pop_next :
        {r : SpscRingBuffer T} {x : T} {q : List T} (h : Holds r (x ∷ q))
        → pop blank capacity r ≡ (some x, record r { tail = (h.count + 1) % capacity })
    unfolding pop
    pop_next {r} {x} {q} h = ground (
      arith,
      h.head_at,
      h.tail_at,
      next_index-mod h.count cap,
      mod_inj capacity h.count (h.count + suc (length q)),
      first,
    )
      where
        first : get_or r.buffer r.tail blank ≡ x
        first =
            rw (h.tail_at) (
              ap (λ k. get_or r.buffer (k % capacity) blank) (omega arith)
              ∙ h.items 0 (omega arith))

    pub Holds-pop :
        {r : SpscRingBuffer T} {x : T} {q : List T} (h : Holds r (x ∷ q))
        → Holds (record r { tail = (h.count + 1) % capacity }) q
    Holds-pop {r} {x} {q} h = record {
      count = h.count + 1;
      size = h.size;
      tail_at = refl;
      head_at = h.head_at ∙ ap (λ k. k % capacity) shift;
      room = omega arith;
      items = λ i below.
          ap (λ k. get_or r.buffer (k % capacity) blank) (omega arith)
          ∙ h.items (suc i) (omega arith);
    }
      where
        shift : h.count + suc (length q) ≡ h.count + 1 + length q
        shift = omega arith

    pub empty-Holds : Holds (empty_ring blank capacity) []
    empty-Holds = record {
      count = 0;
      size = length-replicate capacity blank;
      tail_at = omega (arith, cap.at_least_two);
      head_at = omega (arith, cap.at_least_two);
      room = omega (arith, cap.at_least_two);
      items = λ i below. absurd (omega arith);
    }

    -- No sequence of calls tells a ring from the bounded queue of the items that it holds.
    pub run_ring_refines :
        (ops : List (Op T)) {r : SpscRingBuffer T} {q : List T}
        → Holds r q
        → run_ring r ops ≡ run_queue capacity q ops
    unfolding run_ring run_queue
    run_ring_refines [] h = refl
    run_ring_refines (Op.put x ∷ ops) {r} {q} h = elim (dec_lt (length q + 1) capacity) [
      | yes free ↦
          rw (push_next x h free, lt→ltb _ _ free, run_ring_refines ops (Holds-push x h free))
      | no full ↦ rw (
        push_full x h (omega arith),
        le→not_ltb (length q + 1) capacity (omega arith),
        run_ring_refines ops h,
      )
    ]
    run_ring_refines (Op.get ∷ ops) {q = []} h = rw (pop_empty h, run_ring_refines ops h)
    run_ring_refines (Op.get ∷ ops) {q = x ∷ q} h =
        rw (pop_next h, run_ring_refines ops (Holds-pop h))

-- ===== src/Ring.antt =====
-- include/rtp/ring_buffer.hpp: the bounded single-producer, single-consumer queue.
pub mod Index
pub mod Queue
pub mod Thread
pub mod Inv
pub mod Fifo
pub mod Steps
mod Tests
use rtp_audio_streamer.Base.{
  ℕ, ◌+◌, ◌-◌, ◌^◌, ◌≤◌, ◌≡◌, Bool, true, false, Option, none, some, List, bit_and, u64, ◌==◌,
  if◌then◌else◌, get_or, set, replicate,
}

-- `SpscRingBuffer<T, Capacity>`: the slots, and the two indices.
pub record SpscRingBuffer (T : Type 0) : Type 0 where
  pub buffer : List T
  pub head : ℕ
  pub tail : ℕ

-- The two `static_assert`s, for an array that fits the address space.
pub record IsCapacity (capacity : ℕ) : Type 0 where
  pub exponent : ℕ
  pub power_of_two : capacity ≡ 2 ^ exponent
  pub at_least_two : 2 ≤ capacity
  pub addressable : capacity ≤ 2 ^ 63

-- `(i + 1) & kMask`, in `size_t`.
unfoldable pub next_index : ℕ → ℕ → ℕ
next_index capacity i = bit_and (u64 (i + 1)) (capacity - 1)

module _ {T : Type 0} (blank : T) (capacity : ℕ) where
  -- `blank` is the value that `buffer_{}` gives every slot.
  abbrev pub empty_ring : SpscRingBuffer T
  empty_ring = record { buffer = replicate capacity blank; head = 0; tail = 0 }

  unfoldable pub push : T → SpscRingBuffer T → Bool × SpscRingBuffer T
  push item r =
      let next = next_index capacity r.head in
      if next == r.tail
      then (false, r)
      else (true, record r { buffer = set r.buffer r.head item; head = next })

  -- The option is what goes through `out`; `none` is the result false.
  unfoldable pub pop : SpscRingBuffer T → Option T × SpscRingBuffer T
  pop r =
      if r.tail == r.head
      then (none, r)
      else (some (get_or r.buffer r.tail blank), record r { tail = next_index capacity r.tail })

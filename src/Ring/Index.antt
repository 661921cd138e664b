-- ===== src/Ring/Index.antt =====
-- Indices round the ring: the mask is a remainder, and close counts differ modulo the capacity.
use native.Mathlib.Nat.{mod-add-mod}
use rtp_audio_streamer.Base.{ℕ, ◌+◌, ◌%◌, ◌^◌, ◌≤◌, ◌<◌, ◌≡◌, ◌∙◌, arith}
use rtp_audio_streamer.Base.Bits.{bit_and_mask}
use rtp_audio_streamer.Ring.{IsCapacity, next_index}

pub next_index-eq-mod :
    {capacity : ℕ} (i : ℕ)
    → IsCapacity capacity
    → i < capacity
    → next_index capacity i ≡ (i + 1) % capacity
unfolding next_index
next_index-eq-mod {capacity} i c h =
    rw (c.power_of_two) (ground (arith, bit_and_mask c.exponent ((i + 1) % 2 ^ 64)))

-- The index after that of item `n` is the index of item `n + 1`.
pub next_index-mod :
    {capacity : ℕ} (n : ℕ)
    → IsCapacity capacity
    → next_index capacity (n % capacity) ≡ (n + 1) % capacity
next_index-mod {capacity} n c =
    next_index-eq-mod (n % capacity) c (omega arith) ∙ mod-add-mod n capacity 1

-- Less than one turn apart, two counts with one index are one count.
pub mod_inj : (m a b : ℕ) → a ≤ b → b < a + m → a % m ≡ b % m → a ≡ b
mod_inj m a b h k e = grind arith

-- A full turn does not change the index.
pub mod_turn : (m a b : ℕ) → a ≡ b + m → a % m ≡ b % m
mod_turn m a b e = grind arith

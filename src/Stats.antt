-- ===== src/Stats.antt =====
-- include/rtp/stats.hpp and src/stats.cpp: gaps and reorderings in 16-bit sequence numbers.
pub mod Ideal
mod Tests
use rtp_audio_streamer.Base.{
  ℕ, ◌+◌, ◌-◌, ◌%◌, ◌^◌, Bool, true, false, List, [], ◌∷◌, u64, if◌then◌else◌,
}
use rtp_audio_streamer.Base.Int.{ℤ, pos, pos_part, i16, ltb_ℤ, eqb_ℤ}

pub record Counts : Type 0 where
  pub received : ℕ
  pub gaps : ℕ
  pub reordered : ℕ

pub record SequenceTracker : Type 0 where
  pub has_last : Bool
  pub last_sequence : ℕ
  pub counts : Counts

abbrev pub new_tracker : SequenceTracker
new_tracker = record {
  has_last = false;
  last_sequence = 0;
  counts = record { received = 0; gaps = 0; reordered = 0 };
}

-- `static_cast<int16_t>(a - b)` of two `uint16_t`.
abbrev pub sequence_delta : ℕ → ℕ → ℤ
sequence_delta a b = i16 (a + 2 ^ 16 - b)

-- The counters are `uint64_t`.
unfoldable pub on_packet : SequenceTracker → ℕ → SequenceTracker
on_packet t sequence_number =
    let c = record (t.counts) { received = u64 (t.counts.received + 1) } in
    let delta = sequence_delta sequence_number t.last_sequence in
    if t.has_last
    then (if ltb_ℤ (pos 1) delta
        then record t {
          last_sequence = sequence_number;
          counts = record c { gaps = u64 (c.gaps + (pos_part delta - 1)) };
        }
        else (if eqb_ℤ delta (pos 1)
            then record t { last_sequence = sequence_number; counts = c }
            else (if eqb_ℤ delta (pos 0)
                then record t { counts = c }
                else record t { counts = record c { reordered = u64 (c.reordered + 1) } })))
    else record { has_last = true; last_sequence = sequence_number; counts = c }

unfoldable pub on_packets : SequenceTracker → List ℕ → SequenceTracker
on_packets t [] = t
on_packets t (s ∷ ss) = on_packets (on_packet t s) ss

-- ===== src/Stats/Ideal.antt =====
-- The tracker against one that counts with sequence numbers that never wrap.
use rtp_audio_streamer.Base.{
  ℕ, ◌+◌, ◌-◌, ◌%◌, ◌^◌, ◌≤◌, ◌<◌, ◌≡◌, refl, arith, true, List, [], ◌∷◌, map, u64, max, ltb,
  if◌then◌else◌,
}
use rtp_audio_streamer.Stats.{SequenceTracker, new_tracker, on_packet, on_packets}

-- Numbers extended beyond 16 bits: `highest` is the greatest seen.
pub record Ideal : Type 0 where
  pub highest : ℕ
  pub received : ℕ
  pub gaps : ℕ
  pub reordered : ℕ

unfoldable pub ideal_step : Ideal → ℕ → Ideal
ideal_step i e = record {
  highest = max i.highest e;
  received = i.received + 1;
  gaps = i.gaps + (e - i.highest - 1);
  reordered = i.reordered + (if ltb e i.highest then 1 else 0);
}

unfoldable pub ideal_run : Ideal → List ℕ → Ideal
ideal_run i [] = i
ideal_run i (e ∷ es) = ideal_run (ideal_step i e) es

abbrev pub ideal_start : ℕ → Ideal
ideal_start e = record { highest = e; received = 1; gaps = 0; reordered = 0 }

-- Each number is less than half the 16-bit space away from the highest before it.
abbrev pub IsNear : ℕ → List ℕ → Type 0
IsNear h [] = Unit
IsNear h (e ∷ es) = (e < h + 2 ^ 15) × (h ≤ e + 2 ^ 15) × IsNear (max h e) es

pub record Tracks (t : SequenceTracker) (i : Ideal) : Type 0 where
  pub started : t.has_last ≡ true
  pub last : t.last_sequence ≡ i.highest % 2 ^ 16
  pub received : t.counts.received ≡ u64 i.received
  pub gaps : t.counts.gaps ≡ u64 i.gaps
  pub reordered : t.counts.reordered ≡ u64 i.reordered

on_packet-Tracks :
    (e : ℕ) {t : SequenceTracker} {i : Ideal}
    → e < i.highest + 2 ^ 15
    → i.highest ≤ e + 2 ^ 15
    → Tracks t i
    → Tracks (on_packet t (e % 2 ^ 16)) (ideal_step i e)
unfolding on_packet ideal_step
on_packet-Tracks e lo hi k = ground arith

on_packets-Tracks :
    (es : List ℕ) {t : SequenceTracker} {i : Ideal}
    → IsNear i.highest es
    → Tracks t i
    → Tracks (on_packets t (map (λ e. e % 2 ^ 16) es)) (ideal_run i es)
unfolding on_packets ideal_run ideal_step
on_packets-Tracks [] n k = k
on_packets-Tracks (e ∷ es) n k = on_packets-Tracks es n.2 (on_packet-Tracks e n.0 n.1 k)

first-Tracks : (e : ℕ) → Tracks (on_packet new_tracker (e % 2 ^ 16)) (ideal_start e)
unfolding on_packet
first-Tracks e = ground arith

-- A stream that is sent as the low 16 bits of its numbers is counted as if they never wrapped, if
-- each is less than half the space away from the highest before it: the counts agree modulo 2^64.
pub on_packets-ideal :
    (e : ℕ) (es : List ℕ)
    → IsNear e es
    → Tracks
        (on_packets new_tracker (map (λ n. n % 2 ^ 16) (e ∷ es)))
        (ideal_run (ideal_start e) es)
unfolding on_packets
on_packets-ideal e es n = on_packets-Tracks es n (first-Tracks e)

-- Each number is above the one before it, by less than half the space.
abbrev pub IsAscending : ℕ → List ℕ → Type 0
IsAscending h [] = Unit
IsAscending h (e ∷ es) = (h < e) × (e < h + 2 ^ 15) × IsAscending e es

abbrev pub last_of : ℕ → List ℕ → ℕ
last_of h [] = h
last_of h (e ∷ es) = last_of e es

le-last_of : (h : ℕ) (es : List ℕ) → IsAscending h es → h ≤ last_of h es
le-last_of h [] a = omega arith
le-last_of h (e ∷ es) a = omega (arith, le-last_of e es a.2)

IsAscending-IsNear : (h : ℕ) (es : List ℕ) → IsAscending h es → IsNear h es
IsAscending-IsNear h [] a = tt
IsAscending-IsNear h (e ∷ es) a =
    let top : max h e ≡ e = omega arith in
    (omega arith, omega arith, rw top (IsAscending-IsNear e es a.2))

ideal_ascending :
    (es : List ℕ) (h : ℕ) (i : Ideal)
    → i.highest ≡ h
    → IsAscending h es
    → ((ideal_run i es).highest ≡ last_of h es)
      × ((ideal_run i es).reordered ≡ i.reordered)
      × ((ideal_run i es).gaps + (ideal_run i es).received + h ≡ i.gaps + i.received + last_of h es)
unfolding ideal_run ideal_step
ideal_ascending [] h i at a = omega arith
ideal_ascending (e ∷ es) h i at a =
    let next = ideal_ascending es e (ideal_step i e) (omega arith) a.2 in ground (arith, next)

-- Without reordering every number missing in the 16-bit stream is counted as a gap, once: gaps and
-- packets together make up the span from the first number to the last (modulo 2^64), none is
-- counted as reordered, and the last number is remembered.
pub on_packets_ascending :
    (e : ℕ) (es : List ℕ)
    → IsAscending e es
    → let t = on_packets new_tracker (map (λ n. n % 2 ^ 16) (e ∷ es)) in
      (u64 (t.counts.gaps + t.counts.received) ≡ u64 (last_of e es - e + 1))
      × (t.counts.reordered ≡ 0)
      × (t.last_sequence ≡ last_of e es % 2 ^ 16)
on_packets_ascending e es a =
    let k = on_packets-ideal e es (IsAscending-IsNear e es a) in
    omega (
      arith,
      k.gaps,
      k.received,
      k.reordered,
      k.last,
      ideal_ascending es e (ideal_start e) refl a,
      le-last_of e es a,
    )

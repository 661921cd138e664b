-- ===== src/Receiver/Clock.antt =====
-- The deadlines of the playout thread do not drift.
use rtp_audio_streamer.Base.{
  ℕ, zero, suc, ◌+◌, ◌-◌, ◌*◌, ◌/◌, ◌%◌, ◌^◌, ◌<◌, ◌≤◌, ◌≡◌, refl, ap, ◌∙◌, arith, true, false, leb,
  if◌then◌else◌, u32,
}
use native.Mathlib.Decide.{dec_le}
use rtp_audio_streamer.Base.Int.{pos, pos_part, neg_part, sub_ℕ, ltb_ℤ, i64, u32_of, divide}
use rtp_audio_streamer.Receiver.{
  Timespec, scale, ns_per_sec, samples_since, carry, add_millis, playout_deadline,
}

-- Nanoseconds since the epoch of the clock.
abbrev pub total_ns : Timespec → ℕ
total_ns ts = ts.tv_sec * ns_per_sec + ts.tv_nsec

carry_total :
    (fuel : ℕ) (ts : Timespec)
    → ts.tv_nsec < (fuel + 1) * ns_per_sec
    → (total_ns (carry fuel ts) ≡ total_ns ts) × ((carry fuel ts).tv_nsec < ns_per_sec)
unfolding carry
carry_total zero ts h = (refl, omega arith)
carry_total (suc fuel) ts h = elim (dec_le ns_per_sec ts.tv_nsec) [
  | yes over ↦
      let rest =
        carry_total fuel (record { tv_sec = ts.tv_sec + 1; tv_nsec = ts.tv_nsec - ns_per_sec })
          (omega arith) in
      let test : leb ns_per_sec ts.tv_nsec ≡ true = ground arith in
      simp test (rest.0 ∙ omega arith, rest.1)
  | no under ↦
      let test : leb ns_per_sec ts.tv_nsec ≡ false = ground arith in simp test (refl, omega arith)
]

-- `add_millis` adds exactly so many milliseconds, and leaves less than a second of nanoseconds: the
-- passes of its loop are enough.
pub add_millis_lem :
    (ts : Timespec) (millis : ℕ)
    → (total_ns (add_millis ts millis) ≡ total_ns ts + millis * 1000000)
      × ((add_millis ts millis).tv_nsec < ns_per_sec)
unfolding add_millis
add_millis_lem ts millis =
    let n = ts.tv_nsec + millis * 1000000 in
    let c =
      carry_total (n / ns_per_sec) (record { tv_sec = ts.tv_sec; tv_nsec = n }) (omega arith) in
    (c.0 ∙ omega arith, c.1)

playout_deadline_total :
    (start : Timespec) (n : ℕ) → total_ns (playout_deadline start n) ≡ total_ns start + n * 20000000
unfolding playout_deadline
playout_deadline_total start zero = omega arith
playout_deadline_total start (suc n) =
    omega (arith, playout_deadline_total start n, (add_millis_lem (playout_deadline start n) 20).0)

sub_parts : (a b : ℕ) → pos_part (sub_ℕ a b) + b ≡ neg_part (sub_ℕ a b) + a
sub_parts a b = ground arith

not_negative : (a b : ℕ) → pos_part (if ltb_ℤ (sub_ℕ a b) (pos 0) then pos 0 else sub_ℕ a b) ≡ a - b
not_negative a b = ground arith

in_range : (n : ℕ) → n < 2 ^ 63 → u32_of (divide (i64 n) ns_per_sec) ≡ u32 (n / ns_per_sec)
in_range n h = ground arith

samples_since_total :
    (start now : Timespec) (ns : ℕ)
    → total_ns now ≡ total_ns start + ns
    → ns * 8000 < 2 ^ 63
    → samples_since start now ≡ u32 (ns * 8000 / ns_per_sec)
unfolding samples_since
samples_since_total start now ns e small =
    let sec = sub_ℕ now.tv_sec start.tv_sec in
    let nsec = sub_ℕ now.tv_nsec start.tv_nsec in
    let scaled = scale sec ns_per_sec in
    let clamped =
      not_negative (pos_part scaled + pos_part nsec) (neg_part scaled + neg_part nsec) in
    let difference : pos_part scaled + pos_part nsec - (neg_part scaled + neg_part nsec) ≡ ns =
      omega (
        arith,
        e,
        sub_parts now.tv_sec start.tv_sec,
        sub_parts now.tv_nsec start.tv_nsec,
        sub_parts (pos_part sec * ns_per_sec) (neg_part sec * ns_per_sec),
      ) in
    ap (λ n. u32_of (divide (i64 (n * 8000)) ns_per_sec)) (clamped ∙ difference)
    ∙ in_range (ns * 8000) small

-- Pass `n` of the playout thread is for sample 160 n of the clock that the jitter buffer is told,
-- modulo 2^32, up to pass 57646075, which is after 13 days: until then the deadlines do not drift.
pub samples_since-playout_deadline :
    (process_start : Timespec) (n : ℕ)
    → n ≤ 57646075
    → samples_since process_start (playout_deadline process_start n) ≡ 160 * n % 2 ^ 32
samples_since-playout_deadline process_start n few =
    samples_since_total process_start (playout_deadline process_start n) (n * 20000000)
      (playout_deadline_total process_start n) (omega arith)
    ∙ omega arith

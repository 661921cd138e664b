-- ===== src/Receiver.antt =====
-- src/receiver.cpp: the clock here; the passes of its threads and their interleavings are in the
-- modules below. A `timespec` of the monotonic clock has parts that are not negative. The
-- nanoseconds since the start fit in an `int64_t` for 292 years; their product with the sample rate
-- does so for 13 days only, and then wraps (the language leaves it undefined).
pub mod Clock
pub mod Playout
pub mod Finish
pub mod Threads
pub mod Queued
pub mod Account
pub mod Complete
pub mod Provenance
pub mod Calls
pub mod Report
pub mod Counted
pub mod Reported
pub mod Quiet
pub mod Leaving
pub mod Exit
pub mod File
pub mod Main
mod Tests
mod RunTests
mod ReportTests
use rtp_audio_streamer.Base.{ℕ, zero, suc, ◌+◌, ◌-◌, ◌*◌, ◌/◌, leb, if◌then◌else◌, u32}
use rtp_audio_streamer.Base.Int.{
  ℤ, pos, pos_part, neg_part, sub_ℕ, ◌+ℤ◌, ltb_ℤ, i64, u32_of, divide,
}
use rtp_audio_streamer.AudioFormat.{sample_rate_hz, frame_duration_ms}

pub record Timespec : Type 0 where
  pub tv_sec : ℕ
  pub tv_nsec : ℕ

abbrev pub ns_per_sec : ℕ
ns_per_sec = 1000000000

-- A product with a constant that is not negative.
abbrev pub scale : ℤ → ℕ → ℤ
scale a n = sub_ℕ (pos_part a * n) (neg_part a * n)

unfoldable pub samples_since : Timespec → Timespec → ℕ
samples_since start now =
    let sec_diff = sub_ℕ now.tv_sec start.tv_sec in
    let nsec_diff = sub_ℕ now.tv_nsec start.tv_nsec in
    let total_ns = scale sec_diff ns_per_sec +ℤ nsec_diff in
    let total_ns = if ltb_ℤ total_ns (pos 0) then pos 0 else total_ns in
    u32_of (divide (i64 (pos_part total_ns * sample_rate_hz)) ns_per_sec)

-- The loop that carries whole seconds over, with fuel for its passes.
unfoldable pub carry : ℕ → Timespec → Timespec
carry zero ts = ts
carry (suc fuel) ts =
    let rest = carry fuel (record { tv_sec = ts.tv_sec + 1; tv_nsec = ts.tv_nsec - ns_per_sec }) in
    if leb ns_per_sec ts.tv_nsec then rest else ts

unfoldable pub add_millis : Timespec → ℕ → Timespec
add_millis ts millis =
    let tv_nsec = ts.tv_nsec + millis * 1000000 in
    carry (tv_nsec / ns_per_sec) (record { tv_sec = ts.tv_sec; tv_nsec = tv_nsec })

-- The deadline of pass `n` of the playout thread, from 0 for the start of the process.
unfoldable pub playout_deadline : Timespec → ℕ → Timespec
playout_deadline process_start zero = process_start
playout_deadline process_start (suc n) =
    add_millis (playout_deadline process_start n) frame_duration_ms

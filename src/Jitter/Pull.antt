-- ===== src/Jitter/Pull.antt =====
-- `try_pull_due_frame`, `mark_stream_ended` and `finished` of src/jitter_buffer.cpp.
use rtp_audio_streamer.Base.{
  ◌≡◌, ℕ, ◌+◌, ◌-◌, ◌*◌, ◌/◌, ◌%◌, ◌^◌, Bool, true, false, not, ◌&&◌, ◌||◌, Option, none, some,
  List, [], ◌∷◌, ◌++◌, ltb, ◌==◌, if◌then◌else◌, get_or, set, u16, u32, u64,
}
use rtp_audio_streamer.Base.Int.{ℤ, ltb_ℤ, i32}
use rtp_audio_streamer.AudioFormat.{sample_rate_hz, frame_samples}
use rtp_audio_streamer.Host.{Host}
use rtp_audio_streamer.Jitter.{Arithmetic, JitterBuffer, Slot, empty_slot, capacity}
use rtp_audio_streamer.Jitter.Decode.{decode_slot, conceal}

abbrev pub latency_ms : ℕ → ℕ → ℕ
latency_ms now_samples arrival_samples =
    u32 (u32 (now_samples + 2 ^ 32 - arrival_samples) * 1000) / sample_rate_hz

module _ {Double : Type 0} where
  unfoldable pub mark_stream_ended : JitterBuffer Double → JitterBuffer Double
  mark_stream_ended jb = record jb { stream_ended = true }

  -- `static_cast<int32_t>(frames_played_) > highest_frame_index_seen_`.
  abbrev pub past_highest : JitterBuffer Double → Bool
  past_highest jb = ltb_ℤ jb.highest_frame_index_seen (i32 jb.frames_played)

  unfoldable pub finished : JitterBuffer Double → Bool
  finished jb =
      if jb.started then (if jb.stream_ended then past_highest jb else false) else jb.stream_ended

  -- The deadline of the next frame, in `uint32_t`.
  unfoldable pub deadline : JitterBuffer Double → ℕ
  deadline jb =
      let target_depth_samples = u32 (jb.estimate.target_depth_ms * sample_rate_hz) / 1000 in
      u32 (jb.first_arrival_samples + u32 (jb.frames_played * frame_samples) + target_depth_samples)

  -- The tests before a frame is produced.
  unfoldable pub is_due : ℕ → JitterBuffer Double → Bool
  is_due now_samples jb =
      if not jb.started || finished jb
      then false
      else (if jb.stream_ended
          then true
          else (if past_highest jb
              then false
              else (if ltb now_samples (deadline jb) then false else true)))

  abbrev pub cursor_sequence : JitterBuffer Double → ℕ
  cursor_sequence jb = u16 (jb.base_sequence + jb.frames_played)

  abbrev pub cursor_slot : JitterBuffer Double → Slot
  cursor_slot jb = get_or jb.slots (cursor_sequence jb % capacity) empty_slot

  -- A packet waits for the cursor: its samples, and the slot given free.
  unfoldable pub play : Host → ℕ → JitterBuffer Double → List ℤ × JitterBuffer Double
  play host now_samples jb =
      let slot = cursor_slot jb in
      let out = decode_slot host slot in
      (
        out,
        record jb {
          latency_samples_ms =
              if jb.options.collect_stats
              then jb.latency_samples_ms ++ (latency_ms now_samples slot.arrival_samples ∷ [])
              else jb.latency_samples_ms;
          slots = set jb.slots (cursor_sequence jb % capacity) (record slot { occupied = false });
          concealer = record {
            have_last_real_frame = true;
            last_real_frame = out;
            consecutive_concealments = 0;
          };
        },
      )

  unfoldable pub lose : Arithmetic Double → JitterBuffer Double → List ℤ × JitterBuffer Double
  lose F jb =
      conceal F (record jb { counts = record (jb.counts) { lost = u64 (jb.counts.lost + 1) } })

  abbrev pub advance_cursor : JitterBuffer Double → JitterBuffer Double
  advance_cursor jb = record jb { frames_played = u32 (jb.frames_played + 1) }

  abbrev pub has_packet : JitterBuffer Double → Bool
  has_packet jb =
      (cursor_slot jb).occupied && (cursor_slot jb).sequence_number == cursor_sequence jb

  -- `none` is the result false, which leaves `out` alone.
  unfoldable pub try_pull_due_frame :
      Host → Arithmetic Double → ℕ → JitterBuffer Double → Option (List ℤ) × JitterBuffer Double
  try_pull_due_frame host F now_samples jb =
      let (out, jb') = if has_packet jb then play host now_samples jb else lose F jb in
      if is_due now_samples jb then (some out, advance_cursor jb') else (none, jb)

  -- The three outcomes.
  pub pull_not_due :
      (host : Host) (F : Arithmetic Double) (now : ℕ) (jb : JitterBuffer Double)
      → is_due now jb ≡ false
      → try_pull_due_frame host F now jb ≡ (none, jb)
  unfolding try_pull_due_frame
  pull_not_due host F now jb wait = rw wait

  pub pull_play :
      (host : Host) (F : Arithmetic Double) (now : ℕ) (jb : JitterBuffer Double)
      → is_due now jb ≡ true
      → has_packet jb ≡ true
      → try_pull_due_frame host F now jb
        ≡ (some (play host now jb).0, advance_cursor (play host now jb).1)
  unfolding try_pull_due_frame
  pull_play host F now jb due there = rw (due, there)

  pub pull_lose :
      (host : Host) (F : Arithmetic Double) (now : ℕ) (jb : JitterBuffer Double)
      → is_due now jb ≡ true
      → has_packet jb ≡ false
      → try_pull_due_frame host F now jb ≡ (some (lose F jb).0, advance_cursor (lose F jb).1)
  unfolding try_pull_due_frame
  pull_lose host F now jb due gone = rw (due, gone)

-- ===== src/Jitter/Push.antt =====
-- `push` and `update_jitter_estimate` of src/jitter_buffer.cpp.
use rtp_audio_streamer.Base.{
  ℕ, ◌+◌, ◌%◌, Bool, true, ◌&&◌, List, [], ◌∷◌, ◌++◌, ◌==◌, if◌then◌else◌, length, get_or, set,
  take, u64, min,
}
use rtp_audio_streamer.Base.Int.{ℤ, pos, sub_ℕ, pos_part, ◌-ℤ◌, ltb_ℤ, i32, max_ℤ}
use rtp_audio_streamer.AudioFormat.{sample_rate_hz}
use rtp_audio_streamer.Jitter.{
  Arithmetic, JitterBuffer, Estimate, Slot, empty_slot, capacity, slot_bytes, min_target_ms,
  max_target_ms,
}
use rtp_audio_streamer.Stats.{sequence_delta}

-- The arguments of `push`: a parsed packet, and when it arrived.
pub record Arrival : Type 0 where
  pub sequence_number : ℕ
  pub rtp_timestamp : ℕ
  pub payload_type : ℕ
  pub payload : List ℕ
  pub arrival_samples : ℕ

-- What a packet leaves in its slot.
abbrev pub filled : Arrival → Slot
filled a = record {
  occupied = true;
  sequence_number = a.sequence_number;
  payload_type = a.payload_type;
  payload = take (min (length a.payload) slot_bytes) a.payload;
  arrival_samples = a.arrival_samples;
}

-- `std::clamp(target, kMinTargetMs, kMaxTargetMs)`.
unfoldable pub clamp_target : ℤ → ℕ
clamp_target target =
    if ltb_ℤ target (pos min_target_ms)
    then min_target_ms
    else (if ltb_ℤ (pos max_target_ms) target then max_target_ms else pos_part target)

-- D(i,j), in `int64_t`: the differences of the two 32-bit clocks are not taken modulo 2^32.
unfoldable pub transit_change : ℕ → ℕ → ℕ → ℕ → ℤ
transit_change prev_timestamp timestamp prev_arrival arrival =
    let d_arrival = sub_ℕ arrival prev_arrival in
    let d_timestamp = sub_ℕ timestamp prev_timestamp in d_arrival -ℤ d_timestamp

module _ {Double : Type 0} (F : Arithmetic Double) where
  -- The smoothed jitter with one more difference, and its target depth.
  unfoldable pub smooth : Double → ℤ → Double
  smooth j d = F.add j (F.div (F.sub (F.fabs (F.of_int d)) j) (F.of_int (pos 16)))

  unfoldable pub target_of : Double → ℕ
  target_of j =
      let jitter_ms = F.div (F.mul j (F.of_int (pos 1000))) (F.of_int (pos sample_rate_hz)) in
      clamp_target (F.truncate (F.mul (F.of_int (pos 4)) jitter_ms))

  unfoldable pub update_jitter_estimate : Bool → ℕ → ℕ → Estimate Double → Estimate Double
  update_jitter_estimate collect_stats rtp_timestamp arrival_samples e =
      let d =
        transit_change e.prev_rtp_timestamp rtp_timestamp e.prev_arrival_samples arrival_samples in
      let j = smooth e.jitter_estimate_samples d in
      let e =
        if e.have_prev_arrival
        then record e {
          jitter_estimate_samples = j;
          target_depth_ms = target_of j;
          target_depth_history_ms =
              if collect_stats
              then e.target_depth_history_ms ++ (target_of j ∷ [])
              else e.target_depth_history_ms;
        }
        else e in
      record e {
        prev_rtp_timestamp = rtp_timestamp;
        prev_arrival_samples = arrival_samples;
        have_prev_arrival = true;
      }

module _ {Double : Type 0} where
  -- The first packet fixes the base.
  unfoldable pub begin : Arrival → JitterBuffer Double → JitterBuffer Double
  begin a jb = record jb {
    started = true;
    base_sequence = if jb.started then jb.base_sequence else a.sequence_number;
    first_arrival_samples = if jb.started then jb.first_arrival_samples else a.arrival_samples;
  }

  unfoldable pub frame_index_of : JitterBuffer Double → ℕ → ℤ
  frame_index_of jb sequence_number = sequence_delta sequence_number jb.base_sequence

  -- The highest sequence number and frame index seen, and the count of reorderings: the first
  -- packet and one ahead of the highest become the highest, one behind it is reordered.
  unfoldable pub observe : Arrival → JitterBuffer Double → JitterBuffer Double
  observe a jb =
      let delta = sequence_delta a.sequence_number jb.highest_sequence_seen in
      record jb {
        have_highest = true;
        highest_sequence_seen =
            if jb.have_highest
            then (if ltb_ℤ (pos 0) delta then a.sequence_number else jb.highest_sequence_seen)
            else a.sequence_number;
        counts =
            if jb.have_highest && ltb_ℤ delta (pos 0)
            then record (jb.counts) { reordered = u64 (jb.counts.reordered + 1) }
            else jb.counts;
        highest_frame_index_seen =
            max_ℤ jb.highest_frame_index_seen (frame_index_of jb a.sequence_number);
      }

  abbrev pub drop_late : JitterBuffer Double → JitterBuffer Double
  drop_late jb = record jb {
    counts = record (jb.counts) { late_dropped = u64 (jb.counts.late_dropped + 1) };
  }

  -- The slot of a packet that is neither late, nor too far ahead, nor already there.
  unfoldable pub place : Arrival → JitterBuffer Double → JitterBuffer Double
  place a jb =
      let frame_index = frame_index_of jb a.sequence_number in
      let played = i32 jb.frames_played in
      let slot_index = a.sequence_number % capacity in
      let slot = get_or jb.slots slot_index empty_slot in
      if ltb_ℤ frame_index played
      then drop_late jb
      else (if ltb_ℤ (frame_index -ℤ played) (pos capacity)
          then (if slot.occupied && slot.sequence_number == a.sequence_number
              then record jb {
                counts = record (jb.counts) { duplicate = u64 (jb.counts.duplicate + 1) };
              }
              else record jb { slots = set jb.slots slot_index (filled a) })
          else drop_late jb)

  -- The count and the estimate, which are made whatever becomes of the packet.
  unfoldable pub count_arrival :
      Arithmetic Double → Arrival → JitterBuffer Double → JitterBuffer Double
  count_arrival F a jb = record jb {
    counts = record (jb.counts) { received = u64 (jb.counts.received + 1) };
    estimate =
        update_jitter_estimate F jb.options.collect_stats a.rtp_timestamp a.arrival_samples
          jb.estimate;
  }

  unfoldable pub push : Arithmetic Double → Arrival → JitterBuffer Double → JitterBuffer Double
  push F a jb = place a (observe a (begin a (count_arrival F a jb)))

-- ===== src/Jitter.antt =====
-- include/rtp/jitter_buffer.hpp and src/jitter_buffer.cpp: the state of the jitter buffer.
-- `double` is a parameter: the type, and the operations that the code makes on it.
pub mod Decode
pub mod Push
pub mod Pull
pub mod Inv
pub mod Keep
pub mod Buffered
pub mod Playback
pub mod Frame
pub mod Origin
pub mod Delivery
pub mod InOrder
pub mod Account
pub mod Target
mod Tests
use rtp_audio_streamer.Base.{ℕ, Bool, true, false, List, [], replicate}
use rtp_audio_streamer.Base.Int.{ℤ, pos, negsuc}
use rtp_audio_streamer.AudioFormat.{frame_samples}

abbrev pub capacity : ℕ
capacity = 32

abbrev pub min_target_ms : ℕ
min_target_ms = 100

abbrev pub max_target_ms : ℕ
max_target_ms = 200

abbrev pub max_consecutive_concealments : ℕ
max_consecutive_concealments = 3

-- `sizeof(slot.payload)`.
abbrev pub slot_bytes : ℕ
slot_bytes = 512

-- `truncate` is the cast to an integer type, `power` is `std::pow`.
pub record Arithmetic (Double : Type 0) : Type 0 where
  pub of_int : ℤ → Double
  pub add : Double → Double → Double
  pub sub : Double → Double → Double
  pub mul : Double → Double → Double
  pub div : Double → Double → Double
  pub fabs : Double → Double
  pub power : Double → Double → Double
  pub truncate : Double → ℤ

pub record Counts : Type 0 where
  pub received : ℕ
  pub lost : ℕ
  pub late_dropped : ℕ
  pub reordered : ℕ
  pub concealed : ℕ
  pub duplicate : ℕ

pub record Options : Type 0 where
  pub collect_stats : Bool
  pub disable_plc_fade : Bool

-- `payload` is the first `payload_len` bytes of the array; the others are never read.
pub record Slot : Type 0 where
  pub occupied : Bool
  pub sequence_number : ℕ
  pub payload_type : ℕ
  pub payload : List ℕ
  pub arrival_samples : ℕ

abbrev pub empty_slot : Slot
empty_slot = record {
  occupied = false;
  sequence_number = 0;
  payload_type = 0;
  payload = [];
  arrival_samples = 0;
}

-- What the jitter estimate is made from.
pub record Estimate (Double : Type 0) : Type 0 where
  pub have_prev_arrival : Bool
  pub prev_rtp_timestamp : ℕ
  pub prev_arrival_samples : ℕ
  pub jitter_estimate_samples : Double
  pub target_depth_ms : ℕ
  pub target_depth_history_ms : List ℕ

-- What concealment repeats.
pub record Concealer : Type 0 where
  pub have_last_real_frame : Bool
  pub last_real_frame : List ℤ
  pub consecutive_concealments : ℕ

-- The fields of the class, those of the estimate and of concealment in records of their own.
pub record JitterBuffer (Double : Type 0) : Type 0 where
  pub slots : List Slot
  pub started : Bool
  pub base_sequence : ℕ
  pub first_arrival_samples : ℕ
  pub frames_played : ℕ
  pub have_highest : Bool
  pub highest_sequence_seen : ℕ
  pub highest_frame_index_seen : ℤ
  pub estimate : Estimate Double
  pub concealer : Concealer
  pub stream_ended : Bool
  pub counts : Counts
  pub options : Options
  pub latency_samples_ms : List ℕ

module _ {Double : Type 0} (F : Arithmetic Double) where
  -- The constructor.
  abbrev pub new_buffer : Options → JitterBuffer Double
  new_buffer options = record {
    slots = replicate capacity empty_slot;
    started = false;
    base_sequence = 0;
    first_arrival_samples = 0;
    frames_played = 0;
    have_highest = false;
    highest_sequence_seen = 0;
    highest_frame_index_seen = negsuc 0;
    estimate = record {
      have_prev_arrival = false;
      prev_rtp_timestamp = 0;
      prev_arrival_samples = 0;
      jitter_estimate_samples = F.of_int (pos 0);
      target_depth_ms = min_target_ms;
      target_depth_history_ms = [];
    };
    concealer = record {
      have_last_real_frame = false;
      last_real_frame = replicate frame_samples (pos 0);
      consecutive_concealments = 0;
    };
    stream_ended = false;
    counts = record {
      received = 0;
      lost = 0;
      late_dropped = 0;
      reordered = 0;
      concealed = 0;
      duplicate = 0;
    };
    options = options;
    latency_samples_ms = [];
  }

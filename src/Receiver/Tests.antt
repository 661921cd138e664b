-- ===== src/Receiver/Tests.antt =====
-- Deadlines that carry into the next second, and a buffer with one packet that is played out.
use rtp_audio_streamer.Base.{refl, true, ◌*◌, ◌%◌, ◌^◌, ◌≡◌, arith, some, [], ◌∷◌}
use rtp_audio_streamer.Base.Int.{ℤ}
use rtp_audio_streamer.Host.{little_endian}
use rtp_audio_streamer.Ring.{empty_ring}
use rtp_audio_streamer.Jitter.Push.{Arrival, push}
use rtp_audio_streamer.Jitter.Decode.{silence}
use rtp_audio_streamer.Jitter.Inv.{Inv}
use rtp_audio_streamer.Jitter.Keep.{push-Inv}
use rtp_audio_streamer.Jitter.Playback.{new-Inv, push-kept}
use rtp_audio_streamer.Fixtures.{integers, plain_options, empty_buffer}
use rtp_audio_streamer.Receiver.{Timespec, samples_since, playout_deadline}
use rtp_audio_streamer.Receiver.Clock.{samples_since-playout_deadline}
use rtp_audio_streamer.Receiver.Playout.{Playout, ring_capacity, drain_due}
use rtp_audio_streamer.Receiver.Finish.{at_end, drain_due-finished}
use rtp_audio_streamer.Jitter.Pull.{mark_stream_ended, finished}

abbrev start : Timespec
start = record { tv_sec = 7; tv_nsec = 990000000 }

samples_since-playout_deadline_example :
    samples_since start (playout_deadline start 3) ≡ 160 * 3 % 2 ^ 32
samples_since-playout_deadline_example = samples_since-playout_deadline start 3 (omega arith)

abbrev packet : Arrival
packet = record {
  sequence_number = 9;
  rtp_timestamp = 0;
  payload_type = 0;
  payload = 1 ∷ [];
  arrival_samples = 40;
}

abbrev playout : Playout ℤ
playout = record {
  jbuf = push integers packet empty_buffer;
  ring = empty_ring silence ring_capacity;
  underruns = 0;
}

empty_buffer-Inv : Inv empty_buffer
empty_buffer-Inv = new-Inv little_endian integers plain_options

abbrev ended : Playout ℤ
ended = record playout { jbuf = mark_stream_ended playout.jbuf }

ended-Inv : Inv ended.jbuf
unfolding mark_stream_ended
ended-Inv = push-Inv integers packet empty_buffer (omega arith) empty_buffer-Inv

ended_started : ended.jbuf.started ≡ true
unfolding mark_stream_ended
ended_started = (push-kept little_endian integers packet empty_buffer).1

ended_over : ended.jbuf.stream_ended ≡ true
unfolding mark_stream_ended
ended_over = refl

drain_due-finished_example :
    (q : Playout ℤ) × (drain_due little_endian integers 32769 0 ended ≡ some q)
    × (finished q.jbuf ≡ true)
    × (q.jbuf.frames_played ≡ at_end ended.jbuf.highest_frame_index_seen)
drain_due-finished_example =
    drain_due-finished little_endian integers 32769 0 ended ended-Inv ended_started ended_over
      (omega arith)

-- ===== src/Pipeline/Tests.antt =====
-- The second, short ADPCM frame of a stream of 170 samples, received after the first.
use rtp_audio_streamer.Base.{
  ℕ, ◌-◌, ◌<◌, ◌≡◌, refl, arith, true, false, none, List, [], ◌∷◌, All, get_or, replicate,
}
use rtp_audio_streamer.Base.Int.{ℤ, pos, IsI16}
use rtp_audio_streamer.Host.{little_endian}
use rtp_audio_streamer.Fixtures.{integers, plain_options, empty_buffer}
use rtp_audio_streamer.Codec.Adpcm.{initial_state}
use rtp_audio_streamer.Jitter.{JitterBuffer}
use rtp_audio_streamer.Jitter.Push.{push, place, observe, begin, count_arrival, frame_index_of}
use rtp_audio_streamer.Jitter.Decode.{pad_frame, conceal}
use rtp_audio_streamer.Jitter.Pull.{
  mark_stream_ended, try_pull_due_frame, play, lose, is_due, finished,
}
use rtp_audio_streamer.Jitter.Inv.{Inv}
use rtp_audio_streamer.Jitter.Keep.{push-Inv}
use rtp_audio_streamer.Jitter.Buffered.{waiting, buffered}
use rtp_audio_streamer.Jitter.Playback.{Call, end_stream, pull, step, run, new-Inv}
use rtp_audio_streamer.Sender.{adpcm, payload_type_of, Sender}
use rtp_audio_streamer.Sender.Payload.{reproduced}
use rtp_audio_streamer.Sender.Schedule.{frame_at, state_at}
use rtp_audio_streamer.Sender.Pass.{IsSender}
use rtp_audio_streamer.Receiver.Playout.{arrival_of}
use rtp_audio_streamer.Pipeline.Heard.{packet, received, received_lem, heard_frame}

abbrev sender : Sender
sender = record {
  header = record {
    marker = false;
    payload_type = 96;
    sequence_number = 65535;
    timestamp = 9;
    ssrc = 7;
  };
  first_packet = true;
  adpcm_state = initial_state;
  out_buffer = replicate 1500 0;
  samples = replicate 170 (pos 1000);
}

sender-IsSender : IsSender adpcm sender
unfolding payload_type_of
sender-IsSender = record {
  header_fits = record {
    type_fits = omega arith;
    sequence_fits = omega arith;
    timestamp_fits = omega arith;
    ssrc_fits = omega arith;
  };
  own_type = refl;
  buffer = refl;
  state = record { sample = (omega arith, omega arith); in_table = omega arith };
}

replicate-IsI16 : (n : ℕ) → All IsI16 (replicate n (pos 1000))
replicate-IsI16 ℕ.zero = tt
replicate-IsI16 (ℕ.suc n) = ((omega arith, omega arith), replicate-IsI16 n)

-- After the first packet.
abbrev begun : JitterBuffer ℤ
begun =
    push integers
      (arrival_of little_endian integers (packet little_endian integers adpcm sender 0) 40)
      empty_buffer

begun-Inv : Inv begun
begun-Inv =
    push-Inv integers
      (arrival_of little_endian integers (packet little_endian integers adpcm sender 0) 40)
      empty_buffer (omega arith) (new-Inv little_endian integers plain_options)

begun_at :
    (begun.started ≡ true)
    × (begun.base_sequence ≡ 65535)
    × (begun.frames_played ≡ 0)
    × (buffered begun 1 ≡ none)
unfolding push place observe begin count_arrival frame_index_of waiting
begun_at = (refl, refl, refl, refl)

abbrev calls : List Call
calls = end_stream ∷ pull 0 ∷ pull 0 ∷ []

both_played :
    (run little_endian integers calls (
      push integers
        (arrival_of little_endian integers (packet little_endian integers adpcm sender 1) 200)
        begun)).1.frames_played
    ≡ 2
unfolding run step push place observe begin count_arrival frame_index_of mark_stream_ended
    try_pull_due_frame play lose conceal is_due finished
both_played = refl

past :
    1
    < (run little_endian integers calls
        (received little_endian integers adpcm sender 3 1 200 begun)).1.frames_played
past =
    rw
      (received_lem little_endian integers adpcm sender 3 1 200 begun sender-IsSender (omega arith)
        (omega arith))
      (omega (arith, both_played))

heard_frame_example :
    get_or
      (run little_endian integers calls
        (received little_endian integers adpcm sender 3 1 200 begun)).0
      (1 - begun.frames_played)
      []
    ≡ pad_frame
        (reproduced little_endian adpcm (frame_at sender.samples 1) (state_at adpcm sender 1))
heard_frame_example =
    heard_frame little_endian integers adpcm sender 3 1 200 begun calls sender-IsSender
      (replicate-IsI16 170) (omega arith) (omega arith) refl begun-Inv (begun_at.0) (begun_at.1)
      (omega (arith, begun_at.2), omega (arith, begun_at.2), omega arith) (begun_at.3)
      (tt, (tt, (tt, tt))) past

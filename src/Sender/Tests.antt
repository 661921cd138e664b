-- ===== src/Sender/Tests.antt =====
-- A stream of 170 samples: a full frame and a short one, across the wrap of the sequence number.
use rtp_audio_streamer.Base.{◌≡◌, refl, arith, true, false, some, List, [], ◌∷◌, All, replicate}
use rtp_audio_streamer.Base.Int.{ℤ, pos, negsuc, IsI16}
use rtp_audio_streamer.Host.{little_endian, big_endian}
use rtp_audio_streamer.Codec.Adpcm.{initial_state}
use rtp_audio_streamer.Codec.Adpcm.State.{IsState}
use rtp_audio_streamer.Jitter.{Slot}
use rtp_audio_streamer.Jitter.Decode.{decode_slot, pad_frame}
use rtp_audio_streamer.Sender.{adpcm, payload_type_of, encode_payload, Sender, send_all}
use rtp_audio_streamer.Sender.Payload.{reproduced, decode_slot-encode_payload}
use rtp_audio_streamer.Sender.Schedule.{tabulate, frame_count, header_at, payload_at, packet_at}
use rtp_audio_streamer.Sender.Pass.{IsSender, received_at}
use rtp_audio_streamer.Sender.Stream.{send_all-packets, send_all-parse}

abbrev samples : List ℤ
samples = replicate 170 (pos 1000)

abbrev sender : Sender
sender = record {
  header = record {
    marker = false;
    payload_type = 96;
    sequence_number = 65535;
    timestamp = 4294967295;
    ssrc = 7;
  };
  first_packet = true;
  adpcm_state = initial_state;
  out_buffer = replicate 1500 0;
  samples = samples;
}

initial_state-IsState : IsState initial_state
initial_state-IsState = record { sample = (omega arith, omega arith); in_table = omega arith }

sender-IsSender : IsSender adpcm sender
unfolding payload_type_of
sender-IsSender = record {
  header_fits = record {
    type_fits = omega arith;
    sequence_fits = omega arith;
    timestamp_fits = omega arith;
    ssrc_fits = omega arith;
  };
  own_type = refl;
  buffer = refl;
  state = initial_state-IsState;
}

send_all-packets_example :
    send_all little_endian adpcm 3 sender
    ≡ some (tabulate (frame_count sender.samples) (packet_at little_endian adpcm sender))
send_all-packets_example =
    send_all-packets little_endian adpcm 3 sender sender-IsSender (omega arith)

send_all-parse_example :
    received_at big_endian 1 (send_all little_endian adpcm 3 sender)
    ≡ some
        (record { header = header_at sender 1; payload = payload_at little_endian adpcm sender 1 })
send_all-parse_example =
    send_all-parse little_endian adpcm big_endian 3 1 sender sender-IsSender (omega arith)
      (omega arith)

abbrev frame : List ℤ
frame = pos 5 ∷ negsuc 700 ∷ []

abbrev slot : Slot
slot = record {
  occupied = true;
  sequence_number = 3;
  payload_type = 96;
  payload = (encode_payload little_endian adpcm frame initial_state).0;
  arrival_samples = 0;
}

frame-IsI16 : All IsI16 frame
frame-IsI16 = ((omega arith, omega arith), ((omega arith, omega arith), tt))

slot_type : slot.payload_type ≡ payload_type_of adpcm
unfolding payload_type_of
slot_type = refl

decode_slot-encode_payload_example :
    decode_slot little_endian slot ≡ pad_frame (reproduced little_endian adpcm frame initial_state)
decode_slot-encode_payload_example =
    decode_slot-encode_payload little_endian adpcm frame initial_state slot frame-IsI16
      initial_state-IsState (omega arith) refl slot_type refl

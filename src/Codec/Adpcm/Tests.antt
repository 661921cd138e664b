-- ===== src/Codec/Adpcm/Tests.antt =====
-- Samples through ADPCM from a state in the middle of a stream.
use rtp_audio_streamer.Base.{◌+◌, ◌-◌, ◌/◌, ◌≤◌, ◌≡◌, arith, max, List, [], ◌∷◌, All, length}
use rtp_audio_streamer.Base.Int.{ℤ, pos, negsuc, distance}
use rtp_audio_streamer.Host.{IsByte}
use rtp_audio_streamer.Codec.Adpcm.{
  AdpcmState, step_at, encode_sample, adpcm_encode_frame, adpcm_decode_frame,
}
use rtp_audio_streamer.Codec.Adpcm.State.{IsState}
use rtp_audio_streamer.Codec.Adpcm.Quantise.{encode_sample_error}
use rtp_audio_streamer.Codec.Adpcm.Frame.{predictions, final_state, adpcm_decode-encode_frame}

abbrev state : AdpcmState
state = record { predictor = negsuc 1000; step_index = 40 }

state-IsState : IsState state
state-IsState = record { sample = (omega arith, omega arith); in_table = omega arith }

encode_sample_error_example :
    distance (encode_sample (pos 500) state).1.predictor (pos 500)
    ≤ max (step_at 40 / 8 + 2) (distance state.predictor (pos 500) - step_at 40)
encode_sample_error_example = encode_sample_error (pos 500) state (omega arith, omega arith)

abbrev frame : List ℤ
frame = pos 500 ∷ negsuc 3 ∷ pos 12000 ∷ []

adpcm_decode-encode_frame_example :
    let (packed, s') = adpcm_encode_frame frame state in
    (adpcm_decode_frame packed (length frame) state
      ≡ (predictions frame state, final_state frame state))
    × (s' ≡ final_state frame state)
    × All IsByte packed
    × (length packed ≡ (length frame + 1) / 2)
adpcm_decode-encode_frame_example = adpcm_decode-encode_frame frame state

-- ===== src/Jitter/Tests.antt =====
-- The jitter buffer at work: two mu-law packets that arrive in the wrong order, across the wrap of
-- the sequence number.
use rtp_audio_streamer.Base.{
  ℕ, ◌+◌, ◌-◌, ◌*◌, ◌^◌, ◌≤◌, ◌≡◌, refl, arith, true, false, none, some, List, [], ◌∷◌, All, length,
  get_or, if◌then◌else◌, ◌==◌,
}
use rtp_audio_streamer.Base.Int.{ℤ}
use rtp_audio_streamer.Host.{little_endian}
use rtp_audio_streamer.Jitter.{JitterBuffer, Options, new_buffer}
use rtp_audio_streamer.Fixtures.{integers}
use rtp_audio_streamer.Jitter.Push.{
  Arrival, push, filled, place, observe, begin, count_arrival, frame_index_of,
}
use rtp_audio_streamer.Jitter.Decode.{decode_slot, conceal}
use rtp_audio_streamer.Jitter.Pull.{
  is_due, try_pull_due_frame, play, lose, finished, mark_stream_ended,
}
use rtp_audio_streamer.Jitter.Inv.{offset, Inv}
use rtp_audio_streamer.Jitter.Keep.{push-Inv}
use rtp_audio_streamer.Jitter.Buffered.{waiting, buffered, or_else, push-buffered}
use rtp_audio_streamer.Jitter.Playback.{
  Call, IsCall, arrive, pull, end_stream, run, step, new-Inv, run_frames,
}
use rtp_audio_streamer.Jitter.Delivery.{heard, pull-buffered, run_plays}
use rtp_audio_streamer.Jitter.Account.{Balanced, run_accounts}
use rtp_audio_streamer.Jitter.Target.{InRange, run_target}

abbrev options : Options
options = record { collect_stats = true; disable_plc_fade = false }

abbrev fresh : JitterBuffer ℤ
fresh = new_buffer integers options

abbrev packet : ℕ → List ℕ → ℕ → Arrival
packet sequence payload now = record {
  sequence_number = sequence;
  rtp_timestamp = 160 * sequence;
  payload_type = 0;
  payload = payload;
  arrival_samples = now;
}

abbrev first : Arrival
first = packet 65535 (0 ∷ []) 10

abbrev third : Arrival
third = packet 1 (2 ∷ []) 500

abbrev second : Arrival
second = packet 0 (1 ∷ []) 510

-- After the first packet and the third.
abbrev early : JitterBuffer ℤ
early = push integers third (push integers first fresh)

early-Inv : Inv early
early-Inv =
    push-Inv integers third (push integers first fresh) (omega arith)
      (push-Inv integers first fresh (omega arith) (new-Inv little_endian integers options))

early_started : early.started ≡ true
unfolding push place observe begin count_arrival frame_index_of
early_started = refl

early_played : early.frames_played ≡ 0
unfolding push place observe begin count_arrival frame_index_of
early_played = refl

early-third : buffered early 2 ≡ some (filled third)
unfolding push place observe begin count_arrival frame_index_of waiting
early-third = refl

abbrev calls : List Call
calls = arrive second ∷ end_stream ∷ pull 600 ∷ pull 600 ∷ pull 600 ∷ pull 600 ∷ []

calls-IsCall : All IsCall calls
calls-IsCall = (omega arith, (tt, (tt, (tt, (tt, (tt, tt))))))

all_played : (run little_endian integers calls early).1.frames_played ≡ 3
unfolding run step push place observe begin count_arrival frame_index_of mark_stream_ended
    try_pull_due_frame play lose conceal is_due finished
all_played = refl

run_plays_example :
    get_or (run little_endian integers calls early).0 (2 - early.frames_played) []
    ≡ decode_slot little_endian (filled third)
run_plays_example =
    run_plays little_endian integers calls early 2 (filled third) calls-IsCall early-Inv
      early_started (omega (arith, early_played), omega (arith, early_played), omega arith)
      early-third (omega (arith, all_played))

push-buffered_example : buffered (push integers second early) 1 ≡ (
    if offset early.base_sequence 0 == 1
    then or_else (buffered early 1) (filled second)
    else buffered early 1)
push-buffered_example =
    push-buffered integers second early 1 (omega arith) early_started early-Inv
      (omega (arith, early_played), omega (arith, early_played), omega arith)

pull-buffered_example :
    ((try_pull_due_frame little_endian integers 2000 early).0 ≡ (
      if is_due 2000 early
      then some (heard little_endian integers early (buffered early early.frames_played))
      else none))
    × ((try_pull_due_frame little_endian integers 2000 early).1.frames_played
        ≡ (if is_due 2000 early then early.frames_played + 1 else early.frames_played))
    × (buffered (try_pull_due_frame little_endian integers 2000 early).1 2 ≡ buffered early 2)
pull-buffered_example =
    pull-buffered little_endian integers 2000 early 2 early-Inv (omega (arith, early_played))
      (omega (arith, early_played))

run_frames_example :
    Inv (run little_endian integers calls fresh).1
    × ((run little_endian integers calls fresh).1.frames_played
        ≡ length (run little_endian integers calls fresh).0)
    × (length (run little_endian integers calls fresh).0 ≤ 2 ^ 15)
run_frames_example = run_frames little_endian integers options calls calls-IsCall

run_accounts_example : Balanced (run little_endian integers calls fresh).1 0
run_accounts_example = run_accounts little_endian integers options calls calls-IsCall

run_target_example : InRange (run little_endian integers calls fresh).1.estimate
run_target_example = run_target integers little_endian options calls

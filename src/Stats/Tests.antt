-- ===== src/Stats/Tests.antt =====
-- A stream across the wrap of the sequence number.
use rtp_audio_streamer.Base.{ℕ, ◌%◌, ◌^◌, arith, List, [], ◌∷◌, map}
use rtp_audio_streamer.Stats.{new_tracker, on_packets}
use rtp_audio_streamer.Stats.Ideal.{Tracks, ideal_run, ideal_start, on_packets-ideal}

abbrev reordered_stream : List ℕ
reordered_stream = 65537 ∷ 65536 ∷ 65540 ∷ []

on_packets-ideal_example :
    Tracks
      (on_packets new_tracker (map (λ n. n % 2 ^ 16) (65535 ∷ reordered_stream)))
      (ideal_run (ideal_start 65535) reordered_stream)
on_packets-ideal_example =
    on_packets-ideal 65535 reordered_stream
      (omega arith, omega arith, (omega arith, omega arith, (omega arith, omega arith, tt)))

abbrev lossy_stream : List ℕ
lossy_stream = 65537 ∷ 65540 ∷ []

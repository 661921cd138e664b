-- ===== src/Sender/MainTests.antt =====
-- A run of the sender over a system that takes every datagram.
use Prim.Native.String.{String}
use text.Mathlib.Text.{◌==◌}
use rtp_audio_streamer.Base.{
  ℕ, ◌≡◌, ◌⊎◌, refl, arith, true, none, some, Option, List, [], ◌∷◌, ◌++◌, length, if◌then◌else◌,
}
use rtp_audio_streamer.Base.Int.{pos}
use rtp_audio_streamer.Host.{little_endian}
use rtp_audio_streamer.Wav.{write}
use rtp_audio_streamer.Fixtures.{network}
use rtp_audio_streamer.Udp.{is_negative}
use rtp_audio_streamer.Sender.Main.{Draws, Job, job_of, main}
use rtp_audio_streamer.Sender.Handed.{Delivers}
use rtp_audio_streamer.Sender.Sent.{IsDraws, Exits, packets_of, main-Exits}

abbrev handed_over : List (List ℕ) → List (List ℕ)
handed_over k = k

network-Delivers : Delivers network little_endian handed_over
network-Delivers = record {
  socket_keeps = λ k. refl;
  close_keeps = λ fd k. refl;
  sendto_whole = λ fd b a k h. refl;
  sendto_delivers = λ fd b a k. taken b k;
}
  where
    taken :
        (b : List ℕ) (k : List (List ℕ))
        → k ++ (b ∷ []) ≡ (if is_negative (pos (length b)) then k else k ++ (b ∷ []))
    taken b k = ground arith

abbrev draws : Draws
draws = record { sequence_number = 65535; timestamp = 5; ssrc = 9 }

draws-IsDraws : IsDraws draws
draws-IsDraws = record {
  sequence_fits = omega arith;
  timestamp_fits = omega arith;
  ssrc_fits = omega arith;
}

abbrev files : String → Option (List ℕ)
files path = if path == "in.wav" then some (write 8000 (pos 1 ∷ pos 2 ∷ [])) else none

abbrev argv : List String
argv = "in.wav" ∷ "--codec" ∷ "ulaw" ∷ []

abbrev job : Option Job
job = job_of (λ s. pos 5004) files (λ n. true) argv

abbrev exit : ℕ × List (List ℕ)
exit = main network little_endian (λ s. pos 5004) files (λ n. true) draws argv []

main-Exits_example :
    ((j : Job) × (job ≡ some j)
      × Exits network little_endian network-Delivers
          (packets_of network little_endian draws j)
          []
          exit)
    ⊎ ((job ≡ none) × (exit.0 ≡ 1) × (exit.1 ≡ []))
main-Exits_example =
    main-Exits network little_endian network-Delivers (λ s. pos 5004) files (λ n. true) draws argv
      [] draws-IsDraws

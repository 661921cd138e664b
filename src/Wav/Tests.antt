-- ===== src/Wav/Tests.antt =====
-- A file of three samples, written and read.
use rtp_audio_streamer.Base.{ℕ, ◌≡◌, arith, Bool, true, List, [], ◌∷◌, ◌++◌, All}
use rtp_audio_streamer.Base.Int.{ℤ, pos, negsuc, IsI16}
use rtp_audio_streamer.Wav.{write, read, ReadResult}
use rtp_audio_streamer.Wav.RoundTrip.{read-write}
use rtp_audio_streamer.Wav.Reading.{IsOutcome, read-IsOutcome}

abbrev any_seek : ℕ → Bool
any_seek skip = true

abbrev samples : List ℤ
samples = pos 1 ∷ negsuc 32767 ∷ pos 32767 ∷ []

samples-IsI16 : All IsI16 samples
samples-IsI16 =
    ((omega arith, omega arith), ((omega arith, omega arith), ((omega arith, omega arith), tt)))

read-write_example :
    read any_seek (write 8000 samples)
    ≡ ReadResult.ok
        (record { sample_rate = 8000; num_channels = 1; bits_per_sample = 16; samples = samples })
read-write_example = read-write any_seek 8000 samples (omega arith) samples-IsI16 (omega arith)

read-IsOutcome_example : IsOutcome (read any_seek (write 8000 samples ++ (1 ∷ [])))
read-IsOutcome_example = read-IsOutcome any_seek (write 8000 samples ++ (1 ∷ []))

-- ===== src/Tools/Tests.antt =====
-- The tools with integers in the place of `double`.
use Prim.Native.String.{String}
use text.Mathlib.Text.{◌==◌}
use rtp_audio_streamer.Base.{
  ℕ, ◌≡◌, refl, arith, Bool, true, some, Option, List, [], ◌∷◌, take, if◌then◌else◌,
}
use rtp_audio_streamer.Base.Int.{ℤ, pos, negsuc}
use rtp_audio_streamer.Wav.{write}
use rtp_audio_streamer.Fixtures.{whole_numbers}
use rtp_audio_streamer.Tools.{compute_snr_db, wav_snr}
use rtp_audio_streamer.Tools.Snr.{snr, wav_snr-compute_snr_db}

abbrev played : List ℤ
played = pos 3 ∷ negsuc 9 ∷ pos 40 ∷ []

abbrev recorded : List ℤ
recorded = pos 4 ∷ negsuc 9 ∷ []

abbrev files : String → Option (List ℕ)
files path = if path == "played.wav" then some (write 8000 played) else some (write 16000 recorded)

abbrev any_seek : ℕ → Bool
any_seek skip = true

wav_snr-compute_snr_db_example :
    (wav_snr whole_numbers files any_seek ("played.wav" ∷ "recorded.wav" ∷ [])
      ≡ some (snr whole_numbers (take 2 played) (take 2 recorded)))
    × (compute_snr_db whole_numbers recorded recorded ≡ snr whole_numbers recorded recorded)
wav_snr-compute_snr_db_example =
    wav_snr-compute_snr_db whole_numbers files any_seek "played.wav" "recorded.wav" [] 8000 16000
      played recorded recorded recorded refl refl (omega arith) (omega arith)
      ((omega arith, omega arith), ((omega arith, omega arith), ((omega arith, omega arith), tt)))
      ((omega arith, omega arith), ((omega arith, omega arith), tt)) (omega arith) (omega arith)
      refl

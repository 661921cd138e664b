-- ===== src/Tools.antt =====
-- The offline tools: tools/snr_harness.cpp, tools/wav_snr.cpp and tools/gen_test_tone.cpp. `argv` is
-- taken from its element 1 on; an exit status of 1 without output is `none`.
pub mod Snr
pub mod Tone
mod Tests
use Prim.Native.String.{String}
use text.Mathlib.Text.{◌==◌}
use rtp_audio_streamer.Base.{
  ℕ, zero, suc, ◌+◌, Bool, true, false, ◌||◌, Option, none, some, List, [], ◌∷◌, length, get_or,
  min, if◌then◌else◌,
}
use rtp_audio_streamer.Base.Int.{ℤ, pos}
use rtp_audio_streamer.AudioFormat.{sample_rate_hz}
use rtp_audio_streamer.Codec.Ulaw.{ulaw_encoded, ulaw_decoded}
use rtp_audio_streamer.Codec.Adpcm.{initial_state, adpcm_encode_frame, adpcm_decode_frame}
use rtp_audio_streamer.Wav.{ReadResult, WavData, write, read}
use rtp_audio_streamer.Jitter.{Arithmetic}
use rtp_audio_streamer.Sender.Schedule.{tabulate}

-- What the tools use of <cmath>, and the conversions and comparisons of `double`.
pub record Maths (Double : Type 0) : Type 0 where
  pub arithmetic : Arithmetic Double
  pub sin : Double → Double
  pub log10 : Double → Double
  pub equal : Double → Double → Bool
  pub less : Double → Double → Bool
  pub to_size : Double → ℕ
  pub to_i16 : Double → ℤ
  pub atof : String → Double
  pub two_pi : Double
  pub half : Double

module _ {Double : Type 0} (M : Maths Double) where
  abbrev pub number : ℕ → Double
  number n = M.arithmetic.of_int (pos n)

  -- `static_cast<double>(i) / rtp::audio::kSampleRateHz`.
  abbrev time_of : ℕ → Double
  time_of i = M.arithmetic.div (number i) (number sample_rate_hz)

  abbrev wave : Double → ℕ → Double
  wave freq_hz i = M.sin (M.arithmetic.mul (M.arithmetic.mul M.two_pi freq_hz) (time_of i))

  abbrev pub num_samples : Double → ℕ
  num_samples duration_s = M.to_size (M.arithmetic.mul duration_s (number sample_rate_hz))

  -- Of the harness.
  unfoldable pub make_sine : Double → Double → Double → List ℤ
  make_sine duration_s freq_hz amplitude = tabulate (num_samples duration_s) (λ i.
      M.to_i16 (M.arithmetic.mul (M.arithmetic.mul amplitude (number 32767)) (wave freq_hz i)))

  -- Of the generator of test tones.
  unfoldable pub test_tone : Double → Double → Double → List ℤ
  test_tone duration_s freq_hz amplitude = tabulate (num_samples duration_s) (λ i.
      M.to_i16 (M.arithmetic.mul (M.arithmetic.mul amplitude (wave freq_hz i)) (number 32767)))

  -- The loop of the harness, from index `i` on: the power of the signal and of the noise.
  unfoldable pub harness_powers : List ℤ → List ℤ → ℕ → ℕ → Double → Double → Double × Double
  harness_powers original reconstructed zero i signal_power noise_power =
      (signal_power, noise_power)
  harness_powers original reconstructed (suc n) i signal_power noise_power =
      let s = M.arithmetic.of_int (get_or original i (pos 0)) in
      let e =
        M.arithmetic.sub (M.arithmetic.of_int (get_or original i (pos 0)))
          (M.arithmetic.of_int (get_or reconstructed i (pos 0))) in
      harness_powers original reconstructed n (suc i)
        (M.arithmetic.add signal_power (M.arithmetic.mul s s))
        (M.arithmetic.add noise_power (M.arithmetic.mul e e))

  unfoldable pub compute_snr_db : List ℤ → List ℤ → Double
  compute_snr_db original reconstructed =
      let (signal_power, noise_power) =
        harness_powers original reconstructed (length original) 0 (number 0) (number 0) in
      if M.equal noise_power (number 0)
      then number 1000
      else M.arithmetic.mul (number 10) (M.log10 (M.arithmetic.div signal_power noise_power))

  -- The loop of wav_snr, likewise.
  unfoldable pub file_powers : List ℤ → List ℤ → ℕ → ℕ → Double → Double → Double × Double
  file_powers original reconstructed zero i signal_power noise_power = (signal_power, noise_power)
  file_powers original reconstructed (suc n) i signal_power noise_power =
      let s = M.arithmetic.of_int (get_or original i (pos 0)) in
      let e =
        M.arithmetic.sub (M.arithmetic.of_int (get_or original i (pos 0)))
          (M.arithmetic.of_int (get_or reconstructed i (pos 0))) in
      file_powers original reconstructed n (suc i)
        (M.arithmetic.add signal_power (M.arithmetic.mul s s))
        (M.arithmetic.add noise_power (M.arithmetic.mul e e))

  module _ (fopen : String → Option (List ℕ)) (fseek : ℕ → Bool) where
    abbrev samples_of : Option (List ℕ) → Option (List ℤ)
    samples_of none = none
    samples_of (some file) = elim (read fseek file) [
      | ReadResult.ok wav ↦ some wav.samples
      | ReadResult.fail e ↦ none
    ]

    abbrev measured : Option (List ℤ) → Option (List ℤ) → Option Double
    measured (some original) (some reconstructed) =
        let n = min (length original) (length reconstructed) in
        let (signal_power, noise_power) =
          file_powers original reconstructed n 0 (number 0) (number 0) in
        some (
          if M.equal noise_power (number 0)
          then number 1000
          else M.arithmetic.mul (number 10) (M.log10 (M.arithmetic.div signal_power noise_power)))
    measured _ _ = none

    -- `main` of wav_snr: the number that it prints.
    unfoldable pub wav_snr : List String → Option Double
    wav_snr (original ∷ reconstructed ∷ rest) =
        measured (samples_of (fopen original)) (samples_of (fopen reconstructed))
    wav_snr _ = none

  -- `main` of gen_test_tone: the file that it writes, and its path.
  unfoldable pub gen_test_tone : List String → Option (String × List ℕ)
  gen_test_tone (output_path ∷ duration ∷ freq ∷ rest) =
      let amplitude : Double = elim rest [ [] ↦ M.half | a ∷ more ↦ M.atof a ] in
      some (output_path, write sample_rate_hz (test_tone (M.atof duration) (M.atof freq) amplitude))
  gen_test_tone _ = none

  -- The argument loop of the harness: the last codec that is named.
  unfoldable pub codec_name : List String → String → String
  codec_name [] name = name
  codec_name (arg ∷ []) name = name
  codec_name (arg ∷ value ∷ rest) name =
      let named = codec_name rest value in
      let passed = codec_name (value ∷ rest) name in if arg == "--codec" then named else passed

  -- What a codec makes of the samples, and the threshold in dB.
  unfoldable pub reconstruct : String → List ℤ → List ℤ × Double
  reconstruct codec original =
      if codec == "ulaw" then (ulaw_decoded (ulaw_encoded original), number 30) else (
        (adpcm_decode_frame (adpcm_encode_frame original initial_state).0 (length original)
            initial_state).0,
        number 18,
      )

  -- `main` of the harness: the exit status, and what it prints.
  unfoldable pub snr_harness : List String → ℕ × Option Double
  snr_harness argv =
      let codec = codec_name argv "" in
      let original = make_sine (number 1) (number 1000) M.half in
      let (reconstructed, threshold_db) = reconstruct codec original in
      let snr_db = compute_snr_db original reconstructed in
      if codec == "ulaw" || codec == "adpcm"
      then (if M.less snr_db threshold_db then 1 else 0, some snr_db)
      else (1, none)

-- ===== src/Tools/Tone.antt =====
-- The file that tools/gen_test_tone.cpp writes.
use Prim.Native.String.{String}
use rtp_audio_streamer.Base.{
  ℕ, Bool, zero, suc, ◌^◌, ◌<◌, ◌≡◌, refl, ap, arith, some, List, [], ◌∷◌, length, All,
}
use rtp_audio_streamer.Base.Int.{ℤ, IsI16}
use rtp_audio_streamer.AudioFormat.{sample_rate_hz}
use rtp_audio_streamer.Wav.{ReadResult, read, write}
use rtp_audio_streamer.Wav.RoundTrip.{finished_with, read-write}
use rtp_audio_streamer.Sender.Schedule.{tabulate}
use rtp_audio_streamer.Tools.{Maths, num_samples, test_tone, gen_test_tone}

length-tabulate : {A : Type 0} (n : ℕ) (f : ℕ → A) → length (tabulate n f) ≡ n
length-tabulate zero f = refl
length-tabulate (suc n) f = ap suc (length-tabulate n (λ i. f (suc i)))

All-tabulate : (n : ℕ) (f : ℕ → ℤ) → ((i : ℕ) → IsI16 (f i)) → All IsI16 (tabulate n f)
All-tabulate zero f h = tt
All-tabulate (suc n) f h = (h 0, All-tabulate n (λ i. f (suc i)) (λ i. h (suc i)))

module _ {Double : Type 0} (M : Maths Double) where
  length-test_tone :
      (duration_s freq_hz amplitude : Double)
      → length (test_tone M duration_s freq_hz amplitude) ≡ num_samples M duration_s
  unfolding test_tone
  length-test_tone duration_s freq_hz amplitude = length-tabulate (num_samples M duration_s) _

  test_tone-IsI16 :
      (duration_s freq_hz amplitude : Double)
      → ((d : Double) → IsI16 (M.to_i16 d))
      → All IsI16 (test_tone M duration_s freq_hz amplitude)
  unfolding test_tone
  test_tone-IsI16 duration_s freq_hz amplitude cast =
      All-tabulate (num_samples M duration_s) _ (λ i. cast _)

  tone_read :
      (fseek : ℕ → Bool) (duration_s freq_hz amplitude : Double)
      → ((d : Double) → IsI16 (M.to_i16 d))
      → num_samples M duration_s < 2 ^ 31
      → read fseek (write sample_rate_hz (test_tone M duration_s freq_hz amplitude))
        ≡ ReadResult.ok (finished_with sample_rate_hz (test_tone M duration_s freq_hz amplitude))
  tone_read fseek duration_s freq_hz amplitude cast few =
      read-write fseek sample_rate_hz (test_tone M duration_s freq_hz amplitude) (omega arith)
        (test_tone-IsI16 duration_s freq_hz amplitude cast)
        (omega (arith, length-test_tone duration_s freq_hz amplitude))

  -- Given a path, a duration and a frequency, and perhaps more, and where conversions to `int16_t` are in its
  -- range and the duration makes fewer than 2^31 samples: the tool writes to that path, and `read` reads
  -- back from the file, at 8000 Hz, with one channel and 16 bits, as many samples as the duration
  -- makes, those of a tone.
  pub gen_test_tone-read :
      (fseek : ℕ → Bool) (path duration freq : String) (rest : List String)
      → ((d : Double) → IsI16 (M.to_i16 d))
      → num_samples M (M.atof duration) < 2 ^ 31
      → (file : List ℕ) × (amplitude : Double) × (gen_test_tone M (path ∷ duration ∷ freq ∷ rest)
          ≡ some (path, file))
        × (read fseek file
            ≡ ReadResult.ok (
                finished_with sample_rate_hz
                  (test_tone M (M.atof duration) (M.atof freq) amplitude)))
        × (length (test_tone M (M.atof duration) (M.atof freq) amplitude)
            ≡ num_samples M (M.atof duration))
  unfolding gen_test_tone
  gen_test_tone-read fseek path duration freq [] cast few =
      let d = M.atof duration in
      let f = M.atof freq in
      (_, M.half, refl, tone_read fseek d f M.half cast few, length-test_tone d f M.half)
  gen_test_tone-read fseek path duration freq (a ∷ more) cast few =
      let d = M.atof duration in
      let f = M.atof freq in
      (_, M.atof a, refl, tone_read fseek d f (M.atof a) cast few, length-test_tone d f (M.atof a))

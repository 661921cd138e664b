-- ===== src/Tools/Snr.antt =====
-- The two measurements of the signal-to-noise ratio, of tools/snr_harness.cpp and of tools/wav_snr.cpp.
use Prim.Native.String.{String}
use rtp_audio_streamer.Base.{
  ℕ, Bool, zero, suc, ◌^◌, ◌≤◌, ◌<◌, ◌≡◌, refl, arith, Option, some, List, [], ◌∷◌, length, take,
  min, map, All, ◌∙◌, if◌then◌else◌,
}
use rtp_audio_streamer.Base.Int.{ℤ, IsI16}
use rtp_audio_streamer.Wav.{write}
use rtp_audio_streamer.Wav.RoundTrip.{read-write}
use rtp_audio_streamer.Tools.{
  Maths, number, harness_powers, file_powers, compute_snr_db, samples_of, wav_snr,
}

module _ {Double : Type 0} (M : Maths Double) where
  -- Samples, and the errors of samples, as numbers.
  abbrev pub numbers : List ℤ → List Double
  numbers xs = map M.arithmetic.of_int xs

  abbrev pub errors : List Double → List Double → List Double
  errors [] ys = []
  errors (x ∷ xs) [] = []
  errors (x ∷ xs) (y ∷ ys) = M.arithmetic.sub x y ∷ errors xs ys

  -- The sum of the squares, from the left.
  abbrev pub square_sum : List Double → Double → Double
  square_sum [] total = total
  square_sum (x ∷ xs) total = square_sum xs (M.arithmetic.add total (M.arithmetic.mul x x))

  -- The signal-to-noise ratio: ten times the logarithm of the ratio of the two sums of squares, and
  -- 1000 where there is no noise.
  abbrev pub snr : List ℤ → List ℤ → Double
  snr original reconstructed =
      let signal = square_sum (numbers original) (number M 0) in
      let noise = square_sum (errors (numbers original) (numbers reconstructed)) (number M 0) in
      if M.equal noise (number M 0)
      then number M 1000
      else M.arithmetic.mul (number M 10) (M.log10 (M.arithmetic.div signal noise))

  harness_powers-cons :
      (x y : ℤ) (xs ys : List ℤ) (n i : ℕ) (signal noise : Double)
      → harness_powers M (x ∷ xs) (y ∷ ys) n (suc i) signal noise
        ≡ harness_powers M xs ys n i signal noise
  unfolding harness_powers
  harness_powers-cons x y xs ys zero i signal noise = refl
  harness_powers-cons x y xs ys (suc n) i signal noise = harness_powers-cons x y xs ys n (suc i) _ _

  file_powers-cons :
      (x y : ℤ) (xs ys : List ℤ) (n i : ℕ) (signal noise : Double)
      → file_powers M (x ∷ xs) (y ∷ ys) n (suc i) signal noise
        ≡ file_powers M xs ys n i signal noise
  unfolding file_powers
  file_powers-cons x y xs ys zero i signal noise = refl
  file_powers-cons x y xs ys (suc n) i signal noise = file_powers-cons x y xs ys n (suc i) _ _

  harness_powers_lem :
      (xs ys : List ℤ) (signal noise : Double)
      → length xs ≡ length ys
      → harness_powers M xs ys (length xs) 0 signal noise
        ≡ (square_sum (numbers xs) signal, square_sum (errors (numbers xs) (numbers ys)) noise)
  unfolding harness_powers
  harness_powers_lem [] ys signal noise same = refl
  harness_powers_lem (x ∷ xs) [] signal noise same = absurd (omega (arith, same))
  harness_powers_lem (x ∷ xs) (y ∷ ys) signal noise same =
      harness_powers-cons x y xs ys (length xs) 0 _ _
      ∙ harness_powers_lem xs ys _ _ (omega (arith, same))

  file_powers_lem :
      (n : ℕ) (xs ys : List ℤ) (signal noise : Double)
      → n ≤ length xs
      → n ≤ length ys
      → file_powers M xs ys n 0 signal noise ≡ (
        square_sum (numbers (take n xs)) signal,
        square_sum (errors (numbers (take n xs)) (numbers (take n ys))) noise,
      )
  unfolding file_powers
  file_powers_lem zero xs ys signal noise inside inside' = refl
  file_powers_lem (suc n) [] ys signal noise inside inside' = absurd (omega (arith, inside))
  file_powers_lem (suc n) (x ∷ xs) [] signal noise inside inside' = absurd (omega (arith, inside'))
  file_powers_lem (suc n) (x ∷ xs) (y ∷ ys) signal noise inside inside' =
      file_powers-cons x y xs ys n 0 _ _
      ∙ file_powers_lem n xs ys _ _ (omega (arith, inside)) (omega (arith, inside'))

  -- For as many samples before as after.
  compute_snr_db-snr :
      (original reconstructed : List ℤ)
      → length original ≡ length reconstructed
      → compute_snr_db M original reconstructed ≡ snr original reconstructed
  unfolding compute_snr_db
  compute_snr_db-snr original reconstructed same =
      rw (harness_powers_lem original reconstructed (number M 0) (number M 0) same) refl

  samples_of-write :
      (fopen : String → Option (List ℕ)) (fseek : ℕ → Bool) (rate : ℕ) (samples : List ℤ)
      → rate < 2 ^ 32
      → All IsI16 samples
      → length samples < 2 ^ 31
      → samples_of M fopen fseek (some (write rate samples)) ≡ some samples
  samples_of-write fopen fseek rate samples small h few =
      rw (samples_of, read-write fseek rate samples small h few) refl

  -- `compute_snr_db` of the harness, for as many samples before as after, and `wav_snr`, on two files
  -- that were written, each of fewer than 2^31 samples of 16 bits, whatever their sample rates, both
  -- give the signal-to-noise ratio: ten times the logarithm of the sum of the squares of the samples
  -- over the sum of the squares of the differences, each sum from the left, and 1000 when the latter
  -- is 0. `wav_snr` cuts the samples of both files to the length of the shorter.
  pub wav_snr-compute_snr_db :
      (fopen : String → Option (List ℕ)) (fseek : ℕ → Bool) (a b : String) (rest : List String)
      (rate rate' : ℕ) (original reconstructed before after : List ℤ)
      → fopen a ≡ some (write rate original)
      → fopen b ≡ some (write rate' reconstructed)
      → rate < 2 ^ 32
      → rate' < 2 ^ 32
      → All IsI16 original
      → All IsI16 reconstructed
      → length original < 2 ^ 31
      → length reconstructed < 2 ^ 31
      → length before ≡ length after
      → let n = min (length original) (length reconstructed) in
        (wav_snr M fopen fseek (a ∷ b ∷ rest) ≡ some (snr (take n original) (take n reconstructed)))
        × (compute_snr_db M before after ≡ snr before after)
  unfolding wav_snr
  wav_snr-compute_snr_db fopen fseek a b rest rate rate' original reconstructed before after at_a
        at_b small small' h h' few few' same =
      let n = min (length original) (length reconstructed) in
      (
        rw
            (
              at_a,
              at_b,
              samples_of-write fopen fseek rate original small h few,
              samples_of-write fopen fseek rate' reconstructed small' h' few',
              file_powers_lem n original reconstructed (number M 0) (number M 0) (omega arith)
                  (omega arith),
            )
            refl,
        compute_snr_db-snr before after same,
      )

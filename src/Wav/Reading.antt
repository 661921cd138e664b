-- ===== src/Wav/Reading.antt =====
-- Reading any file: the loop over chunks ends, and what is accepted has the one format.
use rtp_audio_streamer.Base.{
  ℕ, zero, suc, ◌+◌, ◌/◌, ◌%◌, ◌≤◌, ◌<◌, ◌≡◌, ◌≢◌, arith, Bool, true, false, List, length, All,
  drop, ltb, ◌==◌, not, ◌||◌, if◌then◌else◌, length-drop, u32,
}
use native.Mathlib.Decide.{dec_lt}
use rtp_audio_streamer.Base.Int.{IsI16}
use rtp_audio_streamer.Wav.{
  read_u32le, read_u16le, tag_fmt, tag_data, tag_riff, tag_wave, WavData, ReadError, ReadResult,
  has_tag, Reader, read_chunk, read_chunks, check_format, reader_at, read,
}
use rtp_audio_streamer.Wav.Bytes.{read_samples-IsI16}

-- The outcome of a pass: it moves on by eight bytes at least and keeps the samples in range, or it
-- fails with an error of the source.
abbrev GoesOn : Reader → ReadResult Reader → Type 0
GoesOn r (ReadResult.ok s) =
    (length s.rest + 8 ≤ length r.rest) × (All IsI16 r.result.samples → All IsI16 s.result.samples)
GoesOn r (ReadResult.fail e) = e ≢ ReadError.out_of_fuel

-- The same for the whole loop.
abbrev Ends : ReadResult Reader → Type 0
Ends (ReadResult.ok s) = All IsI16 s.result.samples
Ends (ReadResult.fail e) = e ≢ ReadError.out_of_fuel

-- The result is an error of the source, or a mono recording of 16-bit samples.
abbrev pub IsOutcome : ReadResult WavData → Type 0
IsOutcome (ReadResult.ok w) = (w.num_channels ≡ 1) × (w.bits_per_sample ≡ 16) × All IsI16 w.samples
IsOutcome (ReadResult.fail e) = e ≢ ReadError.out_of_fuel

either : {A : Type 0} (P : A → Type 0) (b : Bool) {x y : A} → P x → P y → P (if b then x else y)
either P true p q = p
either P false p q = q

module _ (fseek : ℕ → Bool) where
  shorter :
      (n : ℕ) (bytes : List ℕ)
      → 8 ≤ length bytes
      → length (drop n (drop 8 bytes)) + 8 ≤ length bytes
  shorter n bytes long = omega (arith, length-drop n (drop 8 bytes), length-drop 8 bytes)

  read_chunk-GoesOn : (r : Reader) → 8 ≤ length r.rest → GoesOn r (read_chunk fseek r)
  unfolding read_chunk
  read_chunk-GoesOn r long =
      let size = read_u32le (drop 4 r.rest) in
      either (GoesOn r) (has_tag tag_fmt r.rest)
        (either (GoesOn r) (ltb size 16) (λ e. cc)
          (either (GoesOn r) (ltb (length (drop 8 r.rest)) size) (λ e. cc)
            (either (GoesOn r) (not (read_u16le (drop 8 r.rest) == 1)) (λ e. cc)
              (shorter size r.rest long, λ h. h))))
        (either (GoesOn r) (has_tag tag_data r.rest)
          (either (GoesOn r) (not r.have_fmt) (λ e. cc)
            (either (GoesOn r) (ltb (length (drop 8 r.rest)) size) (λ e. cc)
              (shorter size r.rest long, λ h. read_samples-IsI16 (size / 2) (drop 8 r.rest))))
          (either (GoesOn r) (fseek (u32 (size + size % 2)))
            (shorter (u32 (size + size % 2)) r.rest long, λ h. h) (λ e. cc)))

  read_chunks-Ends :
      (fuel : ℕ) (r : Reader)
      → length r.rest < fuel
      → All IsI16 r.result.samples
      → Ends (read_chunks fseek fuel r)
  unfolding read_chunks
  read_chunks-Ends zero r h v = absurd (omega arith)
  read_chunks-Ends (suc fuel) r h v = elim (dec_lt (length r.rest) 8) [
    | yes short ↦
        let stop : ltb (length r.rest) 8 ≡ true = ground arith in
        simp stop (either Ends r.have_data v v)
    | no long ↦ either Ends r.have_data v (
        either Ends (ltb (length r.rest) 8) v (
          on (λ s small w. read_chunks-Ends fuel s small w) (read_chunk fseek r)
            (read_chunk-GoesOn r (omega arith))))
  ]
    where
      on :
          ((s : Reader)
            → length s.rest < fuel
            → All IsI16 s.result.samples
            → Ends (read_chunks fseek fuel s))
          → (out : ReadResult Reader) → GoesOn r out
          → Ends (elim out [
            | ReadResult.ok r' ↦ read_chunks fseek fuel r'
            | ReadResult.fail e ↦ ReadResult.fail e
          ])
      on ih (ReadResult.ok s) g = ih s (omega (arith, g.0)) (g.1 v)
      on ih (ReadResult.fail e) g = g

  check_format-IsOutcome :
      (r : Reader) → All IsI16 r.result.samples → IsOutcome (check_format fseek r)
  unfolding check_format
  check_format-IsOutcome r v = ground (arith, v)

  -- Whatever bytes a file has, and however seeks go: reading it ends, and the result is one of the
  -- exceptions of the source, or a recording of one channel, of 16 bits a sample, every sample in
  -- the range of 16 bits.
  pub read-IsOutcome : (file : List ℕ) → IsOutcome (read fseek file)
  unfolding read
  read-IsOutcome file = elim (dec_lt (length file) 12) [
    | yes short ↦ let stop : ltb (length file) 12 ≡ true = ground arith in simp stop (λ e. cc)
    | no long ↦
        either IsOutcome
          (ltb (length file) 12
            || (not (has_tag tag_riff file) || not (has_tag tag_wave (drop 8 file))))
          (λ e. cc)
          (at_end (read_chunks fseek (length file) (reader_at fseek (drop 12 file))) (
            read_chunks-Ends (length file) (reader_at fseek (drop 12 file))
              (omega (arith, length-drop 12 file)) tt))
  ]
    where
      at_end :
          (out : ReadResult Reader)
          → Ends out
          → IsOutcome (elim out [
            | ReadResult.ok r ↦ check_format fseek r
            | ReadResult.fail e ↦ ReadResult.fail e
          ])
      at_end (ReadResult.ok r) v = check_format-IsOutcome r v
      at_end (ReadResult.fail e) v = v

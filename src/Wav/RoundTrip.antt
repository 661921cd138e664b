-- ===== src/Wav/RoundTrip.antt =====
-- What `write` puts into a file, `read` gives back.
use rtp_audio_streamer.Base.{
  ℕ, zero, suc, ◌*◌, ◌/◌, ◌^◌, ◌≤◌, ◌<◌, ◌≡◌, refl, ◌∙◌, arith, Bool, true, false, List, [], ◌∷◌,
  ◌++◌, length, All, u8, u32, drop, ltb, ◌>>>◌,
}
use rtp_audio_streamer.Base.Int.{ℤ, IsI16}
use rtp_audio_streamer.Wav.{
  write_u32le, write_u16le, read_u32le, read_u16le, tag_fmt, tag_data, write_samples, write,
  WavData, ReadResult, has_tag, Reader, read_chunk, read_chunks, check_format, reader_at, read,
}
use rtp_audio_streamer.Wav.Bytes.{
  read_u16le-write_u16le, read_u32le-write_u32le, length-write_samples, read_samples-write_samples,
}

abbrev data_chunk : List ℤ → List ℕ
data_chunk samples = tag_data ++ (write_u32le (u32 (length samples * 2)) ++ write_samples samples)

abbrev fmt_chunk : ℕ → List ℕ → List ℕ
fmt_chunk sample_rate rest =
    tag_fmt
    ++ (write_u32le 16
        ++ (write_u16le 1
            ++ (write_u16le 1
                ++ (write_u32le sample_rate
                    ++ (write_u32le (u32 (sample_rate * 2))
                        ++ (write_u16le 2 ++ (write_u16le 16 ++ rest)))))))

abbrev after_fmt : ℕ → List ℕ → Reader
after_fmt sample_rate rest = record {
  rest = rest;
  have_fmt = true;
  have_data = false;
  result = record {
    sample_rate = sample_rate;
    num_channels = 1;
    bits_per_sample = 16;
    samples = [];
  };
}

abbrev pub finished_with : ℕ → List ℤ → WavData
finished_with sample_rate samples = record {
  sample_rate = sample_rate;
  num_channels = 1;
  bits_per_sample = 16;
  samples = samples;
}

all_dropped : (xs : List ℕ) (n : ℕ) → length xs ≤ n → drop n xs ≡ []
all_dropped [] zero h = refl
all_dropped [] (suc n) h = refl
all_dropped (x ∷ xs) zero h = absurd (omega arith)
all_dropped (x ∷ xs) (suc n) h = all_dropped xs n (omega arith)

module _ (fseek : ℕ → Bool) where
  read_fmt :
      (sample_rate : ℕ) (rest : List ℕ)
      → sample_rate < 2 ^ 32
      → read_chunk fseek (reader_at fseek (fmt_chunk sample_rate rest))
        ≡ ReadResult.ok (after_fmt sample_rate rest)
  unfolding read_chunk has_tag write_u32le write_u16le
  read_fmt sample_rate rest small =
      let n = sample_rate in
      let m = u32 (sample_rate * 2) in
      let after = u8 m ∷ u8 (m >>> 8) ∷ u8 (m >>> 16) ∷ u8 (m >>> 24) ∷ 2 ∷ 0 ∷ 16 ∷ 0 ∷ rest in
      let back : read_u32le (u8 n ∷ u8 (n >>> 8) ∷ u8 (n >>> 16) ∷ u8 (n >>> 24) ∷ after) ≡ n =
        read_u32le-write_u32le n after small in
      let fields = u8 n ∷ u8 (n >>> 8) ∷ u8 (n >>> 16) ∷ u8 (n >>> 24) ∷ after in
      let size : read_u32le (16 ∷ 0 ∷ 0 ∷ 0 ∷ 1 ∷ 0 ∷ 1 ∷ 0 ∷ fields) ≡ 16 =
        read_u32le-write_u32le 16 (1 ∷ 0 ∷ 1 ∷ 0 ∷ fields) (omega arith) in
      let format : read_u16le (1 ∷ 0 ∷ 1 ∷ 0 ∷ fields) ≡ 1 =
        read_u16le-write_u16le 1 (1 ∷ 0 ∷ fields) (omega arith) in
      let mono : read_u16le (1 ∷ 0 ∷ fields) ≡ 1 = read_u16le-write_u16le 1 fields (omega arith) in
      let bits : read_u16le (16 ∷ 0 ∷ rest) ≡ 16 = read_u16le-write_u16le 16 rest (omega arith) in
      ground (arith, back, size, format, mono, bits)

  read_data :
      (sample_rate : ℕ) (samples : List ℤ)
      → All IsI16 samples
      → length samples * 2 < 2 ^ 32
      → read_chunk fseek (after_fmt sample_rate (data_chunk samples))
        ≡ ReadResult.ok (record {
          rest = [];
          have_fmt = true;
          have_data = true;
          result = finished_with sample_rate samples;
        })
  unfolding read_chunk has_tag write_u32le
  read_data sample_rate samples h small =
      let n = u32 (length samples * 2) in
      let size : read_u32le
            (u8 n ∷ u8 (n >>> 8) ∷ u8 (n >>> 16) ∷ u8 (n >>> 24) ∷ write_samples samples)
          ≡ length samples * 2 =
        read_u32le-write_u32le n (write_samples samples) (omega arith) ∙ omega arith in
      let half : length samples * 2 / 2 ≡ length samples = omega arith in
      let enough : ltb (length (write_samples samples)) (length samples * 2) ≡ false =
        ground (arith, length-write_samples samples) in
      rw (
        size,
        enough,
        half,
        read_samples-write_samples samples h,
        all_dropped (write_samples samples) (length samples * 2)
            (omega (arith, length-write_samples samples)),
      )

  next_chunk :
      (fuel : ℕ) (r s : Reader)
      → r.have_data ≡ false
      → 8 ≤ length r.rest
      → read_chunk fseek r ≡ ReadResult.ok s
      → read_chunks fseek (suc fuel) r ≡ read_chunks fseek fuel s
  unfolding read_chunks
  next_chunk fuel r s more long e =
      let l : ltb (length r.rest) 8 ≡ false = ground arith in simp (more, l, e)

  last_chunk :
      (fuel : ℕ) (r : Reader)
      → r.have_data ≡ true
      → read_chunks fseek (suc fuel) r ≡ ReadResult.ok r
  unfolding read_chunks
  last_chunk fuel r e = simp e

  two_chunks :
      (fuel : ℕ) (r s t : Reader)
      → 3 ≤ fuel
      → r.have_data ≡ false
      → s.have_data ≡ false
      → t.have_data ≡ true
      → 8 ≤ length r.rest
      → 8 ≤ length s.rest
      → read_chunk fseek r ≡ ReadResult.ok s
      → read_chunk fseek s ≡ ReadResult.ok t
      → read_chunks fseek fuel r ≡ ReadResult.ok t
  two_chunks (suc (suc (suc fuel))) r s t enough a b c long longer first second =
      next_chunk (suc (suc fuel)) r s a long first
      ∙ next_chunk (suc fuel) s t b longer second
      ∙ last_chunk fuel t c
  two_chunks fuel r s t enough a b c long longer first second = absurd (omega arith)

  -- A file that was written, of fewer than 2^31 samples of 16 bits, is read back: its sample rate,
  -- one channel, 16 bits a sample, and the samples.
  pub read-write :
      (sample_rate : ℕ) (samples : List ℤ)
      → sample_rate < 2 ^ 32
      → All IsI16 samples
      → length samples < 2 ^ 31
      → read fseek (write sample_rate samples) ≡ ReadResult.ok (finished_with sample_rate samples)
  unfolding read write has_tag check_format write_u32le write_u16le
  read-write sample_rate samples small h few =
      let rest = data_chunk samples in
      let loop =
        two_chunks (length (write sample_rate samples))
          (reader_at fseek (fmt_chunk sample_rate rest)) (after_fmt sample_rate rest)
          (record {
            rest = [];
            have_fmt = true;
            have_data = true;
            result = finished_with sample_rate samples;
          })
          (omega arith) refl refl refl (omega arith) (omega arith) (read_fmt sample_rate rest small)
          (read_data sample_rate samples h (omega arith)) in
      let long : ltb (length (write sample_rate samples)) 12 ≡ false = ground arith in
      rw (loop, long)

-- ===== src/Wav.antt =====
-- src/wav.cpp and include/rtp/wav.hpp: WAV files as lists of bytes. Opening a file is not modelled.
pub mod Bytes
pub mod RoundTrip
pub mod Reading
mod Tests
use rtp_audio_streamer.Base.{
  ℕ, zero, suc, ◌+◌, ◌*◌, ◌/◌, ◌%◌, Bool, true, false, not, ◌&&◌, ◌||◌, List, [], ◌∷◌, ◌++◌, length,
  get_or, take, drop, bit_or, u8, u16, u32, ◌<<<◌, ◌>>>◌, ltb, ◌==◌, if◌then◌else◌,
}
use rtp_audio_streamer.Base.Int.{ℤ, i16, u16_of}
use rtp_audio_streamer.AudioFormat.{channels, bits_per_sample}

unfoldable pub write_u32le : ℕ → List ℕ
write_u32le v = u8 v ∷ u8 (v >>> 8) ∷ u8 (v >>> 16) ∷ u8 (v >>> 24) ∷ []

unfoldable pub write_u16le : ℕ → List ℕ
write_u16le v = u8 v ∷ u8 (v >>> 8) ∷ []

-- The argument is the bytes from the pointer on.
unfoldable pub read_u32le : List ℕ → ℕ
read_u32le p =
    bit_or (bit_or (bit_or (get_or p 0 0) (get_or p 1 0 <<< 8)) (get_or p 2 0 <<< 16))
      (get_or p 3 0 <<< 24)

unfoldable pub read_u16le : List ℕ → ℕ
read_u16le p = u16 (bit_or (get_or p 0 0) (get_or p 1 0 <<< 8))

abbrev pub tag_riff : List ℕ
tag_riff = 0x52 ∷ 0x49 ∷ 0x46 ∷ 0x46 ∷ []

abbrev pub tag_wave : List ℕ
tag_wave = 0x57 ∷ 0x41 ∷ 0x56 ∷ 0x45 ∷ []

abbrev pub tag_fmt : List ℕ
tag_fmt = 0x66 ∷ 0x6d ∷ 0x74 ∷ 0x20 ∷ []

abbrev pub tag_data : List ℕ
tag_data = 0x64 ∷ 0x61 ∷ 0x74 ∷ 0x61 ∷ []

unfoldable pub write_samples : List ℤ → List ℕ
write_samples [] = []
write_samples (s ∷ ss) = write_u16le (u16_of s) ++ write_samples ss

-- The bytes of the file after `write`.
unfoldable pub write : ℕ → List ℤ → List ℕ
write sample_rate samples =
    let block_align = u16 (channels * bits_per_sample / 8) in
    let byte_rate = u32 (sample_rate * block_align) in
    let data_bytes = u32 (length samples * 2) in
    tag_riff
    ++ (write_u32le (u32 (36 + data_bytes))
        ++ (tag_wave
            ++ (tag_fmt
                ++ (write_u32le 16
                    ++ (write_u16le 1
                        ++ (write_u16le channels
                            ++ (write_u32le sample_rate
                                ++ (write_u32le byte_rate
                                    ++ (write_u16le block_align
                                        ++ (write_u16le bits_per_sample
                                            ++ (tag_data
                                                ++ (write_u32le data_bytes
                                                    ++ write_samples samples))))))))))))

pub record WavData : Type 0 where
  pub sample_rate : ℕ
  pub num_channels : ℕ
  pub bits_per_sample : ℕ
  pub samples : List ℤ

-- The exceptions of `read`; the last one is the model's, for a loop without fuel.
pub data ReadError : Type 0 where
  not_riff : ReadError
  fmt_too_small : ReadError
  truncated_fmt : ReadError
  not_pcm : ReadError
  data_before_fmt : ReadError
  truncated_data : ReadError
  truncated_skip : ReadError
  missing_chunk : ReadError
  not_mono : ReadError
  not_16_bit : ReadError
  out_of_fuel : ReadError

pub data ReadResult (A : Type 0) : Type 0 where
  ok : A → ReadResult A
  fail : ReadError → ReadResult A

-- `memcmp` of as many bytes as the tag has.
unfoldable pub has_tag : List ℕ → List ℕ → Bool
has_tag [] bytes = true
has_tag (t ∷ tag) [] = false
has_tag (t ∷ tag) (b ∷ bytes) = if t == b then has_tag tag bytes else false

unfoldable pub read_samples : ℕ → List ℕ → List ℤ
read_samples zero raw = []
read_samples (suc n) raw = i16 (read_u16le raw) ∷ read_samples n (drop 2 raw)

-- The variables of the loop over chunks: `rest` is the file from its position on.
pub record Reader : Type 0 where
  pub rest : List ℕ
  pub have_fmt : Bool
  pub have_data : Bool
  pub result : WavData

-- `fseek` says whether a seek forward by so many bytes succeeds.
module _ (fseek : ℕ → Bool) where
  -- One pass of the loop, after its eight bytes of chunk header have been read.
  unfoldable pub read_chunk : Reader → ReadResult Reader
  read_chunk r =
      let chunk_size = read_u32le (drop 4 r.rest) in
      let body = drop 8 r.rest in
      if has_tag tag_fmt r.rest
      then (if ltb chunk_size 16
          then fail fmt_too_small
          else (if ltb (length body) chunk_size
              then fail truncated_fmt
              else (if not (read_u16le body == 1)
                  then fail not_pcm
                  else ok (record r {
                    rest = drop chunk_size body;
                    have_fmt = true;
                    result = record (r.result) {
                      num_channels = read_u16le (drop 2 body);
                      sample_rate = read_u32le (drop 4 body);
                      bits_per_sample = read_u16le (drop 14 body);
                    };
                  }))))
      else (if has_tag tag_data r.rest
          then (if not r.have_fmt
              then fail data_before_fmt
              else (if ltb (length body) chunk_size
                  then fail truncated_data
                  else ok (record r {
                    rest = drop chunk_size body;
                    have_data = true;
                    result = record (r.result) { samples = read_samples (chunk_size / 2) body };
                  })))
          else (let skip = u32 (chunk_size + chunk_size % 2) in
              if fseek skip then ok (record r { rest = drop skip body }) else fail truncated_skip))

  unfoldable pub read_chunks : ℕ → Reader → ReadResult Reader
  read_chunks zero r = fail out_of_fuel
  read_chunks (suc fuel) r =
      if r.have_data
      then ok r
      else (if ltb (length r.rest) 8
          then ok r
          else elim (read_chunk r) [ ok r' ↦ read_chunks fuel r' | fail e ↦ fail e ])

  -- The tests after the loop.
  unfoldable pub check_format : Reader → ReadResult WavData
  check_format r =
      if not r.have_fmt || not r.have_data
      then fail missing_chunk
      else (if not (r.result.num_channels == channels)
          then fail not_mono
          else (if not (r.result.bits_per_sample == bits_per_sample)
              then fail not_16_bit
              else ok r.result))

  abbrev pub reader_at : List ℕ → Reader
  reader_at bytes = record {
    rest = bytes;
    have_fmt = false;
    have_data = false;
    result = record { sample_rate = 0; num_channels = 0; bits_per_sample = 0; samples = [] };
  }

  -- The bytes of the file are the argument.
  unfoldable pub read : List ℕ → ReadResult WavData
  read file =
      if ltb (length file) 12
        || (not (has_tag tag_riff file) || not (has_tag tag_wave (drop 8 file)))
      then fail not_riff
      else elim (read_chunks (length file) (reader_at (drop 12 file))) [
        | ok r ↦ check_format r
        | fail e ↦ fail e
      ]

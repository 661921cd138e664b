-- ===== src/Wav/Bytes.antt =====
-- The little-endian fields and the samples: what is written is read back.
use rtp_audio_streamer.Base.{
  ℕ, zero, suc, ◌+◌, ◌*◌, ◌^◌, ◌<◌, ◌≡◌, refl, ◌∙◌, arith, List, [], ◌∷◌, ◌++◌, length, All, bit_or,
  u8, ◌>>>◌, drop,
}
use rtp_audio_streamer.Base.Bits.{bit_or_fields, bit_or_comm}
use rtp_audio_streamer.Base.Int.{ℤ, IsI16, u16_of, u16_of-lt, i16-u16_of, i16-IsI16}
use rtp_audio_streamer.Wav.{
  write_u32le, write_u16le, read_u32le, read_u16le, write_samples, read_samples,
}

low_or_high :
    (width low high : ℕ) → low < 2 ^ width → bit_or low (high * 2 ^ width) ≡ low + high * 2 ^ width
low_or_high width low high small =
    bit_or_comm low (high * 2 ^ width) ∙ bit_or_fields width high low small ∙ omega arith

pub read_u16le-write_u16le :
    (v : ℕ) (rest : List ℕ) → v < 2 ^ 16 → read_u16le (write_u16le v ++ rest) ≡ v
unfolding read_u16le write_u16le
read_u16le-write_u16le v rest small =
    ground (arith, low_or_high 8 (u8 v) (u8 (v >>> 8)) (omega arith))

pub read_u32le-write_u32le :
    (v : ℕ) (rest : List ℕ) → v < 2 ^ 32 → read_u32le (write_u32le v ++ rest) ≡ v
unfolding read_u32le write_u32le
read_u32le-write_u32le v rest small =
    let one = low_or_high 8 (u8 v) (u8 (v >>> 8)) (omega arith) in
    let two = low_or_high 16 (u8 v + u8 (v >>> 8) * 256) (u8 (v >>> 16)) (omega arith) in
    let three =
      low_or_high 24 (u8 v + u8 (v >>> 8) * 256 + u8 (v >>> 16) * 2 ^ 16) (u8 (v >>> 24))
        (omega arith) in
    rw (one, two, three) (omega arith)

pub length-write_samples : (ss : List ℤ) → length (write_samples ss) ≡ length ss * 2
unfolding write_samples write_u16le
length-write_samples [] = omega arith
length-write_samples (s ∷ ss) = omega (arith, length-write_samples ss)

drop-write_u16le : (v : ℕ) (rest : List ℕ) → drop 2 (write_u16le v ++ rest) ≡ rest
unfolding write_u16le
drop-write_u16le v rest = refl

pub read_samples-write_samples :
    (ss : List ℤ) → All IsI16 ss → read_samples (length ss) (write_samples ss) ≡ ss
unfolding read_samples write_samples
read_samples-write_samples [] h = refl
read_samples-write_samples (s ∷ ss) h = rw (
  read_u16le-write_u16le (u16_of s) (write_samples ss) (u16_of-lt s),
  i16-u16_of s h.0,
  drop-write_u16le (u16_of s) (write_samples ss),
  read_samples-write_samples ss h.1,
)

pub read_samples-IsI16 : (n : ℕ) (raw : List ℕ) → All IsI16 (read_samples n raw)
unfolding read_samples
read_samples-IsI16 zero raw = tt
read_samples-IsI16 (suc n) raw = (i16-IsI16 (read_u16le raw), read_samples-IsI16 n (drop 2 raw))

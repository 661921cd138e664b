-- ===== src/Codec/Ulaw/Laws.antt =====
-- What a sample becomes: the code as arithmetic on sign, segment and step, and the value that it
-- stands for.
use Prim.Native.Nat.{bit_xor}
use rtp_audio_streamer.Base.{
  ℕ, zero, suc, ◌+◌, ◌-◌, ◌*◌, ◌/◌, ◌%◌, ◌^◌, ◌≤◌, ◌<◌, ◌≡◌, arith, bit_and, bit_or, min, u8, ◌<<<◌,
  ◌>>>◌, ◌==◌, if◌then◌else◌, ◌∙◌,
}
use rtp_audio_streamer.Base.Int.{pos, negsuc, neg}
use rtp_audio_streamer.Base.Bits.{bit_and_mask, bit_or_fields, top_bit, complement_byte}
use rtp_audio_streamer.Codec.Ulaw.{ulaw_clip, find_exponent, linear_to_ulaw, ulaw_to_linear}
use rtp_audio_streamer.Codec.Ulaw.Segment.{find_exponent_bounds}

-- The value that a step of a segment stands for, with the bias taken off.
abbrev pub level : ℕ → ℕ → ℕ
level exponent mantissa = (mantissa * 8 + 132) * 2 ^ exponent - 132

decode_code :
    (u : ℕ)
    → u < 256
    → ulaw_to_linear (255 - u) ≡ (
        if u / 128 == 0
        then pos (level (u / 16 % 8) (u % 16))
        else neg (pos (level (u / 16 % 8) (u % 16))))
unfolding ulaw_to_linear
decode_code u h =
    rw
      (
        complement_byte (255 - u) (omega arith),
        sub_twice,
        bit_and_mask 3 (u / 16),
        bit_and_mask 4 u,
        top_bit u h,
      )
      (ground arith)
  where
    sub_twice : 255 - (255 - u) ≡ u
    sub_twice = omega arith

decode_fields :
    (sign e k : ℕ)
    → sign < 2
    → e < 8
    → k < 16
    → ulaw_to_linear (255 - (sign * 128 + e * 16 + k))
      ≡ (if sign == 0 then pos (level e k) else neg (pos (level e k)))
decode_fields sign e k hs he hk =
    let u = sign * 128 + e * 16 + k in
    let s : u / 128 ≡ sign = omega arith in
    let x : u / 16 % 8 ≡ e = omega arith in
    let y : u % 16 ≡ k = omega arith in decode_code u (omega arith) ∙ rw (s, x, y)

-- The code of a biased magnitude under a sign bit.
abbrev pub code_of : ℕ → ℕ → ℕ
code_of sign m =
    bit_xor
      (u8 (
        bit_or (bit_or (sign * 128) (find_exponent m 0x4000 7 <<< 4))
          (u8 (bit_and (m >>> (find_exponent m 0x4000 7 + 3)) 0x0f))))
      0xff

pack_code :
    (sign e k : ℕ)
    → sign < 2
    → e < 8
    → k < 16
    → bit_xor (u8 (bit_or (bit_or (sign * 128) (e <<< 4)) k)) 0xff ≡ 255 - (sign * 128 + e * 16 + k)
pack_code sign e k hs he hk =
    rw (bit_or_fields 7 sign (e * 16) (omega arith), regroup, bit_or_fields 4 (sign * 8 + e) k hk)
      (complement_byte _ (omega arith) ∙ omega arith)
  where
    regroup : sign * 128 + e * 16 ≡ (sign * 8 + e) * 16
    regroup = omega arith

module _ (m : ℕ) (lo : 128 ≤ m) (hi : m < 2 ^ 15) where
  abbrev pub exponent : ℕ
  exponent = find_exponent m 0x4000 7

  abbrev pub mantissa : ℕ
  mantissa = m / 2 ^ (exponent + 3) % 16

  pub code_of_lem :
      (sign : ℕ) → sign < 2 → code_of sign m ≡ 255 - (sign * 128 + exponent * 16 + mantissa)
  code_of_lem sign h = ground (
    arith,
    find_exponent_bounds m lo hi,
    bit_and_mask 4 (m / 2 ^ (exponent + 3)),
    pack_code sign exponent mantissa,
  )

  pub decode_code_of :
      (sign : ℕ)
      → sign < 2
      → ulaw_to_linear (code_of sign m)
        ≡ (if sign == 0 then pos (level exponent mantissa) else neg (pos (level exponent mantissa)))
  decode_code_of sign h =
      rw (code_of_lem sign h)
        (decode_fields sign exponent mantissa h (find_exponent_bounds m lo hi).0 (omega arith))

-- The middle of a step is at most a 32nd of the magnitude away, in each segment.
pub level_error :
    (e m : ℕ)
    → e < 8
    → 2 ^ (e + 7) ≤ m
    → m < 2 ^ (e + 8)
    → (32 * m ≤ 32 * (level e (m / 2 ^ (e + 3) % 16) + 132) + m)
      × (32 * (level e (m / 2 ^ (e + 3) % 16) + 132) ≤ 32 * m + m)
      × (132 ≤ level e (m / 2 ^ (e + 3) % 16) + 132)
level_error zero m h lo hi = omega arith
level_error (suc zero) m h lo hi = omega arith
level_error (suc (suc zero)) m h lo hi = omega arith
level_error (suc (suc (suc zero))) m h lo hi = omega arith
level_error (suc (suc (suc (suc zero)))) m h lo hi = omega arith
level_error (suc (suc (suc (suc (suc zero))))) m h lo hi = omega arith
level_error (suc (suc (suc (suc (suc (suc zero)))))) m h lo hi = omega arith
level_error (suc (suc (suc (suc (suc (suc (suc zero))))))) m h lo hi = omega arith
level_error (suc (suc (suc (suc (suc (suc (suc (suc e)))))))) m h lo hi = absurd (omega arith)

pub encode_pos : (n : ℕ) → linear_to_ulaw (pos n) ≡ code_of 0 (min n ulaw_clip + 132)
unfolding linear_to_ulaw
encode_pos n = ground arith

pub encode_negsuc : (n : ℕ) → linear_to_ulaw (negsuc n) ≡ code_of 1 (min (suc n) ulaw_clip + 132)
unfolding linear_to_ulaw
encode_negsuc n = ground arith

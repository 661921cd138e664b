-- ===== src/Packet/Wire.antt =====
-- The layout of RFC 3550 section 5.1 as arithmetic, and what `serialize` writes.
use native.Mathlib.Decide.{dec_le}
use rtp_audio_streamer.Base.{
  ℕ, ◌+◌, ◌/◌, ◌%◌, ◌^◌, ◌≤◌, ◌<◌, ◌≡◌, refl, arith, Bool, true, false, List, [], ◌∷◌, ◌⊎◌, ◌++◌,
  bit_and, bit_or, u8, length, set, take, drop, if◌then◌else◌, inl, inr,
}
use rtp_audio_streamer.Base.Bits.{agree_below, agree_below→eq}
use rtp_audio_streamer.Host.{Host}
use rtp_audio_streamer.Packet.{RtpHeader, blit, write_u16, write_u32, serialize}
use rtp_audio_streamer.Packet.Blit.{set-eq-blit, blit-append, take-blit, drop-blit}

abbrev pub big_16 : ℕ → List ℕ
big_16 v = v / 256 ∷ v % 256 ∷ []

abbrev pub big_32 : ℕ → List ℕ
big_32 v = v / 2 ^ 24 ∷ v / 2 ^ 16 % 256 ∷ v / 256 % 256 ∷ v % 256 ∷ []

-- Byte 0 is version 2 with no padding, extension or sources; byte 1 the marker and the type.
abbrev pub header_wire : RtpHeader → List ℕ
header_wire h =
    0x80
    ∷ (((if h.marker then 128 else 0) + h.payload_type)
        ∷ (big_16 h.sequence_number ++ (big_32 h.timestamp ++ big_32 h.ssrc)))

abbrev pub wire : RtpHeader → List ℕ → List ℕ
wire h payload = header_wire h ++ payload

-- Every field in its range on the wire.
pub record IsHeader (h : RtpHeader) : Type 0 where
  pub type_fits : h.payload_type < 128
  pub sequence_fits : h.sequence_number < 2 ^ 16
  pub timestamp_fits : h.timestamp < 2 ^ 32
  pub ssrc_fits : h.ssrc < 2 ^ 32

abbrev second_byte : Bool → ℕ → ℕ
second_byte m t = u8 (bit_or (if m then 0x80 else 0x00) (bit_and t 0x7f))

second_byte_marked : (t : ℕ) → t < 128 → second_byte true t ≡ 128 + t
unfolding agree_below
second_byte_marked = agree_below→eq _ _ 128 refl

second_byte_plain : (t : ℕ) → t < 128 → second_byte false t ≡ 0 + t
unfolding agree_below
second_byte_plain = agree_below→eq _ _ 128 refl

second_byte_lem : (m : Bool) (t : ℕ) → t < 128 → second_byte m t ≡ (if m then 128 else 0) + t
second_byte_lem true t h = second_byte_marked t h
second_byte_lem false t h = second_byte_plain t h

module _ (host : Host) where
  write_u16-eq-blit :
      (p : List ℕ) (at v : ℕ) → v < 2 ^ 16 → write_u16 host p at v ≡ blit p at (big_16 v)
  unfolding write_u16
  write_u16-eq-blit p at v h = rw (host.htons_network v h)

  write_u32-eq-blit :
      (p : List ℕ) (at v : ℕ) → v < 2 ^ 32 → write_u32 host p at v ≡ blit p at (big_32 v)
  unfolding write_u32
  write_u32-eq-blit p at v h = rw (host.htonl_network v h)

  -- The six writes of `serialize` are one copy of the wire format.
  writes-eq-blit :
      (h : RtpHeader) (payload out : List ℕ)
      → IsHeader h
      → blit
          (write_u32 host
            (write_u32 host
              (write_u16 host
                (set (set out 0 0x80) 1 (second_byte h.marker h.payload_type))
                2
                h.sequence_number)
              4
              h.timestamp)
            8
            h.ssrc)
          12
          payload
        ≡ blit out 0 (wire h payload)
  writes-eq-blit h payload out v =
      let b1 = (if h.marker then 128 else 0) + h.payload_type in
      rw (
        second_byte_lem h.marker h.payload_type v.type_fits,
        set-eq-blit out 0 0x80,
        set-eq-blit _ 1 b1,
        blit-append out (0x80 ∷ []) (b1 ∷ []),
        write_u16-eq-blit _ 2 h.sequence_number v.sequence_fits,
        blit-append out (0x80 ∷ b1 ∷ []) (big_16 h.sequence_number),
        write_u32-eq-blit _ 4 h.timestamp v.timestamp_fits,
        blit-append out (0x80 ∷ b1 ∷ big_16 h.sequence_number) (big_32 h.timestamp),
        write_u32-eq-blit _ 8 h.ssrc v.ssrc_fits,
        blit-append out (0x80 ∷ b1 ∷ (big_16 h.sequence_number ++ big_32 h.timestamp))
            (big_32 h.ssrc),
        blit-append out (header_wire h) payload,
      )

  pub serialize_fits :
      (h : RtpHeader) (payload out : List ℕ)
      → IsHeader h
      → 12 + length payload < 2 ^ 64
      → 12 + length payload ≤ length out
      → serialize host h payload out ≡ (12 + length payload, blit out 0 (wire h payload))
  unfolding serialize
  serialize_fits h payload out v small fits = ground (arith, writes-eq-blit h payload out v)

  pub serialize_too_small :
      (h : RtpHeader) (payload out : List ℕ)
      → 12 + length payload < 2 ^ 64
      → length out < 12 + length payload
      → serialize host h payload out ≡ (0, out)
  unfolding serialize
  serialize_too_small h payload out small short = ground arith

  -- Either the buffer is large enough: the total is returned, the buffer starts with the RFC 3550
  -- bytes of the header and then the payload, and the rest of the buffer is as it was. Or it is too
  -- small: 0 is returned and nothing is written.
  pub serialize-wire :
      (h : RtpHeader) (payload out : List ℕ)
      → IsHeader h
      → 12 + length payload < 2 ^ 64
      → let (total, out') = serialize host h payload out in
        ((12 + length payload ≤ length out)
          × (total ≡ 12 + length payload)
          × (take total out' ≡ wire h payload)
          × (drop total out' ≡ drop total out))
        ⊎ ((length out < 12 + length payload) × (total ≡ 0) × (out' ≡ out))
  serialize-wire h payload out v small = elim (dec_le (12 + length payload) (length out)) [
    | yes fits ↦ rw (serialize_fits h payload out v small fits) (
        inl (
          fits,
          refl,
          take-blit out (wire h payload) _ (omega arith) fits,
          drop-blit out (wire h payload) _ (omega arith) fits,
        ))
    | no short ↦
        rw (serialize_too_small h payload out small (omega arith)) (inr (omega arith, refl, refl))
  ]

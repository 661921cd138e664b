-- ===== src/Packet/Parse.antt =====
-- `parse` accepts exactly the datagrams that have the wire format, and reads back what was sent.
use mathlib.Core.Path.{subst}
use rtp_audio_streamer.Base.{
  ℕ, ◌+◌, ◌*◌, ◌/◌, ◌%◌, ◌^◌, ◌≤◌, ◌<◌, ◌≡◌, ◌∙◌, arith, Bool, List, ◌∷◌, ◌⊎◌, inl, inr, ◌↔◌, ◌&&◌,
  ◌||◌, none, some, length, take, All, if◌then◌else◌, ◌==◌,
}
use rtp_audio_streamer.Base.Bits.{bit_and_mask, top_bit}
use rtp_audio_streamer.Host.{Host, IsByte}
use rtp_audio_streamer.Packet.{
  RtpHeader, ParsedPacket, payload_type_pcmu, payload_type_adpcm, payload_type_pcm, read_u16,
  read_u32, serialize, parse,
}
use rtp_audio_streamer.Packet.Wire.{IsHeader, wire, serialize-wire}

abbrev pub IsKnownType : ℕ → Type 0
IsKnownType t = (t ≡ payload_type_pcmu) ⊎ ((t ≡ payload_type_adpcm) ⊎ (t ≡ payload_type_pcm))

abbrev known : ℕ → Bool
known t = t == payload_type_pcmu || (t == payload_type_adpcm || t == payload_type_pcm)

module _ (host : Host) where
  -- The first twelve bytes of a datagram that is long enough.
  module _ (b0 b1 b2 b3 b4 b5 b6 b7 b8 b9 b10 b11 : ℕ) (rest : List ℕ) where
    abbrev datagram : List ℕ
    datagram = b0 ∷ b1 ∷ b2 ∷ b3 ∷ b4 ∷ b5 ∷ b6 ∷ b7 ∷ b8 ∷ b9 ∷ b10 ∷ b11 ∷ rest

    abbrev fields : ParsedPacket
    fields = record {
      header = record {
        marker = b1 / 128 == 1;
        payload_type = b1 % 128;
        sequence_number = b2 * 256 + b3;
        timestamp = b4 * 2 ^ 24 + b5 * 2 ^ 16 + b6 * 256 + b7;
        ssrc = b8 * 2 ^ 24 + b9 * 2 ^ 16 + b10 * 256 + b11;
      };
      payload = rest;
    }

    parse_bytes :
        All IsByte datagram
        → parse host datagram ≡ (if b0 == 128 && known (b1 % 128) then some fields else none)
    unfolding parse read_u16 read_u32
    parse_bytes v = ground (
      arith,
      bit_and_mask 6 b0,
      bit_and_mask 7 b1,
      top_bit b1 v.1.0,
      host.ntohs_network b2 b3 v.1.1.0 v.1.1.1.0,
      host.ntohl_network b4 b5 b6 b7 (v.1.1.1.1.0) (v.1.1.1.1.1.0) (v.1.1.1.1.1.1.0)
          (v.1.1.1.1.1.1.1.0),
      host.ntohl_network b8 b9 b10 b11 (v.1.1.1.1.1.1.1.1.0) (v.1.1.1.1.1.1.1.1.1.0)
          (v.1.1.1.1.1.1.1.1.1.1.0) (v.1.1.1.1.1.1.1.1.1.1.1.0),
    )

  wire-IsByte :
      (h : RtpHeader) (payload : List ℕ)
      → IsHeader h
      → All IsByte payload
      → All IsByte (wire h payload)
  wire-IsByte h payload v bytes = (
    omega arith,
    (
      ground arith,
      (
        omega arith,
        (
          omega arith,
          (
            omega arith,
            (
              omega arith,
              (
                omega arith,
                (omega arith, (omega arith, (omega arith, (omega arith, (omega arith, bytes))))),
              ),
            ),
          ),
        ),
      ),
    ),
  )

  -- What was laid out as RFC 3550 says is read back, header and payload.
  pub parse-wire :
      (h : RtpHeader) (payload : List ℕ)
      → IsHeader h
      → IsKnownType h.payload_type
      → All IsByte payload
      → parse host (wire h payload) ≡ some (record { header = h; payload = payload })
  parse-wire h payload v k bytes =
      let q = h.sequence_number in
      let t = h.timestamp in
      let r = h.ssrc in
      parse_bytes 0x80 ((if h.marker then 128 else 0) + h.payload_type) (q / 256) (q % 256)
        (t / 2 ^ 24) (t / 2 ^ 16 % 256) (t / 256 % 256) (t % 256) (r / 2 ^ 24) (r / 2 ^ 16 % 256)
        (r / 256 % 256) (r % 256) payload (wire-IsByte h payload v bytes)
      ∙ ground arith

  too_short : (d : List ℕ) → length d < 12 → parse host d ≡ none
  unfolding parse
  too_short d short = ground arith

  payload-IsByte :
      (h : RtpHeader) (payload : List ℕ) → All IsByte (wire h payload) → All IsByte payload
  payload-IsByte h payload b = b.1.1.1.1.1.1.1.1.1.1.1.1

  parse_sound :
      (d : List ℕ) (p : ParsedPacket)
      → All IsByte d
      → parse host d ≡ some p
      → IsHeader p.header × IsKnownType p.header.payload_type × (d ≡ wire p.header p.payload)
  parse_sound (b0 ∷ b1 ∷ b2 ∷ b3 ∷ b4 ∷ b5 ∷ b6 ∷ b7 ∷ b8 ∷ b9 ∷ b10 ∷ b11 ∷ rest) p bytes e =
      ground (arith, parse_bytes b0 b1 b2 b3 b4 b5 b6 b7 b8 b9 b10 b11 rest bytes)
  parse_sound d p bytes e = absurd (cc (too_short d (omega arith)))

  -- A datagram of bytes is accepted, as a given header and payload, exactly when it is the RFC 3550
  -- layout of that header and payload, every field fits, and the payload type is one of the three
  -- that the pipeline understands.
  pub parse_iff :
      (d : List ℕ) (p : ParsedPacket)
      → All IsByte d
      → (parse host d ≡ some p)
        ↔ (IsHeader p.header × IsKnownType p.header.payload_type × (d ≡ wire p.header p.payload))
  parse_iff d p bytes = (
    parse_sound d p bytes,
    λ (v, k, e). rw e (
        parse-wire p.header p.payload v k
          (payload-IsByte p.header p.payload (subst (All IsByte) e bytes))),
  )

-- A packet that fits its buffer is read back from the bytes that were sent, header and payload,
-- also where the byte orders of the sending and of the receiving host differ.
pub parse-serialize :
    (sender receiver : Host) (h : RtpHeader) (payload out : List ℕ)
    → IsHeader h
    → IsKnownType h.payload_type
    → All IsByte payload
    → 12 + length payload < 2 ^ 64
    → 12 + length payload ≤ length out
    → let (n, out') = serialize sender h payload out in
      parse receiver (take n out') ≡ some (record { header = h; payload = payload })
parse-serialize sender receiver h payload out v k bytes small fits =
    elim (serialize-wire sender h payload out v small) [
      | inl (_, _, written, _) ↦ rw written (parse-wire receiver h payload v k bytes)
      | inr (short, _, _) ↦ absurd (omega arith)
    ]

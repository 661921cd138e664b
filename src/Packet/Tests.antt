-- ===== src/Packet/Tests.antt =====
-- A marked mu-law packet of three bytes, sent by a little-endian host to a big-endian one.
use rtp_audio_streamer.Base.{
  ℕ, ◌+◌, ◌≤◌, ◌<◌, ◌≡◌, refl, arith, true, ◌⊎◌, inl, ◌↔◌, some, List, [], ◌∷◌, All, length, take,
  drop, replicate,
}
use rtp_audio_streamer.Host.{IsByte, little_endian, big_endian}
use rtp_audio_streamer.Fixtures.{all_bytes-IsByte}
use rtp_audio_streamer.Packet.{RtpHeader, ParsedPacket, serialize, parse}
use rtp_audio_streamer.Packet.Wire.{IsHeader, wire, serialize-wire}
use rtp_audio_streamer.Packet.Parse.{IsKnownType, parse_iff, parse-serialize}

abbrev header : RtpHeader
header = record {
  marker = true;
  payload_type = 0;
  sequence_number = 65535;
  timestamp = 305419896;
  ssrc = 42;
}

header-IsHeader : IsHeader header
header-IsHeader = record {
  type_fits = omega arith;
  sequence_fits = omega arith;
  timestamp_fits = omega arith;
  ssrc_fits = omega arith;
}

abbrev payload : List ℕ
payload = 1 ∷ 2 ∷ 255 ∷ []

payload-IsByte : All IsByte payload
payload-IsByte = (omega arith, (omega arith, (omega arith, tt)))

abbrev buffer : List ℕ
buffer = replicate 20 0

serialize-wire_example :
    let (total, out') = serialize little_endian header payload buffer in
    ((12 + length payload ≤ length buffer)
      × (total ≡ 12 + length payload)
      × (take total out' ≡ wire header payload)
      × (drop total out' ≡ drop total buffer))
    ⊎ ((length buffer < 12 + length payload) × (total ≡ 0) × (out' ≡ buffer))
serialize-wire_example =
    serialize-wire little_endian header payload buffer header-IsHeader (omega arith)

parse-serialize_example :
    let (n, out') = serialize little_endian header payload buffer in
    parse big_endian (take n out') ≡ some (record { header = header; payload = payload })
parse-serialize_example =
    parse-serialize little_endian big_endian header payload buffer header-IsHeader (inl refl)
      payload-IsByte (omega arith) (omega arith)

abbrev packet : ParsedPacket
packet = record { header = header; payload = payload }

datagram-IsByte : All IsByte (wire header payload)
datagram-IsByte = all_bytes-IsByte (wire header payload) refl

parse_iff_example : (parse little_endian (wire header payload) ≡ some packet) ↔ (
    IsHeader packet.header
    × IsKnownType packet.header.payload_type
    × (wire header payload ≡ wire packet.header packet.payload))
parse_iff_example = parse_iff little_endian (wire header payload) packet datagram-IsByte

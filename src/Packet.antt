-- ===== src/Packet.antt =====
-- src/rtp_packet.cpp and include/rtp/rtp_packet.hpp: the RTP header on the wire.
pub mod Blit
pub mod Wire
pub mod Parse
mod Tests
use rtp_audio_streamer.Base.{
  ℕ, ◌+◌, Bool, not, ◌&&◌, ◌||◌, Option, none, some, List, [], ◌∷◌, bit_and, bit_or, u8, u64, ◌<<<◌,
  ◌>>>◌, ltb, ◌==◌, if◌then◌else◌, length, get_or, set, drop,
}
use rtp_audio_streamer.Host.{Host}

abbrev pub header_bytes : ℕ
header_bytes = 12

abbrev pub version : ℕ
version = 2

abbrev pub payload_type_pcmu : ℕ
payload_type_pcmu = 0

abbrev pub payload_type_adpcm : ℕ
payload_type_adpcm = 96

abbrev pub payload_type_pcm : ℕ
payload_type_pcm = 97

pub record RtpHeader : Type 0 where
  pub marker : Bool
  pub payload_type : ℕ
  pub sequence_number : ℕ
  pub timestamp : ℕ
  pub ssrc : ℕ

-- The payload is the bytes from `payload` on, `payload_len` of them.
pub record ParsedPacket : Type 0 where
  pub header : RtpHeader
  pub payload : List ℕ

-- A copy of bytes into a buffer, from an index on. What would fall outside is not written.
unfoldable pub blit : List ℕ → ℕ → List ℕ → List ℕ
blit [] i bs = []
blit (x ∷ xs) i [] = x ∷ xs
blit (x ∷ xs) ℕ.zero (b ∷ bs) = b ∷ blit xs 0 bs
blit (x ∷ xs) (ℕ.suc i) (b ∷ bs) = x ∷ blit xs i (b ∷ bs)

module _ (host : Host) where
  open host use {bytes_16, value_16, bytes_32, value_32, htons, ntohs, htonl, ntohl}

  unfoldable pub write_u16 : List ℕ → ℕ → ℕ → List ℕ
  write_u16 p at host_value = let (a, b) = bytes_16 (htons host_value) in blit p at (a ∷ b ∷ [])

  unfoldable pub write_u32 : List ℕ → ℕ → ℕ → List ℕ
  write_u32 p at host_value =
      let (a, b, c, d) = bytes_32 (htonl host_value) in blit p at (a ∷ b ∷ c ∷ d ∷ [])

  unfoldable pub read_u16 : List ℕ → ℕ → ℕ
  read_u16 p at = ntohs (value_16 (get_or p at 0) (get_or p (at + 1) 0))

  unfoldable pub read_u32 : List ℕ → ℕ → ℕ
  read_u32 p at =
      ntohl
        (value_32 (get_or p at 0) (get_or p (at + 1) 0) (get_or p (at + 2) 0) (get_or p (at + 3) 0))

  -- The total that is returned, and `out_buffer` after the call.
  unfoldable pub serialize : RtpHeader → List ℕ → List ℕ → ℕ × List ℕ
  serialize header payload out_buffer =
      let total = u64 (header_bytes + length payload) in
      if ltb (length out_buffer) total
      then (0, out_buffer)
      else (let out = set out_buffer 0 (u8 (version <<< 6)) in
          let out = set out 1 (
            u8
              (bit_or (if header.marker then 0x80 else 0x00) (bit_and header.payload_type 0x7f))) in
          let out = write_u16 out 2 header.sequence_number in
          let out = write_u32 out 4 header.timestamp in
          let out = write_u32 out 8 header.ssrc in (total, blit out header_bytes payload))

  unfoldable pub parse : List ℕ → Option ParsedPacket
  parse data' =
      if ltb (length data') header_bytes
      then none
      else (let version' = u8 (get_or data' 0 0 >>> 6) in
          let padding_ext_cc = u8 (bit_and (get_or data' 0 0) 0x3f) in
          let payload_type = u8 (bit_and (get_or data' 1 0) 0x7f) in
          if not (version' == version) || not (padding_ext_cc == 0)
          then none
          else (if not (payload_type == payload_type_pcmu)
                && (not (payload_type == payload_type_adpcm)
                    && not (payload_type == payload_type_pcm))
              then none
              else some (record {
                header = record {
                  marker = not (bit_and (get_or data' 1 0) 0x80 == 0);
                  payload_type = payload_type;
                  sequence_number = read_u16 data' 2;
                  timestamp = read_u32 data' 4;
                  ssrc = read_u32 data' 8;
                };
                payload = drop header_bytes data';
              })))

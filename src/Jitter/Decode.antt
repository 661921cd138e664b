-- ===== src/Jitter/Decode.antt =====
-- `decode_slot` and `conceal` of src/jitter_buffer.cpp: one frame of samples.
use rtp_audio_streamer.Base.{
  Bool, ℕ, zero, suc, ◌+◌, ◌-◌, ◌*◌, ◌/◌, ◌&&◌, ◌||◌, not, List, [], ◌∷◌, ◌++◌, map, min, leb, ◌==◌,
  if◌then◌else◌, length, get_or, take, drop, replicate, u64,
}
use rtp_audio_streamer.Base.Int.{ℤ, pos, neg, i16}
use rtp_audio_streamer.AudioFormat.{frame_samples}
use rtp_audio_streamer.Host.{Host}
use rtp_audio_streamer.Packet.{payload_type_pcm, payload_type_pcmu, payload_type_adpcm}
use rtp_audio_streamer.Codec.Ulaw.{ulaw_decoded}
use rtp_audio_streamer.Codec.Adpcm.{unpack_adpcm_state, adpcm_decode_frame}
use rtp_audio_streamer.Jitter.{Arithmetic, JitterBuffer, Slot, max_consecutive_concealments}

abbrev pub adpcm_state_header_bytes : ℕ
adpcm_state_header_bytes = 4

abbrev pub silence : List ℤ
silence = replicate frame_samples (pos 0)

-- The samples decoded, and zeros up to the end of the frame.
unfoldable pub pad_frame : List ℤ → List ℤ
pad_frame out = out ++ replicate (frame_samples - length out) (pos 0)

module _ (host : Host) where
  -- `num_samples` reads of two bytes each, in the host's byte order.
  unfoldable pub pcm_samples : ℕ → List ℕ → List ℤ
  pcm_samples zero bytes = []
  pcm_samples (suc n) bytes =
      i16 (host.value_16 (get_or bytes 0 0) (get_or bytes 1 0)) ∷ pcm_samples n (drop 2 bytes)

  unfoldable pub decode_slot : Slot → List ℤ
  decode_slot slot =
      let payload_len = length slot.payload in
      if slot.payload_type == payload_type_pcm
      then pad_frame (pcm_samples (min (payload_len / 2) frame_samples) slot.payload)
      else (if slot.payload_type == payload_type_pcmu
          then (let num_samples = min payload_len frame_samples in
              pad_frame (ulaw_decoded (take num_samples slot.payload)))
          else (if slot.payload_type == payload_type_adpcm
                && leb adpcm_state_header_bytes payload_len
              then (let state = unpack_adpcm_state slot.payload in
                  let packed_bytes = payload_len - adpcm_state_header_bytes in
                  let num_samples = min (packed_bytes * 2) frame_samples in
                  pad_frame
                    (adpcm_decode_frame (drop adpcm_state_header_bytes slot.payload) num_samples
                      state).0)
              else silence))

module _ {Double : Type 0} (F : Arithmetic Double) where
  -- `fade_db` is -6.0 for each frame concealed, `gain` is 10 to a twentieth of it.
  unfoldable pub faded : ℕ → List ℤ → List ℤ
  faded consecutive last_real_frame =
      let fade_db = F.mul (F.of_int (neg (pos 6))) (F.of_int (pos consecutive)) in
      let gain = F.power (F.of_int (pos 10)) (F.div fade_db (F.of_int (pos 20))) in
      map (λ x. F.truncate (F.mul (F.of_int x) gain)) last_real_frame

  -- Silence in place of a fade: by option, before any real frame, and after three fades in a row.
  unfoldable pub is_silent : JitterBuffer Double → Bool
  is_silent jb =
      jb.options.disable_plc_fade
      || (not jb.concealer.have_last_real_frame
          || leb max_consecutive_concealments jb.concealer.consecutive_concealments)

  unfoldable pub conceal : JitterBuffer Double → List ℤ × JitterBuffer Double
  conceal jb =
      let c = jb.concealer in
      let consecutive = c.consecutive_concealments + 1 in
      (
        if is_silent jb then silence else faded consecutive c.last_real_frame,
        record jb {
          counts = record (jb.counts) { concealed = u64 (jb.counts.concealed + 1) };
          concealer = record c {
            consecutive_concealments =
                if is_silent jb then c.consecutive_concealments else consecutive;
          };
        },
      )

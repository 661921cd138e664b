-- ===== src/Codec/Ulaw/Tests.antt =====
-- Samples through mu-law and back.
use rtp_audio_streamer.Base.{
  ◌==◌, if◌then◌else◌, ◌+◌, ◌*◌, ◌≤◌, arith, ℕ, ◌<◌, ◌≡◌, get_or, length, replicate, List, [], ◌∷◌,
  All,
}
use rtp_audio_streamer.Base.Int.{pos_part, neg_part, ℤ, pos, negsuc, distance, IsI16}
use rtp_audio_streamer.Codec.Ulaw.{
  linear_to_ulaw, ulaw_to_linear, ulaw_encode_frame, ulaw_decode_frame,
}
use rtp_audio_streamer.Codec.Ulaw.RoundTrip.{ulaw_error, ulaw_codes, ulaw_frame_error}

ulaw_error_example :
    32 * distance (ulaw_to_linear (linear_to_ulaw (negsuc 32767))) (negsuc 32767) ≤ 0 + 32768 + 132
ulaw_error_example = ulaw_error (negsuc 32767) (omega arith, omega arith)

ulaw_codes_example : linear_to_ulaw (ulaw_to_linear 19) ≡ (if 19 == 0x7f then 0xff else 19)
ulaw_codes_example = ulaw_codes 19 (omega arith)

abbrev frame : List ℤ
frame = pos 0 ∷ pos 1234 ∷ negsuc 99 ∷ []

frame-IsI16 : All IsI16 frame
frame-IsI16 =
    ((omega arith, omega arith), ((omega arith, omega arith), ((omega arith, omega arith), tt)))

-- Two of the three samples, to arrays of three codes and of four samples.
ulaw_frame_error_example :
    let encoded = ulaw_encode_frame frame 2 (replicate 3 7) in
    let decoded = ulaw_decode_frame encoded 2 (replicate 4 (pos 5)) in
    ((j : ℕ)
      → j < 2
      → 32 * distance (get_or decoded j (pos 0)) (get_or frame j (pos 0))
        ≤ pos_part (get_or frame j (pos 0)) + neg_part (get_or frame j (pos 0)) + 132)
    × ((j : ℕ) → 2 ≤ j → get_or encoded j 0 ≡ get_or (replicate 3 7) j 0)
    × ((j : ℕ) → 2 ≤ j → get_or decoded j (pos 0) ≡ get_or (replicate 4 (pos 5)) j (pos 0))
    × (length encoded ≡ 3)
    × (length decoded ≡ 4)
ulaw_frame_error_example =
    ulaw_frame_error frame 2 (replicate 3 7) (replicate 4 (pos 5)) frame-IsI16 (omega arith)
      (omega arith) (omega arith)

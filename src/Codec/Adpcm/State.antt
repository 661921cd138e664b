-- ===== src/Codec/Adpcm/State.antt =====
-- The state stays in range, so that no table is read outside its bounds, and travels in a packet.
use rtp_audio_streamer.Base.{
  ℕ, ◌/◌, ◌%◌, ◌^◌, ◌≤◌, ◌<◌, ◌≡◌, arith, List, ◌++◌, ap, ◌∙◌, All, bit_and, bit_or, u8, u16, ◌<<<◌,
  ◌>>>◌, ltb, if◌then◌else◌,
}
use rtp_audio_streamer.Base.Bits.{bit_and_mask, bit_or_fields}
use rtp_audio_streamer.Base.Int.{
  ◌+ℤ◌, ℤ, pos, pos_part, neg_part, IsI16, i16, u16_of, i16-u16_of, i16-IsI16, u16_of-lt,
}
use rtp_audio_streamer.Host.{IsByte}
use rtp_audio_streamer.Codec.Adpcm.{
  AdpcmState, clamp_step_index, clamp_predictor, index_change, advance, pack_adpcm_state,
  unpack_adpcm_state,
}

-- The predictor is a 16-bit sample and the index one of the 89 of the step table.
pub record IsState (s : AdpcmState) : Type 0 where
  pub sample : IsI16 s.predictor
  pub in_table : s.step_index ≤ 88

clamp_step_index_bounds :
    (i : ℤ) → (pos_part (clamp_step_index i) ≤ 88) × (neg_part (clamp_step_index i) ≡ 0)
unfolding clamp_step_index
clamp_step_index_bounds i = ground arith

pub clamp_predictor-IsI16 : (v : ℤ) → IsI16 (clamp_predictor v)
unfolding clamp_predictor
clamp_predictor-IsI16 v = ground arith

pub advance-IsState : (code diffq : ℕ) (s : AdpcmState) → IsState (advance code diffq s)
unfolding advance
advance-IsState code diffq s = record {
  sample = clamp_predictor-IsI16 _;
  in_table = omega (arith, clamp_step_index_bounds (pos s.step_index +ℤ index_change code));
}

pub pack-IsByte : (s : AdpcmState) → IsState s → All IsByte (pack_adpcm_state s)
unfolding pack_adpcm_state
pack-IsByte s v = omega arith

halves-word : (w : ℕ) → w < 2 ^ 16 → u16 (bit_or (u8 (w >>> 8) <<< 8) (u8 (bit_and w 0xff))) ≡ w
halves-word w h = ground (arith, bit_and_mask 8 w, bit_or_fields 8 (w / 256) (w % 256))

-- The state comes back from the four bytes of its header, whatever stands behind them.
pub unpack-pack :
    (s : AdpcmState) (rest : List ℕ)
    → IsState s
    → unpack_adpcm_state (pack_adpcm_state s ++ rest) ≡ s
unfolding pack_adpcm_state unpack_adpcm_state
unpack-pack s rest v = λ i. record {
  predictor =
      (ap i16 (halves-word (u16_of s.predictor) (u16_of-lt s.predictor))
          ∙ i16-u16_of s.predictor v.sample)
        i;
  step_index = index i;
}
  where
    index : u8 (if ltb 88 s.step_index then 88 else s.step_index) ≡ s.step_index
    index = ground (arith, v.in_table)

-- Whatever bytes arrive, the state is in range.
pub unpack-IsState : (bytes : List ℕ) → IsState (unpack_adpcm_state bytes)
unfolding unpack_adpcm_state
unpack-IsState bytes = record { sample = i16-IsI16 _; in_table = ground arith }

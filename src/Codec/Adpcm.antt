-- ===== src/Codec/Adpcm.antt =====
-- src/codec_adpcm.cpp: IMA ADPCM, four bits a sample, with the state that both sides carry.
pub mod State
pub mod Quantise
pub mod Frame
mod Tests
use rtp_audio_streamer.Base.{
  ℕ, zero, suc, ◌+◌, ◌-◌, Bool, List, [], ◌∷◌, bit_and, bit_or, u8, u16, ◌<<<◌, ◌>>>◌, ltb, leb,
  ◌==◌, if◌then◌else◌, get_or, drop,
}
use rtp_audio_streamer.Base.Int.{
  ℤ, pos, negsuc, pos_part, neg_part, neg, ◌+ℤ◌, ◌-ℤ◌, ltb_ℤ, i16, u16_of,
}

abbrev pub step_table : List ℕ
step_table =
    7 ∷ 8 ∷ 9 ∷ 10 ∷ 11 ∷ 12 ∷ 13 ∷ 14 ∷ 16 ∷ 17 ∷ 19 ∷ 21 ∷ 23 ∷ 25 ∷ 28 ∷ 31 ∷ 34 ∷ 37 ∷ 41 ∷ 45
    ∷ 50 ∷ 55 ∷ 60 ∷ 66 ∷ 73 ∷ 80 ∷ 88 ∷ 97 ∷ 107 ∷ 118 ∷ 130 ∷ 143 ∷ 157 ∷ 173 ∷ 190 ∷ 209 ∷ 230
    ∷ 253 ∷ 279 ∷ 307 ∷ 337 ∷ 371 ∷ 408 ∷ 449 ∷ 494 ∷ 544 ∷ 598 ∷ 658 ∷ 724 ∷ 796 ∷ 876 ∷ 963 ∷ 1060
    ∷ 1166 ∷ 1282 ∷ 1411 ∷ 1552 ∷ 1707 ∷ 1878 ∷ 2066 ∷ 2272 ∷ 2499 ∷ 2749 ∷ 3024 ∷ 3327 ∷ 3660
    ∷ 4026 ∷ 4428 ∷ 4871 ∷ 5358 ∷ 5894 ∷ 6484 ∷ 7132 ∷ 7845 ∷ 8630 ∷ 9493 ∷ 10442 ∷ 11487 ∷ 12635
    ∷ 13899 ∷ 15289 ∷ 16818 ∷ 18500 ∷ 20350 ∷ 22385 ∷ 24623 ∷ 27086 ∷ 29794 ∷ 32767 ∷ []

abbrev pub index_table : List ℤ
index_table =
    negsuc 0
    ∷ negsuc 0
    ∷ negsuc 0
    ∷ negsuc 0
    ∷ pos 2
    ∷ pos 4
    ∷ pos 6
    ∷ pos 8
    ∷ negsuc 0
    ∷ negsuc 0
    ∷ negsuc 0
    ∷ negsuc 0
    ∷ pos 2
    ∷ pos 4
    ∷ pos 6
    ∷ pos 8
    ∷ []

-- A read outside a table is undefined in the source; here it gives a number that no table holds.
unfoldable pub step_at : ℕ → ℕ
step_at index = get_or step_table index 0

unfoldable pub index_change : ℕ → ℤ
index_change code = get_or index_table code (pos 0)

pub record AdpcmState : Type 0 where
  pub predictor : ℤ
  pub step_index : ℕ

abbrev pub initial_state : AdpcmState
initial_state = record { predictor = pos 0; step_index = 0 }

unfoldable pub clamp_step_index : ℤ → ℤ
clamp_step_index index =
    if ltb_ℤ index (pos 0) then pos 0 else (if ltb_ℤ (pos 88) index then pos 88 else index)

unfoldable pub clamp_predictor : ℤ → ℤ
clamp_predictor value =
    if ltb_ℤ value (negsuc 32767)
    then negsuc 32767
    else (if ltb_ℤ (pos 32767) value then pos 32767 else value)

-- The end that both directions share: the new predictor and step index.
-- `static_cast<uint8_t>` keeps the low eight bits of a number that is not negative here.
unfoldable pub advance : ℕ → ℕ → AdpcmState → AdpcmState
advance code diffq state = record {
  predictor =
      clamp_predictor
        (state.predictor +ℤ (if bit_and code 0x08 == 0 then pos diffq else neg (pos diffq)));
  step_index = u8 (pos_part (clamp_step_index (pos state.step_index +ℤ index_change code)));
}

-- The local variables of `encode_sample` between its tests; `diff` is not negative there.
pub record Quantiser : Type 0 where
  pub code : ℕ
  pub diff : ℕ
  pub diffq : ℕ

unfoldable pub take_bit : ℕ → ℕ → Quantiser → Quantiser
take_bit bit half_step q =
    if leb half_step q.diff
    then record { code = bit_or q.code bit; diff = q.diff - half_step; diffq = q.diffq + half_step }
    else q

-- The last test leaves `diff` alone, which nothing reads after it.
unfoldable pub quantise : ℕ → ℤ → Quantiser
quantise step diff =
    let negative = ltb_ℤ diff (pos 0) in
    let q : Quantiser = record {
      code = if negative then 0x08 else 0;
      diff = if negative then neg_part diff else pos_part diff;
      diffq = step >>> 3;
    } in
    let q = take_bit 0x04 step q in
    let q = take_bit 0x02 (step >>> 1) q in
    let half_step = step >>> 1 >>> 1 in
    if leb half_step q.diff
    then record q { code = bit_or q.code 0x01; diffq = q.diffq + half_step }
    else q

unfoldable pub encode_sample : ℤ → AdpcmState → ℕ × AdpcmState
encode_sample sample state =
    let q = quantise (step_at state.step_index) (sample -ℤ state.predictor) in
    (q.code, advance q.code q.diffq state)

unfoldable pub dequantise : ℕ → ℕ → ℕ
dequantise step code =
    let diffq = step >>> 3 in
    let diffq = if bit_and code 0x04 == 0 then diffq else diffq + step in
    let diffq = if bit_and code 0x02 == 0 then diffq else diffq + (step >>> 1) in
    if bit_and code 0x01 == 0 then diffq else diffq + (step >>> 2)

unfoldable pub decode_sample : ℕ → AdpcmState → ℤ × AdpcmState
decode_sample code state =
    let state' = advance code (dequantise (step_at state.step_index) code) state in
    (state'.predictor, state')

-- Two samples to a byte, the first in the low half. The list is the first `num_samples` samples.
unfoldable pub adpcm_encode_frame : List ℤ → AdpcmState → List ℕ × AdpcmState
adpcm_encode_frame [] state = ([], state)
adpcm_encode_frame (x ∷ []) state =
    let (low, state) = encode_sample x state in (u8 (bit_or low (0 <<< 4)) ∷ [], state)
adpcm_encode_frame (x ∷ y ∷ pcm) state =
    let (low, state) = encode_sample x state in
    let (high, state) = encode_sample y state in
    let (rest, state) = adpcm_encode_frame pcm state in (u8 (bit_or low (high <<< 4)) ∷ rest, state)

unfoldable pub adpcm_decode_frame : List ℕ → ℕ → AdpcmState → List ℤ × AdpcmState
adpcm_decode_frame packed zero state = ([], state)
adpcm_decode_frame packed (suc zero) state =
    let (x, state) = decode_sample (bit_and (get_or packed 0 0) 0x0f) state in (x ∷ [], state)
adpcm_decode_frame packed (suc (suc n)) state =
    let byte = get_or packed 0 0 in
    let (x, state) = decode_sample (bit_and byte 0x0f) state in
    let (y, state) = decode_sample (bit_and (byte >>> 4) 0x0f) state in
    let (rest, state) = adpcm_decode_frame (drop 1 packed) n state in (x ∷ y ∷ rest, state)

-- The four bytes that carry the state in each packet.
unfoldable pub pack_adpcm_state : AdpcmState → List ℕ
pack_adpcm_state state =
    let predictor_bits = u16_of state.predictor in
    u8 (predictor_bits >>> 8) ∷ u8 (bit_and predictor_bits 0xff) ∷ state.step_index ∷ 0 ∷ []

unfoldable pub unpack_adpcm_state : List ℕ → AdpcmState
unpack_adpcm_state in' =
    let predictor_bits = u16 (bit_or (get_or in' 0 0 <<< 8) (get_or in' 1 0)) in
    record {
      predictor = i16 predictor_bits;
      step_index = u8 (if ltb 88 (get_or in' 2 0) then 88 else get_or in' 2 0);
    }

-- ===== src/Impair/Decide.antt =====
-- What the loop of tools/impair.cpp decides for a datagram: its draws and its counters.
use rtp_audio_streamer.Impair
use rtp_audio_streamer.Base.{Bool-cases, refl, ℕ, ◌+◌, ◌≡◌, inl, inr, List, u64, if◌then◌else◌}
use rtp_audio_streamer.Base.Int.{ℤ, pos, ◌+ℤ◌, ltb_ℤ}
use rtp_audio_streamer.Impair.{
  handle, forward, InFlight, Config, Random, jitter_delay, reorder_extra_delay_ms,
}

-- The generator and the counters.
pub record Tally (R : Type 0) : Type 0 where
  pub rng : R
  pub received : ℕ
  pub dropped : ℕ
  pub duplicated : ℕ
  pub reordered : ℕ
  pub forwarded : ℕ

-- What becomes of a datagram that was received.
pub data Fate : Type 0 where
  drop : Fate
  send_now : (send_count : ℕ) → Fate
  hold : (delay_ms : ℤ) (send_count : ℕ) → Fate

module _ {Double R : Type 0} (G : Random Double R) (cfg : Config Double) where
  -- The draws for a datagram that is not dropped.
  unfoldable pub plan : Tally R → Fate × Tally R
  plan t =
      let (delay_ms, rng) = jitter_delay G cfg t.rng in
      let (reorder_draw, rng) = G.unit rng in
      let is_reordered = G.lt reorder_draw cfg.reorder in
      let delay_ms = if is_reordered then delay_ms +ℤ reorder_extra_delay_ms else delay_ms in
      let (dup_draw, rng) = G.unit rng in
      let is_dup = G.lt dup_draw cfg.dup in
      let send_count = if is_dup then 2 else 1 in
      (
        if ltb_ℤ (pos 0) delay_ms then hold delay_ms send_count else send_now send_count,
        record t {
          rng = rng;
          reordered = if is_reordered then u64 (t.reordered + 1) else t.reordered;
          duplicated = if is_dup then u64 (t.duplicated + 1) else t.duplicated;
          forwarded = u64 (t.forwarded + send_count);
        },
      )

  unfoldable pub decide : Tally R → Fate × Tally R
  decide t =
      let (loss_draw, rng) = G.unit t.rng in
      let t = record t { rng = rng; received = u64 (t.received + 1) } in
      if G.lt loss_draw cfg.loss then (drop, record t { dropped = u64 (t.dropped + 1) }) else plan t

  abbrev tally_of : Impair.Proxy R → Tally R
  tally_of s = record {
    rng = s.rng;
    received = s.received;
    dropped = s.dropped;
    duplicated = s.duplicated;
    reordered = s.reordered;
    forwarded = s.forwarded;
  }

  -- The same decisions as those of `handle`.
  pub handle-decide :
      (d : List ℕ) (s : Impair.Proxy R) → tally_of (handle G cfg d s) ≡ (decide (tally_of s)).1
  unfolding decide plan handle forward
  handle-decide d s = elim (Bool-cases (G.lt (G.unit s.rng).0 cfg.loss)) [
    | inl lost ↦ rw (decide, handle, lost) refl
    | inr through ↦ rw (decide, handle, through) refl
  ]

-- ===== src/Impair/Passthrough.antt =====
-- With nothing to impair, the proxy is a wire.
use mathlib.Core.List.{append_assoc, append-nil}
use rtp_audio_streamer.Base.{ℕ, ◌≡◌, refl, ap, sym, ◌∙◌, false, List, [], ◌∷◌, ◌++◌}
use rtp_audio_streamer.Base.Int.{pos, ltb_ℤ}
use rtp_audio_streamer.Impair.{Config, Random, Proxy, jitter_delay, forward, handle, relay}

-- No draw of `unit` is below a probability that is 0.0, since it is at least 0.0.
pub record IsOff {Double R : Type 0} (G : Random Double R) (cfg : Config Double) : Type 0 where
  pub loss : (r : R) → G.lt (G.unit r).0 cfg.loss ≡ false
  pub reorder : (r : R) → G.lt (G.unit r).0 cfg.reorder ≡ false
  pub dup : (r : R) → G.lt (G.unit r).0 cfg.dup ≡ false
  pub jitter : ltb_ℤ (pos 0) cfg.jitter_ms ≡ false

module _ {Double R : Type 0} (G : Random Double R) (cfg : Config Double) (off : IsOff G cfg) where
  -- What a datagram or more leaves as it was.
  abbrev Same : Proxy R → Proxy R → Type 0
  Same s t =
      (t.dropped ≡ s.dropped)
      × (t.duplicated ≡ s.duplicated)
      × (t.reordered ≡ s.reordered)
      × (t.in_flight ≡ s.in_flight)

  handle_one :
      (d : List ℕ) (s : Proxy R)
      → Same s (handle G cfg d s) × ((handle G cfg d s).sent ≡ s.sent ++ (d ∷ []))
  unfolding handle forward jitter_delay
  handle_one d s =
      rw
        (
          off.loss s.rng,
          off.jitter,
          off.reorder (G.unit s.rng).1,
          off.dup (G.unit (G.unit s.rng).1).1,
        )
        ((refl, refl, refl, refl), refl)

  -- If the loss, reordering and duplication probabilities are never drawn below and there is no
  -- jitter: every datagram is sent on once, in the order received, by the main thread, and none is
  -- counted as dropped, duplicated or reordered.
  pub relay_passthrough :
      (ds : List (List ℕ)) (s : Proxy R)
      → ((relay G cfg ds s).sent ≡ s.sent ++ ds)
        × ((relay G cfg ds s).in_flight ≡ s.in_flight)
        × ((relay G cfg ds s).dropped ≡ s.dropped)
        × ((relay G cfg ds s).duplicated ≡ s.duplicated)
        × ((relay G cfg ds s).reordered ≡ s.reordered)
  unfolding relay
  relay_passthrough [] s = (sym (append-nil s.sent), refl, refl, refl, refl)
  relay_passthrough (d ∷ ds) s =
      let one = handle_one d s in
      let rest = relay_passthrough ds (handle G cfg d s) in
      (
        rest.0 ∙ ap (λ xs. xs ++ ds) one.1 ∙ append_assoc s.sent (d ∷ []) ds,
        rest.1 ∙ one.0.3,
        rest.2 ∙ one.0.0,
        rest.3 ∙ one.0.1,
        rest.4 ∙ one.0.2,
      )

-- ===== src/Impair/Passes.antt =====
-- What leaves the proxy is what arrived: no datagram is changed on the way.
use rtp_audio_streamer.Base.{
  ℕ, ◌+◌, zero, suc, ◌<◌, arith, Bool, true, false, Bool-cases, inl, inr, List, [], ◌∷◌, ◌++◌,
  length, get_or, All, All-append, All-split, All-take, if◌then◌else◌,
}
use rtp_audio_streamer.Impair.{Config, Random, InFlight, Proxy, forward, handle}
use rtp_audio_streamer.Impair.Threads.{idle_thread, sent_one, System, Step, Reach}

module _ {Double R : Type 0} (G : Random Double R) (cfg : Config Double) (P : List ℕ → Type 0) where
  -- Of the datagrams sent and of those that threads hold.
  abbrev pub Passes : Proxy R → Type 0
  Passes s = All P s.sent × All (λ t. P t.payload) s.in_flight

  -- A datagram sent at once, once or twice, or held by a thread.
  sent-Passes :
      (at_once is_dup : Bool) (d : List ℕ) (t : InFlight) (s : Proxy R)
      → P d
      → P t.payload
      → Passes s
      → All P (
          if at_once
          then (if is_dup then s.sent ++ (d ∷ d ∷ []) else s.sent ++ (d ∷ []))
          else s.sent)
        × All (λ t. P t.payload) (if at_once then s.in_flight else s.in_flight ++ (t ∷ []))
  sent-Passes true true d t s h k v = (All-append P s.sent (d ∷ d ∷ []) (v.0) (h, (h, tt)), v.1)
  sent-Passes true false d t s h k v = (All-append P s.sent (d ∷ []) (v.0) (h, tt), v.1)
  sent-Passes false is_dup d t s h k v =
      (v.0, All-append (λ t. P t.payload) s.in_flight (t ∷ []) (v.1) (k, tt))

  forward-Passes : (d : List ℕ) (s : Proxy R) → P d → Passes s → Passes (forward G cfg d s)
  unfolding forward
  forward-Passes d s h v = sent-Passes _ _ d _ s h h v

  handle-Passes : (d : List ℕ) (s : Proxy R) → P d → Passes s → Passes (handle G cfg d s)
  unfolding handle
  handle-Passes d s h v = elim (Bool-cases (G.lt (G.unit s.rng).0 cfg.loss)) [
    | inl lost ↦ rw lost v
    | inr through ↦ rw through (forward-Passes d _ h v)
  ]

  sent_one-Passes :
      (ts : List InFlight) (i : ℕ)
      → i < length ts
      → All (λ t. P t.payload) ts
      → P (get_or ts i idle_thread).payload × All (λ t. P t.payload) (sent_one ts i)
  sent_one-Passes [] i below h = absurd (omega arith)
  sent_one-Passes (t ∷ ts) zero below h = (h.0, (h.0, h.1))
  sent_one-Passes (t ∷ ts) (suc i) below h =
      let rest = sent_one-Passes ts i (omega arith) h.1 in (rest.0, (h.0, rest.1))

  pub Reach-Passes : {rng : R} {s : System R} → Reach G cfg rng s → All P s.arrived → Passes s.proxy
  Reach-Passes Reach.start h = (tt, tt)
  Reach-Passes (Reach.next {s = s} r (Step.receive d on)) h =
      let both = All-split P s.arrived (d ∷ []) h in
      handle-Passes d s.proxy (both.1.0) (Reach-Passes r (both.0))
  Reach-Passes (Reach.next {s = s} r (Step.receive_throws d copies on some_left)) h =
      let both = All-split P s.arrived (d ∷ []) h in
      let v = handle-Passes d s.proxy (both.1.0) (Reach-Passes r (both.0)) in
      (All-take P (length s.proxy.sent + copies) (handle G cfg d s.proxy).sent (v.0), v.1)
  Reach-Passes (Reach.next {s = s} r (Step.send i on below left)) h =
      let v = Reach-Passes r h in
      let one = sent_one-Passes s.proxy.in_flight i below (v.1) in
      (All-append P s.proxy.sent _ (v.0) (one.0, tt), one.1)
  Reach-Passes (Reach.next {s = s} r (Step.send_throws i on below left)) h =
      let v = Reach-Passes r h in (v.0, v.1)

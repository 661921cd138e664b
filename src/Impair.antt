-- ===== src/Impair.antt =====
-- tools/impair.cpp: the proxy that drops, delays, reorders and duplicates datagrams.
-- The generator of <random> and its distributions are a parameter; so are `atoi` and `atof`.
pub mod Args
pub mod Passes
pub mod Passthrough
pub mod Threads
pub mod Decide
pub mod Main
pub mod Copies
pub mod Kept
pub mod KeptSteps
pub mod Ending
mod Tests
mod MainTests
use Prim.Native.String.{String}
use rtp_audio_streamer.Base.{ℕ, ◌+◌, Bool, true, false, List, [], ◌∷◌, ◌++◌, u64, if◌then◌else◌}
use rtp_audio_streamer.Base.Int.{ℤ, pos, ◌+ℤ◌, ltb_ℤ, max_ℤ}

pub record Config (Double : Type 0) : Type 0 where
  pub listen_port : ℕ
  pub forward_port : ℕ
  pub forward_host : String
  pub loss : Double
  pub reorder : Double
  pub jitter_ms : ℤ
  pub dup : Double
  pub seed : ℕ
  pub idle_timeout_ms : ℤ

-- A generator with state `R`: `unit` draws from [0, 1), `uniform_int` between its bounds.
pub record Random (Double R : Type 0) : Type 0 where
  pub lt : Double → Double → Bool
  pub unit : R → Double × R
  pub uniform_int : ℤ → ℤ → R → ℤ × R

abbrev pub reorder_extra_delay_ms : ℤ
reorder_extra_delay_ms = pos 40

-- A thread that holds a datagram, and how often it still sends it.
pub record InFlight : Type 0 where
  pub payload : List ℕ
  pub delay_ms : ℤ
  pub send_count : ℕ

-- The variables of the loop; `sent` is what the main thread and the threads in flight have given to
-- `send_to`, in order.
pub record Proxy (R : Type 0) : Type 0 where
  pub rng : R
  pub received : ℕ
  pub dropped : ℕ
  pub duplicated : ℕ
  pub reordered : ℕ
  pub forwarded : ℕ
  pub in_flight : List InFlight
  pub sent : List (List ℕ)

abbrev pub new_proxy : {R : Type 0} → R → Proxy R
new_proxy rng = record {
  rng = rng;
  received = 0;
  dropped = 0;
  duplicated = 0;
  reordered = 0;
  forwarded = 0;
  in_flight = [];
  sent = [];
}

module _ {Double R : Type 0} (G : Random Double R) (cfg : Config Double) where
  -- The delay drawn for jitter; without jitter nothing is drawn.
  unfoldable pub jitter_delay : R → ℤ × R
  jitter_delay rng =
      if ltb_ℤ (pos 0) cfg.jitter_ms then G.uniform_int (pos 0) cfg.jitter_ms rng else (pos 0, rng)

  -- A datagram that is not dropped, when no send throws; Impair/Threads has the exceptions.
  unfoldable pub forward : List ℕ → Proxy R → Proxy R
  forward payload s =
      let (delay_ms, rng) = jitter_delay s.rng in
      let (reorder_draw, rng) = G.unit rng in
      let is_reordered = G.lt reorder_draw cfg.reorder in
      let delay_ms = if is_reordered then delay_ms +ℤ reorder_extra_delay_ms else delay_ms in
      let (dup_draw, rng) = G.unit rng in
      let is_dup = G.lt dup_draw cfg.dup in
      let send_count = if is_dup then 2 else 1 in
      let at_once = if ltb_ℤ (pos 0) delay_ms then false else true in
      record s {
        rng = rng;
        reordered = if is_reordered then u64 (s.reordered + 1) else s.reordered;
        duplicated = if is_dup then u64 (s.duplicated + 1) else s.duplicated;
        forwarded = u64 (s.forwarded + send_count);
        sent =
            if at_once
            then (if is_dup then s.sent ++ (payload ∷ payload ∷ []) else s.sent ++ (payload ∷ []))
            else s.sent;
        in_flight =
            if at_once
            then s.in_flight
            else s.in_flight
              ++ (record { payload = payload; delay_ms = delay_ms; send_count = send_count } ∷ []);
      }

  -- One pass of the loop, for a datagram that was received.
  unfoldable pub handle : List ℕ → Proxy R → Proxy R
  handle payload s =
      let (loss_draw, rng) = G.unit s.rng in
      let s = record s { rng = rng; received = u64 (s.received + 1) } in
      if G.lt loss_draw cfg.loss
      then record s { dropped = u64 (s.dropped + 1) }
      else forward payload s

  -- The loop until the idle timeout, on the datagrams that arrive before it.
  unfoldable pub relay : List (List ℕ) → Proxy R → Proxy R
  relay [] s = s
  relay (d ∷ ds) s = relay ds (handle d s)

-- ===== src/Impair/Main.antt =====
-- `main` of tools/impair.cpp with its sockets: the main thread and the threads that hold datagrams,
-- one call of a socket at a time.
use Prim.Native.String.{String}
use rtp_audio_streamer.Base.{
  ℕ, zero, suc, ◌<◌, ◌≡◌, Bool, true, false, ◌⊎◌, inl, inr, Option, none, some, List, [], ◌∷◌, ◌++◌,
  length, take, replicate, All, if◌then◌else◌, get_or, set,
}
use rtp_audio_streamer.Base.Int.{ℤ, pos, pos_part}
use rtp_audio_streamer.Host.{Host}
use rtp_audio_streamer.Udp.{
  Kernel, SocketError, UdpSocket, is_negative, new_socket, drop_socket, receive, send_to,
}
use rtp_audio_streamer.Udp.Listen.{listen}
use rtp_audio_streamer.Sender.{max_datagram_bytes}
use rtp_audio_streamer.Impair.{Config, Random}
use rtp_audio_streamer.Impair.Args.{parse_args}
use rtp_audio_streamer.Impair.Decide.{Tally, Fate, send_now, hold, decide}
use rtp_audio_streamer.Impair.Decide

-- Where the copies of a datagram stand: before the socket is made, with copies left to send, or with
-- the socket destroyed.
pub data SendAt : Type 0 where
  unsent : SendAt
  sending : UdpSocket → (copies_left : ℕ) → SendAt
  sent : SendAt

-- A thread in `in_flight`, asleep as long as it is `unsent`.
pub record Holder : Type 0 where
  pub payload : List ℕ
  pub delay_ms : ℤ
  pub send_count : ℕ
  pub at : SendAt

-- Where the main thread stands. `terminated` is `std::terminate`.
pub data MainAt (R : Type 0) : Type 0 where
  receiving : MainAt R
  forwarding : (payload : List ℕ) (send_count : ℕ) → SendAt → MainAt R
  joining : MainAt R
  exited : (status : ℕ) → Option (Tally R) → MainAt R
  terminated : MainAt R

pub record Proxy (K R : Type 0) : Type 0 where
  pub kernel : K
  pub tally : Tally R
  pub in_flight : List Holder
  pub at : MainAt R
  pub arrived : List (List ℕ)

abbrev pub is_alive : {R : Type 0} → MainAt R → Bool
is_alive receiving = true
is_alive (forwarding d count at) = true
is_alive joining = true
is_alive (exited status t) = false
is_alive terminated = false

abbrev pub idle_holder : Holder
idle_holder = record { payload = []; delay_ms = pos 0; send_count = 0; at = sent }

module _ {Double R K : Type 0} (G : Random Double R) (cfg : Config Double) (kernel : Kernel K)
    (host : Host) where
  -- One call of the socket that sends; an exception destroys it.
  unfoldable pub send_step : List ℕ → ℕ → SendAt → K → (SocketError ⊎ SendAt) × K
  send_step payload send_count unsent k =
      let (made, k') = new_socket kernel k in
      elim made [ inl e ↦ (inl e, k') | inr socket ↦ (inr (sending socket send_count), k') ]
  send_step payload send_count (sending socket (suc left)) k =
      let (r, k') = send_to kernel host socket payload cfg.forward_host cfg.forward_port k in
      elim r [
        | inl e ↦ (inl e, drop_socket kernel socket k')
        | inr u ↦ (inr (sending socket left), k')
      ]
  send_step payload send_count (sending socket zero) k = (inr sent, drop_socket kernel socket k)
  send_step payload send_count sent k = (inr sent, k)

  module _ (listen_socket : UdpSocket) where
    -- An exception in the main thread: the vector of threads is destroyed, which may not hold any;
    -- then the socket is closed and the exception caught.
    abbrev pub unwound : List Holder → MainAt R
    unwound [] = exited 1 none
    unwound (t ∷ ts) = terminated

    abbrev pub closed : List Holder → K → K
    closed [] k = drop_socket kernel listen_socket k
    closed (t ∷ ts) k = k

    abbrev pub unwind : Proxy K R → Proxy K R
    unwind s = record s { at = unwound s.in_flight; kernel = closed s.in_flight s.kernel }

    abbrev pub follow : List ℕ → Fate → Proxy K R → Proxy K R
    follow d Decide.drop s = s
    follow d (send_now count) s = record s { at = forwarding d count unsent }
    follow d (hold delay_ms count) s = record s {
      in_flight =
          s.in_flight
          ++ (record { payload = d; delay_ms = delay_ms; send_count = count; at = unsent } ∷ []);
    }

    -- A pass of the loop up to what is to be sent: an error, the idle timeout, or a datagram.
    abbrev pub received_as : SocketError ⊎ ℤ → List ℕ → Proxy K R → Proxy K R
    received_as (inl e) buffer s = unwind s
    received_as (inr n) buffer s =
        if is_negative n
        then record s { at = joining }
        else (let d = take (pos_part n) buffer in
            let (fate, tally) = decide G cfg s.tally in
            follow d fate (record s { tally = tally; arrived = s.arrived ++ (d ∷ []) }))

    unfoldable pub receive_pass : Proxy K R → Proxy K R
    receive_pass s =
        let (r, buffer, k') =
          receive kernel listen_socket (replicate max_datagram_bytes 0) s.kernel in
        received_as r buffer (record s { kernel = k' })

    -- A step of the main thread in its own sends.
    abbrev pub forwarded_as : List ℕ → ℕ → (SocketError ⊎ SendAt) × K → Proxy K R → Proxy K R
    forwarded_as d count (inl e, k) s = unwind (record s { kernel = k })
    forwarded_as d count (inr unsent, k) s = record s { kernel = k; at = forwarding d count unsent }
    forwarded_as d count (inr (sending socket left), k) s = record s {
      kernel = k;
      at = forwarding d count (sending socket left);
    }
    forwarded_as d count (inr sent, k) s = record s { kernel = k; at = receiving }

    unfoldable pub forward_step : List ℕ → ℕ → SendAt → Proxy K R → Proxy K R
    forward_step d count at s = forwarded_as d count (send_step d count at s.kernel) s

    -- A step of thread `i`; an exception leaves its function.
    abbrev pub thread_as : ℕ → Holder → (SocketError ⊎ SendAt) × K → Proxy K R → Proxy K R
    thread_as i t (inl e, k) s = record s { kernel = k; at = terminated }
    thread_as i t (inr at, k) s = record s {
      kernel = k;
      in_flight = set s.in_flight i (record t { at = at });
    }

    unfoldable pub thread_step : ℕ → Holder → Proxy K R → Proxy K R
    thread_step i t s = thread_as i t (send_step t.payload t.send_count t.at s.kernel) s

    -- The threads in any order; sleeps end at any time.
    pub data Step (s : Proxy K R) : Proxy K R → Type 0 where
      arrive : s.at ≡ receiving → Step s (receive_pass s)
      forward :
          (d : List ℕ) (count : ℕ) (at : SendAt)
          → s.at ≡ forwarding d count at
          → Step s (forward_step d count at s)
      thread :
          (i : ℕ)
          → is_alive s.at ≡ true
          → i < length s.in_flight
          → Step s (thread_step i (get_or s.in_flight i idle_holder) s)
      joined :
          s.at ≡ joining
          → All (λ t. t.at ≡ sent) s.in_flight
          → Step s (record s {
            at = exited 0 (some s.tally);
            kernel = drop_socket kernel listen_socket s.kernel;
          })

    pub data Reach (k : K) (rng : R) : Proxy K R → Type 0 where
      start : Reach k rng (record {
        kernel = k;
        tally = record {
          rng = rng;
          received = 0;
          dropped = 0;
          duplicated = 0;
          reordered = 0;
          forwarded = 0;
        };
        in_flight = [];
        at = receiving;
        arrived = [];
      })
      next : {s t : Proxy K R} → Reach k rng s → Step s t → Reach k rng t

abbrev pub default_config : {Double : Type 0} → Double → Config Double
default_config nought = record {
  listen_port = 5004;
  forward_port = 5006;
  forward_host = "127.0.0.1";
  loss = nought;
  reorder = nought;
  jitter_ms = pos 0;
  dup = nought;
  seed = 42;
  idle_timeout_ms = pos 1000;
}

module _ {Double R K : Type 0} (G : Random Double R) (seeded : ℕ → R) (nought : Double)
    (atoi : String → ℤ) (atof : String → Double) (kernel : Kernel K) (host : Host) where
  -- `main` from a command line and a system: where it stands, the system, and what has arrived.
  pub data Outcome (argv : List String) (k : K) : MainAt R → K → List (List ℕ) → Type 0 where
    bad_arguments :
        parse_args atoi atof argv (default_config nought) ≡ none
        → Outcome argv k (exited 1 none) k []
    no_socket :
        {cfg : Config Double} {e : SocketError} {k' : K}
        → parse_args atoi atof argv (default_config nought) ≡ some cfg
        → listen kernel host cfg.listen_port cfg.idle_timeout_ms k ≡ (inl e, k')
        → Outcome argv k (exited 1 none) k' []
    ran :
        {cfg : Config Double} {socket : UdpSocket} {k₁ k' : K} {s : Proxy K R} {at : MainAt R}
        {arrived : List (List ℕ)}
        → parse_args atoi atof argv (default_config nought) ≡ some cfg
        → listen kernel host cfg.listen_port cfg.idle_timeout_ms k ≡ (inr socket, k₁)
        → Reach G cfg kernel host socket k₁ (seeded cfg.seed) s
        → s.at ≡ at
        → s.kernel ≡ k'
        → s.arrived ≡ arrived
        → Outcome argv k at k' arrived

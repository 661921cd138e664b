-- ===== src/Impair/Ending.antt =====
-- What holds when the proxy of tools/impair.cpp exits.
use Prim.Native.String.{String}
use rtp_audio_streamer.Base.{
  ℕ, ◌+◌, ◌*◌, ◌≤◌, ◌≡◌, refl, sym, ap, ◌∙◌, arith, Bool, true, Bool-cases, ◌⊎◌, inl, inr, Option,
  none, some, List, [], ◌∷◌, ◌++◌, length, take, replicate, u64, All, get_or,
}
use mathlib.Core.Path.{subst}
use rtp_audio_streamer.Base.Int.{ℤ, pos_part}
use rtp_audio_streamer.Host.{Host}
use rtp_audio_streamer.Udp.{Kernel, SocketError, UdpSocket, is_negative, receive}
use rtp_audio_streamer.Sender.{max_datagram_bytes}
use rtp_audio_streamer.Impair.{Config, Random}
use rtp_audio_streamer.Impair.Threads.{count}
use rtp_audio_streamer.Impair.Main.{
  SendAt, unsent, sending, sent, Holder, MainAt, receiving, forwarding, joining, exited, terminated,
  Proxy, send_step, unwound, follow, received_as, receive_pass, forwarded_as, forward_step,
  thread_as, thread_step, is_alive, idle_holder, Step, Reach,
}
use rtp_audio_streamer.Impair.Decide.{Tally, Fate, send_now, hold, decide}
use rtp_audio_streamer.Impair.Decide
use rtp_audio_streamer.Impair.Main.{Outcome}
use rtp_audio_streamer.Impair.Kept.{any}
use rtp_audio_streamer.Impair.KeptSteps.{Reach-Kept}
use rtp_audio_streamer.Impair.Copies.{
  pending_main, pending_none, count_all, Hands, listen-delivered,
}

module _ {Double R K : Type 0} (G : Random Double R) (cfg : Config Double) (kernel : Kernel K)
    (host : Host) (listen_socket : UdpSocket) (k₀ : K) where
  -- A report comes with the status 0, after the last send of every thread; an exit without one has
  -- the status 1, and no thread was ever started.
  abbrev IsExit : MainAt R → Tally R → List Holder → Type 0
  IsExit receiving t ts = Unit
  IsExit (forwarding d n at) t ts = Unit
  IsExit joining t ts = Unit
  IsExit terminated t ts = Unit
  IsExit (exited status none) t ts = (status ≡ 1) × (ts ≡ [])
  IsExit (exited status (some shown)) t ts = (status ≡ 0) × (shown ≡ t) × All (λ h. h.at ≡ sent) ts

  unwound-IsExit :
      (t : Tally R) (ts : List Holder) → IsExit (unwound G cfg kernel host listen_socket ts) t ts
  unwound-IsExit t [] = (refl, refl)
  unwound-IsExit t (h ∷ ts) = tt

  alive-IsExit : (m : MainAt R) (t : Tally R) (ts : List Holder) → is_alive m ≡ true → IsExit m t ts
  alive-IsExit receiving t ts e = tt
  alive-IsExit (forwarding d n at) t ts e = tt
  alive-IsExit joining t ts e = tt
  alive-IsExit terminated t ts e = tt
  alive-IsExit (exited status none) t ts e = absurd cc
  alive-IsExit (exited status (some shown)) t ts e = absurd cc

  abbrev Exits : Proxy K R → Type 0
  Exits s = IsExit s.at s.tally s.in_flight

  received_as-Exits :
      (r : SocketError ⊎ ℤ) (buffer : List ℕ) (s : Proxy K R)
      → s.at ≡ receiving
      → Exits (received_as G cfg kernel host listen_socket r buffer s)
  received_as-Exits (inl e) buffer s at = unwound-IsExit s.tally s.in_flight
  received_as-Exits (inr n) buffer s at = elim (Bool-cases (is_negative n)) [
    | inl over ↦ rw over tt
    | inr more ↦ rw more (
        followed (take (pos_part n) buffer) (decide G cfg s.tally).0
          (record s {
            tally = (decide G cfg s.tally).1;
            arrived = s.arrived ++ (take (pos_part n) buffer ∷ []);
          })
          (rw at refl))
  ]
    where
      followed :
          (d : List ℕ) (fate : Fate) (s' : Proxy K R)
          → is_alive s'.at ≡ true
          → Exits (follow G cfg kernel host listen_socket d fate s')
      followed d Decide.drop s' alive = alive-IsExit s'.at s'.tally s'.in_flight alive
      followed d (send_now n) s' alive = tt
      followed d (hold delay_ms n) s' alive = alive-IsExit s'.at s'.tally _ alive

  forwarded_as-Exits :
      (d : List ℕ) (n : ℕ) (r : (SocketError ⊎ SendAt) × K) (s : Proxy K R)
      → Exits (forwarded_as G cfg kernel host listen_socket d n r s)
  forwarded_as-Exits d n (inl e, k) s = unwound-IsExit s.tally s.in_flight
  forwarded_as-Exits d n (inr unsent, k) s = tt
  forwarded_as-Exits d n (inr (sending socket left), k) s = tt
  forwarded_as-Exits d n (inr sent, k) s = tt

  thread_as-Exits :
      (i : ℕ) (t : Holder) (r : (SocketError ⊎ SendAt) × K) (s : Proxy K R)
      → is_alive s.at ≡ true
      → Exits (thread_as G cfg kernel host listen_socket i t r s)
  thread_as-Exits i t (inl e, k) s alive = tt
  thread_as-Exits i t (inr at, k) s alive = alive-IsExit s.at s.tally _ alive

  Step-Exits : {s t : Proxy K R} → Step G cfg kernel host listen_socket s t → Exits t
  unfolding receive_pass forward_step thread_step
  Step-Exits {s} (Step.arrive at) =
      let r = receive kernel listen_socket (replicate max_datagram_bytes 0) s.kernel in
      received_as-Exits r.0 r.1 (record s { kernel = r.2 }) at
  Step-Exits {s} (Step.forward d n at here) =
      forwarded_as-Exits d n (send_step G cfg kernel host d n at s.kernel) s
  Step-Exits {s} (Step.thread i alive below) =
      let t = get_or s.in_flight i idle_holder in
      thread_as-Exits i t (send_step G cfg kernel host t.payload t.send_count t.at s.kernel) s alive
  Step-Exits (Step.joined at all) = (refl, refl, all)

  Reach-Exits : {rng : R} {s : Proxy K R} → Reach G cfg kernel host listen_socket k₀ rng s → Exits s
  Reach-Exits Reach.start = tt
  Reach-Exits (Reach.next r st) = Step-Exits st

-- What a report tells of the datagrams that arrived, and of those handed over before and after.
pub record Told {R : Type 0} (t : Tally R) (arrived before after : List (List ℕ)) : Type 0 where
  pub received : t.received ≡ u64 (length arrived)
  pub balanced : u64 (t.received + t.duplicated) ≡ u64 (t.forwarded + t.dropped)
  pub forwarded : u64 (length after) ≡ u64 (length before + t.forwarded)
  pub at_most_twice : (is : List ℕ → Bool) → count is after ≤ count is before + 2 * count is arrived

module _ {Double R K : Type 0} (G : Random Double R) (kernel : Kernel K) (host : Host)
    {delivered : K → List (List ℕ)} (laws : Hands kernel host delivered) where
  Reach-Told :
      (cfg : Config Double) (listen_socket : UdpSocket) (k₀ : K) {rng : R} (s : Proxy K R)
      (status : ℕ) (t : Tally R)
      → Reach G cfg kernel host listen_socket k₀ rng s
      → s.at ≡ exited status (some t)
      → (status ≡ 0) × Told t s.arrived (delivered k₀) (delivered s.kernel)
  Reach-Told cfg listen_socket k₀ s status t r e =
      let v = Reach-Kept G cfg kernel host listen_socket laws k₀ r in
      let (done, same, all) =
        subst (λ m. IsExit G cfg kernel host listen_socket k₀ m s.tally s.in_flight) e
          (Reach-Exits G cfg kernel host listen_socket k₀ r) in
      let none_left = pending_none any s.in_flight all in
      let out : pending_main any s.at ≡ 0 = rw e refl in
      let sum = v.in_hand (rw e refl) in
      let before = count_all (delivered k₀) in
      let after = count_all (delivered s.kernel) in
      (
        done,
        record {
          received = rw same v.counted;
          balanced = rw same v.balanced;
          forwarded = rw same (omega (arith, sum, none_left, out, before, after));
          at_most_twice = λ is. omega (arith, v.at_most_twice is);
        },
      )

  -- However the proxy exits, its status is 1 and it has reported nothing, or its status is 0 and it
  -- has reported. Then, in the interleaving of its threads that has led there, its report counts the
  -- datagrams that arrived; received and duplicated together are forwarded and dropped together; as
  -- many datagrams were handed over to the system as were forwarded (these modulo 2^64); and of the
  -- datagrams that pass any test, at most two were handed over for each that arrived. The system
  -- sends a datagram whole or not at all.
  pub proxy_exit :
      (seeded : ℕ → R) (nought : Double) (atoi : String → ℤ) (atof : String → Double)
      {argv : List String} {k k' : K} {status : ℕ} {arrived : List (List ℕ)}
      (written : Option (Tally R))
      → Outcome G seeded nought atoi atof kernel host argv k (exited status written) k' arrived
      → ((status ≡ 1) × (written ≡ none))
        ⊎ ((status ≡ 0)
            × (t : Tally R) × (written ≡ some t)
            × Told t arrived (delivered k) (delivered k'))
  proxy_exit seeded nought atoi atof none (Outcome.bad_arguments unread) = inl (refl, refl)
  proxy_exit seeded nought atoi atof none (Outcome.no_socket read failed) = inl (refl, refl)
  proxy_exit seeded nought atoi atof none
        (Outcome.ran {cfg = cfg} {socket = socket} {k₁ = k₁} {s = s} read opened r e same heard) =
      let exit =
        subst (λ m. IsExit G cfg kernel host socket k₁ m s.tally s.in_flight) e
          (Reach-Exits G cfg kernel host socket k₁ r) in
      inl (exit.0, refl)
  proxy_exit seeded nought atoi atof {k = k} {status = status} (some t)
        (Outcome.ran {cfg = cfg} {socket = socket} {k₁ = k₁} {s = s} read opened r e same heard) =
      let (done, told) = Reach-Told cfg socket k₁ s status t r e in
      let before : delivered k₁ ≡ delivered k =
        sym (ap (λ o. delivered o.1) opened)
        ∙ listen-delivered G cfg kernel host laws cfg.listen_port cfg.idle_timeout_ms k in
      inr (done, t, refl, rw (← before, ← same, ← heard) told)

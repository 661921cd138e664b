-- ===== src/Impair/Copies.antt =====
-- The copies that the proxy of tools/impair.cpp still has to send, and what its decisions and its calls
-- of a socket make of them.
use rtp_audio_streamer.Base.{
  ℕ, zero, suc, ◌+◌, ◌≤◌, ◌<◌, ◌≡◌, refl, ◌∙◌, arith, Bool, true, false, Bool-cases, ◌⊎◌, inl, inr,
  List, [], ◌∷◌, ◌++◌, length, u64, All, if◌then◌else◌, get_or, set,
}
use rtp_audio_streamer.Base.Int.{ℤ}
use rtp_audio_streamer.Host.{Host}
use rtp_audio_streamer.Udp.Listen.{listen, if_bound, close_on_error}
use rtp_audio_streamer.Udp.{
  SockaddrIn, Timeval, bind_to, set_receive_timeout, Kernel, SocketError, UdpSocket, is_negative,
  new_socket, drop_socket, receive,
}
use rtp_audio_streamer.Sender.Handed.{Delivers, send_to-delivered}
use rtp_audio_streamer.Impair.{Config, Random, jitter_delay}
use rtp_audio_streamer.Impair.Threads.{count, count-append}
use rtp_audio_streamer.Impair.Main.{
  SendAt, unsent, sending, sent, Holder, MainAt, receiving, forwarding, joining, exited, terminated,
  send_step, idle_holder,
}
use rtp_audio_streamer.Impair.Decide.{Tally, Fate, send_now, hold, plan, decide}
use rtp_audio_streamer.Impair.Decide

-- The copies that are still to be sent: of one datagram, by the threads, and by the main thread.
abbrev pub left_at : ℕ → SendAt → ℕ
left_at send_count unsent = send_count
left_at send_count (sending socket left) = left
left_at send_count sent = 0

abbrev pub of_test : (List ℕ → Bool) → List ℕ → ℕ → ℕ
of_test is d n = if is d then n else 0

abbrev pub pending : (List ℕ → Bool) → List Holder → ℕ
pending is [] = 0
pending is (t ∷ ts) = of_test is t.payload (left_at t.send_count t.at) + pending is ts

abbrev pub pending_main : {R : Type 0} → (List ℕ → Bool) → MainAt R → ℕ
pending_main is (forwarding d send_count at) = of_test is d (left_at send_count at)
pending_main is receiving = 0
pending_main is joining = 0
pending_main is (exited status t) = 0
pending_main is terminated = 0

pub pending-append :
    (is : List ℕ → Bool) (ts : List Holder) (t : Holder)
    → pending is (ts ++ (t ∷ [])) ≡ pending is ts + of_test is t.payload (left_at t.send_count t.at)
pending-append is [] t = omega arith
pending-append is (u ∷ ts) t = omega (arith, pending-append is ts t)

pub pending-set :
    (is : List ℕ → Bool) (ts : List Holder) (i : ℕ) (at : SendAt)
    → i < length ts
    → let t = get_or ts i idle_holder in
      pending is (set ts i (record t { at = at }))
        + of_test is t.payload (left_at t.send_count t.at)
      ≡ pending is ts + of_test is t.payload (left_at t.send_count at)
pending-set is [] i at below = absurd (omega arith)
pending-set is (t ∷ ts) zero at below = omega arith
pending-set is (t ∷ ts) (suc i) at below = omega (arith, pending-set is ts i at (omega arith))

pub pending_none :
    (is : List ℕ → Bool) (ts : List Holder) → All (λ t. t.at ≡ sent) ts → pending is ts ≡ 0
pending_none is [] h = refl
pending_none is (t ∷ ts) h = rw (h.0) (ground (arith, pending_none is ts h.1))

pub count_all : (ds : List (List ℕ)) → count (λ d. true) ds ≡ length ds
count_all [] = refl
count_all (d ∷ ds) = omega (arith, count_all ds)

abbrev pub copies : Fate → ℕ
copies Decide.drop = 0
copies (send_now n) = n
copies (hold delay_ms n) = n

copies_if :
    (held : Bool) (delay_ms : ℤ) (n : ℕ) → copies (if held then hold delay_ms n else send_now n) ≡ n
copies_if true delay_ms n = refl
copies_if false delay_ms n = refl

module _ {Double R : Type 0} (G : Random Double R) (cfg : Config Double) where
  plan_counts :
      (t : Tally R)
      → let r = plan G cfg t in
        (r.1.received ≡ t.received)
        × (r.1.dropped ≡ t.dropped)
        × (r.1.forwarded ≡ u64 (t.forwarded + copies r.0))
        × (copies r.0 ≤ 2)
        × (u64 (r.1.duplicated + 1) ≡ u64 (t.duplicated + copies r.0))
  unfolding plan
  plan_counts t =
      let delayed = jitter_delay G cfg t.rng in
      let is_dup = G.lt (G.unit (G.unit delayed.1).1).0 cfg.dup in
      let n : ℕ = if is_dup then 2 else 1 in
      let c : copies (plan G cfg t).0 ≡ n = copies_if _ _ n in
      (refl, refl, rw c refl, rw c (ground arith), rw c (ground arith))

  pub decide_counts :
      (t : Tally R)
      → u64 (t.received + t.duplicated) ≡ u64 (t.forwarded + t.dropped)
      → let r = decide G cfg t in
        (r.1.received ≡ u64 (t.received + 1))
        × (u64 r.1.forwarded ≡ u64 (t.forwarded + copies r.0))
        × (copies r.0 ≤ 2)
        × (u64 (r.1.received + r.1.duplicated) ≡ u64 (r.1.forwarded + r.1.dropped))
  unfolding decide
  decide_counts t b = elim (Bool-cases (G.lt (G.unit t.rng).0 cfg.loss)) [
    | inl lost ↦ rw lost (refl, omega arith, omega arith, omega (arith, b))
    | inr through ↦
        let p =
          plan_counts (record t { rng = (G.unit t.rng).1; received = u64 (t.received + 1) }) in
        rw through (p.0, omega (arith, p.2), p.3, omega (arith, p.0, p.1, p.2, p.4, b))
  ]

-- What the system has been handed to send, and that only `sendto` changes it.
pub record Hands {K : Type 0} (kernel : Kernel K) (host : Host) (delivered : K → List (List ℕ))
    : Type 0 where
  pub sends : Delivers kernel host delivered
  pub recvfrom_keeps :
      (fd : ℤ) (b : List ℕ) (k : K) → delivered (kernel.recvfrom fd b k).2 ≡ delivered k
  pub bind_keeps :
      (fd : ℤ) (a : SockaddrIn) (k : K) → delivered (kernel.bind fd a k).1 ≡ delivered k
  pub set_rcvtimeo_keeps :
      (fd : ℤ) (t : Timeval) (k : K) → delivered (kernel.set_rcvtimeo fd t k).1 ≡ delivered k

module _ {Double R K : Type 0} (G : Random Double R) (cfg : Config Double) (kernel : Kernel K)
    (host : Host) {delivered : K → List (List ℕ)} (laws : Hands kernel host delivered) where
  pub drop_socket-delivered :
      (socket : UdpSocket) (k : K) → delivered (drop_socket kernel socket k) ≡ delivered k
  unfolding drop_socket
  drop_socket-delivered socket k = elim (Bool-cases (is_negative socket.fd)) [
    | inl none_open ↦ rw none_open refl
    | inr made ↦ rw made (laws.sends.close_keeps socket.fd k)
  ]

  new_socket-delivered : (k : K) → delivered (new_socket kernel k).1 ≡ delivered k
  unfolding new_socket
  new_socket-delivered k = laws.sends.socket_keeps k

  pub receive-delivered :
      (socket : UdpSocket) (buffer : List ℕ) (k : K)
      → delivered (receive kernel socket buffer k).2 ≡ delivered k
  unfolding receive
  receive-delivered socket buffer k = laws.recvfrom_keeps socket.fd buffer k

  close_on_error-delivered :
      (socket : UdpSocket) (r : (SocketError ⊎ Unit {0}) × K)
      → delivered (close_on_error kernel host socket r).1 ≡ delivered r.1
  close_on_error-delivered socket (inl e, k) = drop_socket-delivered socket k
  close_on_error-delivered socket (inr u, k) = refl

  if_bound-delivered :
      (socket : UdpSocket) (timeout_ms : ℤ) (r : (SocketError ⊎ Unit {0}) × K)
      → delivered (if_bound kernel host socket timeout_ms r).1 ≡ delivered r.1
  unfolding set_receive_timeout
  if_bound-delivered socket timeout_ms (inl e, k) = drop_socket-delivered socket k
  if_bound-delivered socket timeout_ms (inr u, k) =
      close_on_error-delivered socket (set_receive_timeout kernel socket timeout_ms k)
      ∙ laws.set_rcvtimeo_keeps socket.fd _ k

  -- Opening the socket hands over nothing.
  pub listen-delivered :
      (port : ℕ) (timeout_ms : ℤ) (k : K)
      → delivered (listen kernel host port timeout_ms k).1 ≡ delivered k
  unfolding listen new_socket bind_to
  listen-delivered port timeout_ms k = elim (Bool-cases (is_negative (kernel.socket k).0)) [
    | inl failed ↦ rw (listen, failed) (laws.sends.socket_keeps k)
    | inr made ↦
        let socket : UdpSocket = record { fd = (kernel.socket k).0 } in
        let bound =
          if_bound-delivered socket timeout_ms
            (bind_to kernel host socket port (kernel.socket k).1) in
        rw (listen, made)
          (bound
            ∙ laws.bind_keeps (kernel.socket k).0 _ (kernel.socket k).1
            ∙ laws.sends.socket_keeps k)
  ]

  -- A call of a socket hands over what is no longer left to send.
  abbrev pub HandsOver : List ℕ → ℕ → SendAt → K → (SocketError ⊎ SendAt) × K → Type 0
  HandsOver d n at k (inl e, k') = delivered k' ≡ delivered k
  HandsOver d n at k (inr at', k') =
      (is : List ℕ → Bool)
      → count is (delivered k') + of_test is d (left_at n at')
        ≡ count is (delivered k) + of_test is d (left_at n at)

  pub send_step-HandsOver :
      (d : List ℕ) (n : ℕ) (at : SendAt) (k : K)
      → HandsOver d n at k (send_step G cfg kernel host d n at k)
  unfolding send_step new_socket
  send_step-HandsOver d n unsent k = elim (Bool-cases (is_negative (kernel.socket k).0)) [
    | inl failed ↦ rw (HandsOver, send_step, failed) (laws.sends.socket_keeps k)
    | inr made ↦ rw (HandsOver, send_step, made) (λ is. rw (laws.sends.socket_keeps k) refl)
  ]
  send_step-HandsOver d n (sending socket (suc left)) k =
      elim (send_to-delivered kernel host laws.sends socket d cfg.forward_host cfg.forward_port k) [
        | inl (e, thrown, same) ↦
            rw (HandsOver, send_step, thrown) (drop_socket-delivered socket _ ∙ same)
        | inr (fine, more) ↦
            rw (HandsOver, send_step, fine)
              (λ is. rw more (ground (arith, count-append is (delivered k) (d ∷ []))))
      ]
  send_step-HandsOver d n (sending socket zero) k = λ is. rw (drop_socket-delivered socket k) refl
  send_step-HandsOver d n sent k = λ is. refl

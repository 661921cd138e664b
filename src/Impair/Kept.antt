-- ===== src/Impair/Kept.antt =====
-- What every step of tools/impair.cpp keeps: the counters, and the copies handed over and left.
use rtp_audio_streamer.Base.{
  ℕ, ◌+◌, ◌*◌, ◌≤◌, ◌≡◌, refl, arith, Bool, true, false, Bool-cases, ◌⊎◌, inl, inr, none, some,
  List, [], ◌∷◌, ◌++◌, length, length-append, take, replicate, u64,
}
use rtp_audio_streamer.Base.Int.{ℤ, pos_part}
use rtp_audio_streamer.Host.{Host}
use rtp_audio_streamer.Udp.{Kernel, SocketError, UdpSocket, is_negative, receive}
use rtp_audio_streamer.Sender.{max_datagram_bytes}
use rtp_audio_streamer.Impair.{Config, Random}
use rtp_audio_streamer.Impair.Threads.{count, count-append}
use rtp_audio_streamer.Impair.Main.{
  unsent, Holder, MainAt, receiving, forwarding, joining, exited, terminated, Proxy, unwound,
  closed, unwind, follow, received_as, receive_pass,
}
use rtp_audio_streamer.Impair.Decide.{Tally, Fate, send_now, hold, decide}
use rtp_audio_streamer.Impair.Decide
use rtp_audio_streamer.Impair.Copies.{
  pending, pending_main, pending-append, copies, decide_counts, Hands, drop_socket-delivered,
  receive-delivered,
}

-- The proxy runs, or has exited after its report.
abbrev pub settled : {R : Type 0} → MainAt R → Bool
settled receiving = true
settled (forwarding d send_count at) = true
settled joining = true
settled (exited status none) = false
settled (exited status (some t)) = true
settled terminated = false

abbrev pub any : List ℕ → Bool
any d = true

abbrev pub Balanced : {R : Type 0} → Tally R → Type 0
Balanced t = u64 (t.received + t.duplicated) ≡ u64 (t.forwarded + t.dropped)

module _ {Double R K : Type 0} (G : Random Double R) (cfg : Config Double) (kernel : Kernel K)
    (host : Host) (listen_socket : UdpSocket) {delivered : K → List (List ℕ)}
    (laws : Hands kernel host delivered) (k₀ : K) where
  abbrev pub all_pending : (List ℕ → Bool) → Proxy K R → ℕ
  all_pending is s = pending_main is s.at + pending is s.in_flight

  -- What holds at any time; the counters are modulo 2^64.
  pub record Kept (s : Proxy K R) : Type 0 where
    pub counted : s.tally.received ≡ u64 (length s.arrived)
    pub balanced : Balanced s.tally
    pub at_most_twice :
        (is : List ℕ → Bool)
        → count is (delivered s.kernel) + all_pending is s
          ≤ count is (delivered k₀) + 2 * count is s.arrived
    pub in_hand :
        settled s.at ≡ true
        → u64 (count any (delivered s.kernel) + all_pending any s)
          ≡ u64 (count any (delivered k₀) + s.tally.forwarded)

  pending_main-unwound :
      (is : List ℕ → Bool) (ts : List Holder)
      → pending_main is (unwound G cfg kernel host listen_socket ts) ≡ 0
  pending_main-unwound is [] = refl
  pending_main-unwound is (t ∷ ts) = refl

  settled-unwound :
      (ts : List Holder) → settled (unwound G cfg kernel host listen_socket ts) ≡ false
  settled-unwound [] = refl
  settled-unwound (t ∷ ts) = refl

  closed-delivered :
      (ts : List Holder) (k : K)
      → delivered (closed G cfg kernel host listen_socket ts k) ≡ delivered k
  closed-delivered [] k = drop_socket-delivered G cfg kernel host laws listen_socket k
  closed-delivered (t ∷ ts) k = refl

  pub unwind-Kept : (s : Proxy K R) → Kept s → Kept (unwind G cfg kernel host listen_socket s)
  unwind-Kept s v = record {
    counted = v.counted;
    balanced = v.balanced;
    at_most_twice = λ is.
        let bound = v.at_most_twice is in
        rw (closed-delivered s.in_flight s.kernel, pending_main-unwound is s.in_flight)
          (omega (arith, bound));
    in_hand = λ e. absurd (cc (e, settled-unwound s.in_flight));
  }

  follow-Kept :
      (d : List ℕ) (fate : Fate) (t : Tally R) (s : Proxy K R)
      → s.at ≡ receiving
      → t.received ≡ u64 (s.tally.received + 1)
      → u64 t.forwarded ≡ u64 (s.tally.forwarded + copies fate)
      → copies fate ≤ 2
      → Balanced t
      → Kept s
      → Kept (
          follow G cfg kernel host listen_socket d fate
            (record s { tally = t; arrived = s.arrived ++ (d ∷ []) }))
  follow-Kept d Decide.drop t s at one forwarded few balanced v = record {
    counted = omega (arith, one, v.counted, length-append s.arrived (d ∷ []));
    balanced = balanced;
    at_most_twice = λ is. omega (arith, v.at_most_twice is, count-append is s.arrived (d ∷ []));
    in_hand = λ e. omega (arith, v.in_hand e, forwarded);
  }
  follow-Kept d (send_now n) t s at one forwarded few balanced v =
      let idle : (is : List ℕ → Bool) → pending_main is s.at ≡ 0 = λ is. rw at refl in
      let on : settled s.at ≡ true = rw at refl in
      record {
        counted = omega (arith, one, v.counted, length-append s.arrived (d ∷ []));
        balanced = balanced;
        at_most_twice =
            λ is. ground (arith, idle is, v.at_most_twice is, count-append is s.arrived (d ∷ []));
        in_hand = λ e. omega (arith, idle any, v.in_hand on, forwarded);
      }
  follow-Kept d (hold delay_ms n) t s at one forwarded few balanced v =
      let idle : (is : List ℕ → Bool) → pending_main is s.at ≡ 0 = λ is. rw at refl in
      let on : settled s.at ≡ true = rw at refl in
      let t' : Holder = record { payload = d; delay_ms = delay_ms; send_count = n; at = unsent } in
      record {
        counted = omega (arith, one, v.counted, length-append s.arrived (d ∷ []));
        balanced = balanced;
        at_most_twice = λ is. ground (
          arith,
          idle is,
          v.at_most_twice is,
          count-append is s.arrived (d ∷ []),
          pending-append is s.in_flight t',
        );
        in_hand = λ e.
            omega (arith, idle any, v.in_hand on, forwarded, pending-append any s.in_flight t');
      }

  received_as-Kept :
      (r : SocketError ⊎ ℤ) (buffer : List ℕ) (s : Proxy K R)
      → s.at ≡ receiving
      → Kept s
      → Kept (received_as G cfg kernel host listen_socket r buffer s)
  received_as-Kept (inl e) buffer s at v = unwind-Kept s v
  received_as-Kept (inr n) buffer s at v = elim (Bool-cases (is_negative n)) [
    | inl over ↦
        let idle : (is : List ℕ → Bool) → pending_main is s.at ≡ 0 = λ is. rw at refl in
        rw over (record {
          counted = v.counted;
          balanced = v.balanced;
          at_most_twice = λ is. omega (arith, idle is, v.at_most_twice is);
          in_hand = λ e. omega (arith, idle any, v.in_hand (rw at refl));
        })
    | inr more ↦
        let r = decide G cfg s.tally in
        let (one, forwarded, few, balanced) = decide_counts G cfg s.tally v.balanced in
        rw more (follow-Kept (take (pos_part n) buffer) r.0 r.1 s at one forwarded few balanced v)
  ]

  pub receive_pass-Kept :
      (s : Proxy K R)
      → s.at ≡ receiving
      → Kept s
      → Kept (receive_pass G cfg kernel host listen_socket s)
  unfolding receive_pass
  receive_pass-Kept s at v =
      let buffer = replicate max_datagram_bytes 0 in
      let same = receive-delivered G cfg kernel host laws listen_socket buffer s.kernel in
      let r = receive kernel listen_socket buffer s.kernel in
      received_as-Kept r.0 r.1 (record s { kernel = r.2 }) at
        (record {
          counted = v.counted;
          balanced = v.balanced;
          at_most_twice = λ is. rw same (v.at_most_twice is);
          in_hand = λ e. rw same (v.in_hand e);
        })

-- ===== src/Impair/KeptSteps.antt =====
-- Every step of tools/impair.cpp keeps the counters and the copies in balance.
use rtp_audio_streamer.Base.{
  ℕ, ◌<◌, ◌≡◌, refl, arith, Bool, true, ◌⊎◌, inl, inr, some, List, length, get_or,
}
use rtp_audio_streamer.Host.{Host}
use rtp_audio_streamer.Udp.{Kernel, SocketError, UdpSocket, drop_socket}
use rtp_audio_streamer.Impair.{Config, Random}
use rtp_audio_streamer.Impair.Main.{
  SendAt, unsent, sending, sent, MainAt, receiving, forwarding, joining, exited, Proxy, send_step,
  forwarded_as, forward_step, thread_as, thread_step, is_alive, idle_holder, Step, Reach,
}
use rtp_audio_streamer.Impair.Copies.{
  left_at, of_test, pending_main, pending-set, Hands, drop_socket-delivered, HandsOver,
  send_step-HandsOver,
}
use rtp_audio_streamer.Impair.Kept.{settled, any, Kept, unwind-Kept, receive_pass-Kept}

module _ {Double R K : Type 0} (G : Random Double R) (cfg : Config Double) (kernel : Kernel K)
    (host : Host) (listen_socket : UdpSocket) {delivered : K → List (List ℕ)}
    (laws : Hands kernel host delivered) (k₀ : K) where
  abbrev pub Holds : Proxy K R → Type 0
  Holds = Kept G cfg kernel host listen_socket laws k₀

  -- The main thread goes on in its sends.
  moved-Kept :
      (d : List ℕ) (n : ℕ) (at at' : SendAt) (m : MainAt R) (k : K) (s : Proxy K R)
      → s.at ≡ forwarding d n at
      → ((is : List ℕ → Bool) → pending_main is m ≡ of_test is d (left_at n at'))
      → HandsOver G cfg kernel host laws d n at s.kernel (inr at', k)
      → Holds s
      → Holds (record s { kernel = k; at = m })
  moved-Kept d n at at' m k s here left h v =
      let on : settled s.at ≡ true = rw here refl in
      let mine : (is : List ℕ → Bool) → pending_main is s.at ≡ of_test is d (left_at n at) =
        λ is. rw here refl in
      record {
        counted = v.counted;
        balanced = v.balanced;
        at_most_twice = λ is. omega (arith, v.at_most_twice is, h is, mine is, left is);
        in_hand = λ e. omega (arith, v.in_hand on, h any, mine any, left any);
      }

  forwarded_as-Kept :
      (d : List ℕ) (n : ℕ) (at : SendAt) (r : (SocketError ⊎ SendAt) × K) (s : Proxy K R)
      → s.at ≡ forwarding d n at
      → HandsOver G cfg kernel host laws d n at s.kernel r
      → Holds s
      → Holds (forwarded_as G cfg kernel host listen_socket d n r s)
  forwarded_as-Kept d n at (inl e, k) s here h v =
      unwind-Kept G cfg kernel host listen_socket laws k₀ (record s { kernel = k })
        (record {
          counted = v.counted;
          balanced = v.balanced;
          at_most_twice = λ is. rw h (v.at_most_twice is);
          in_hand = λ e. rw h (v.in_hand e);
        })
  forwarded_as-Kept d n at (inr unsent, k) s here h v =
      moved-Kept d n at unsent (forwarding d n unsent) k s here (λ is. refl) h v
  forwarded_as-Kept d n at (inr (sending socket left), k) s here h v =
      moved-Kept d n at (sending socket left) (forwarding d n (sending socket left)) k s here
        (λ is. refl) h v
  forwarded_as-Kept d n at (inr sent, k) s here h v =
      moved-Kept d n at sent receiving k s here (λ is. none_left is) h v
    where
      none_left : (is : List ℕ → Bool) → 0 ≡ of_test is d 0
      none_left is = ground arith

  thread_as-Kept :
      (i : ℕ) (r : (SocketError ⊎ SendAt) × K) (s : Proxy K R)
      → is_alive s.at ≡ true
      → i < length s.in_flight
      → let t = get_or s.in_flight i idle_holder in
        HandsOver G cfg kernel host laws t.payload t.send_count t.at s.kernel r
        → Holds s
        → Holds (thread_as G cfg kernel host listen_socket i t r s)
  thread_as-Kept i (inl e, k) s alive below h v = record {
    counted = v.counted;
    balanced = v.balanced;
    at_most_twice = λ is. rw h (omega (arith, v.at_most_twice is));
    in_hand = λ e. absurd cc;
  }
  thread_as-Kept i (inr at, k) s alive below h v = record {
    counted = v.counted;
    balanced = v.balanced;
    at_most_twice =
        λ is. omega (arith, v.at_most_twice is, h is, pending-set is s.in_flight i at below);
    in_hand = λ e. omega (arith, v.in_hand e, h any, pending-set any s.in_flight i at below);
  }

  joined-Kept :
      (s : Proxy K R)
      → s.at ≡ joining
      → Holds s
      → Holds (record s {
        at = exited 0 (some s.tally);
        kernel = drop_socket kernel listen_socket s.kernel;
      })
  joined-Kept s at v =
      let same = drop_socket-delivered G cfg kernel host laws listen_socket s.kernel in
      let idle : (is : List ℕ → Bool) → pending_main is s.at ≡ 0 = λ is. rw at refl in
      let on : settled s.at ≡ true = rw at refl in
      record {
        counted = v.counted;
        balanced = v.balanced;
        at_most_twice = λ is. rw same (omega (arith, v.at_most_twice is));
        in_hand = λ e. rw same (omega (arith, v.in_hand on, idle any));
      }

  Step-Kept : {s t : Proxy K R} → Step G cfg kernel host listen_socket s t → Holds s → Holds t
  unfolding forward_step thread_step
  Step-Kept {s} (Step.arrive at) v =
      receive_pass-Kept G cfg kernel host listen_socket laws k₀ s at v
  Step-Kept {s} (Step.forward d n at here) v =
      forwarded_as-Kept d n at (send_step G cfg kernel host d n at s.kernel) s here
        (send_step-HandsOver G cfg kernel host laws d n at s.kernel) v
  Step-Kept {s} (Step.thread i alive below) v =
      let t = get_or s.in_flight i idle_holder in
      thread_as-Kept i (send_step G cfg kernel host t.payload t.send_count t.at s.kernel) s alive
        below (send_step-HandsOver G cfg kernel host laws t.payload t.send_count t.at s.kernel) v
  Step-Kept {s} (Step.joined at all) v = joined-Kept s at v

  pub Reach-Kept :
      {rng : R} {s : Proxy K R} → Reach G cfg kernel host listen_socket k₀ rng s → Holds s
  Reach-Kept Reach.start = record {
    counted = refl;
    balanced = refl;
    at_most_twice = λ is. omega arith;
    in_hand = λ e. omega arith;
  }
  Reach-Kept (Reach.next r st) = Step-Kept st (Reach-Kept r)

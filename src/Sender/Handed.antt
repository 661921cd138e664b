-- ===== src/Sender/Handed.antt =====
-- The loop of src/sender.cpp over its packets, and what it hands over to the system.
use Prim.Native.String.{String}
use mathlib.Core.List.{append_assoc, append-nil}
use rtp_audio_streamer.Base.{
  ℕ, zero, suc, ◌≡◌, refl, sym, ap, ◌∙◌, arith, true, false, Bool-cases, ◌==◌, ◌⊎◌, inl, inr,
  Option, none, some, List, [], ◌∷◌, ◌++◌, length, ltb, if◌then◌else◌, Option-cases,
}
use rtp_audio_streamer.Base.Int.{ℤ, pos, eqb_ℤ, pos_part}
use rtp_audio_streamer.Host.{Host}
use rtp_audio_streamer.Udp.{
  SockaddrIn, Kernel, SocketError, invalid_address, sendto_failed, UdpSocket, is_negative, send_to,
}
use rtp_audio_streamer.Sender.{Sender, send_frame, send_all}
use rtp_audio_streamer.Sender.Main.{Job, SendError, socket_error, after_send, transmit}

empty_not_lt : (n : ℕ) → (n == 0) ≡ true → ltb 0 n ≡ false
empty_not_lt n h = ground arith

more_lt : (n : ℕ) → (n == 0) ≡ false → ltb 0 n ≡ true
more_lt n h = ground arith

same_length : (n : ℕ) → (n == n) ≡ true
same_length n = ground arith

module _ {K : Type 0} (kernel : Kernel K) (host : Host) where
  -- Datagrams one after the other, up to the first that `send_to` throws at.
  unfoldable pub send_each : Job → UdpSocket → List (List ℕ) → K → Option SendError × K
  send_each job socket [] k = (none, k)
  send_each job socket (d ∷ ds) k =
      after_send (send_to kernel host socket d job.host job.port k)
        (λ k'. send_each job socket ds k')

  after_send-cong :
      (r : (SocketError ⊎ Unit {0}) × K) (f g : K → Option SendError × K)
      → ((k : K) → f k ≡ g k)
      → after_send r f ≡ after_send r g
  after_send-cong (inl e, k) f g h = refl
  after_send-cong (inr u, k) f g h = h k

  -- The loop sends the datagrams of `send_all`, where those are given.
  pub transmit_each :
      (job : Job) (socket : UdpSocket) (fuel : ℕ) (s : Sender) (k : K) (ds : List (List ℕ))
      → send_all host job.codec fuel s ≡ some ds
      → transmit kernel host job socket fuel s k ≡ send_each job socket ds k
  unfolding transmit send_each send_all
  transmit_each job socket zero s k ds e = absurd cc
  transmit_each job socket (suc fuel) s k ds e = elim (Bool-cases (length s.samples == 0)) [
    | inl over ↦
        let none_left : [] ≡ ds = cc (rw (send_all, over) at e) in
        rw (empty_not_lt (length s.samples) over, ← none_left) refl
    | inr more ↦ elim (Option-cases (send_frame host job.codec s)) [
      | inl thrown ↦ absurd (cc (rw (send_all, more, thrown) at e))
      | inr (p, sent) ↦ elim (Option-cases (send_all host job.codec fuel p.1)) [
        | inl out ↦ absurd (cc (rw (send_all, more, sent, out) at e))
        | inr (rest, others) ↦
            let all : (p.0 ∷ rest) ≡ ds = cc (rw (send_all, more, sent, others) at e) in
            rw (more_lt (length s.samples) more, sent, ← all)
              (after_send-cong (send_to kernel host socket p.0 job.host job.port k)
                (λ k'. transmit kernel host job socket fuel p.1 k')
                (λ k'. send_each job socket rest k')
                (λ k'. transmit_each job socket fuel p.1 k' rest others))
      ]
    ]
  ]

  -- What the system has been handed to send, and what its documentation says: `sendto` of a datagram
  -- socket fails, or takes the whole datagram.
  pub record Delivers (delivered : K → List (List ℕ)) : Type 0 where
    pub socket_keeps : (k : K) → delivered (kernel.socket k).1 ≡ delivered k
    pub close_keeps : (fd : ℤ) (k : K) → delivered (kernel.close fd k) ≡ delivered k
    pub sendto_whole :
        (fd : ℤ) (b : List ℕ) (a : SockaddrIn) (k : K)
        → is_negative (kernel.sendto fd b a k).0 ≡ false
        → pos_part (kernel.sendto fd b a k).0 ≡ length b
    pub sendto_delivers :
        (fd : ℤ) (b : List ℕ) (a : SockaddrIn) (k : K)
        → delivered (kernel.sendto fd b a k).1 ≡ (
            if is_negative (kernel.sendto fd b a k).0 then delivered k else delivered k ++ (b ∷ []))

  module _ {delivered : K → List (List ℕ)} (laws : Delivers delivered) where
    -- `send_to` throws and hands over nothing, or hands over the datagram.
    pub send_to-delivered :
        (socket : UdpSocket) (d : List ℕ) (name : String) (port : ℕ) (k : K)
        → let r = send_to kernel host socket d name port k in
          ((e : SocketError) × (r.0 ≡ inl e) × (delivered r.1 ≡ delivered k))
          ⊎ ((r.0 ≡ inr tt) × (delivered r.1 ≡ delivered k ++ (d ∷ [])))
    unfolding send_to
    send_to-delivered socket d name port k =
        elim (Bool-cases (eqb_ℤ (kernel.inet_pton name).0 (pos 1))) [
          | inr bad ↦ inl (invalid_address name, rw bad refl, rw bad refl)
          | inl known ↦
              let a : SockaddrIn = record {
                sin_family = kernel.af_inet;
                sin_port = host.htons port;
                s_addr = (kernel.inet_pton name).1;
              } in
              let handed = laws.sendto_delivers socket.fd d a k in
              elim (Bool-cases (is_negative (kernel.sendto socket.fd d a k).0)) [
                | inl failed ↦ inl (
                  sendto_failed (kernel.errno (kernel.sendto socket.fd d a k).1),
                  rw (known, failed) refl,
                  rw known (rw failed at handed),
                )
                | inr fine ↦
                    let whole = laws.sendto_whole socket.fd d a k fine in
                    inr (
                      rw (known, fine, whole, same_length (length d)) refl,
                      rw known (rw fine at handed),
                    )
              ]
        ]

    -- How a loop over datagrams may end: what was handed over, and what was not.
    abbrev pub Partly : List (List ℕ) → K → Option SendError × K → Type 0
    Partly ds k r =
        (sent : List (List ℕ)) × (rest : List (List ℕ)) × (ds ≡ sent ++ rest)
        × (delivered r.1 ≡ delivered k ++ sent)
        × (((r.0 ≡ none) × (rest ≡ [])) ⊎ ((e : SocketError) × (r.0 ≡ some (socket_error e))))

    -- A datagram handed over before the others.
    Partly-more :
        (d : List ℕ) (ds : List (List ℕ)) (k k' : K) (r : Option SendError × K)
        → delivered k' ≡ delivered k ++ (d ∷ [])
        → Partly ds k' r
        → Partly (d ∷ ds) k r
    Partly-more d ds k k' r one (sent, rest, all, handed, ending) = (
      d ∷ sent,
      rest,
      ap (λ t. d ∷ t) all,
      handed ∙ ap (λ t. t ++ sent) one ∙ append_assoc (delivered k) (d ∷ []) sent,
      ending,
    )

    pub send_each-Partly :
        (job : Job) (socket : UdpSocket) (ds : List (List ℕ)) (k : K)
        → Partly ds k (send_each job socket ds k)
    unfolding send_each
    send_each-Partly job socket [] k =
        ([], [], refl, sym (append-nil (delivered k)), inl (refl, refl))
    send_each-Partly job socket (d ∷ ds) k =
        go (send_to kernel host socket d job.host job.port k)
          (send_to-delivered socket d job.host job.port k) (λ k'. send_each-Partly job socket ds k')
      where
        go :
            (r : (SocketError ⊎ Unit {0}) × K)
            → (((e : SocketError) × (r.0 ≡ inl e) × (delivered r.1 ≡ delivered k))
                ⊎ ((r.0 ≡ inr tt) × (delivered r.1 ≡ delivered k ++ (d ∷ []))))
            → ((k' : K) → Partly ds k' (send_each job socket ds k'))
            → Partly (d ∷ ds) k (after_send r (λ k'. send_each job socket ds k'))
        go (inl e, k') (inl (e', same, kept)) others =
            ([], d ∷ ds, refl, kept ∙ sym (append-nil (delivered k)), inr (e, refl))
        go (inl e, k') (inr (same, kept)) others = absurd (cc same)
        go (inr u, k') (inl (e', same, kept)) others = absurd (cc same)
        go (inr u, k') (inr (same, one)) others =
            Partly-more d ds k k' (send_each job socket ds k') one (others k')

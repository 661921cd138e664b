-- ===== src/Udp/Lifetime.antt =====
-- The lifetime of a socket of src/udp_socket.cpp in a block such as that of the sender and of the receiver: it is
-- made, used and destroyed, also where a call throws.
use Prim.Native.String.{String}
use rtp_audio_streamer.Base.{
  ℕ, ◌≡◌, ◌∙◌, refl, sym, ap, arith, Bool, true, false, Bool-cases, ◌⊎◌, inl, inr, Option, none,
  some, List, [], ◌∷◌, if◌then◌else◌,
}
use rtp_audio_streamer.Base.Int.{ℤ, pos, eqb_ℤ, eq_of_parts}
use rtp_audio_streamer.Host.{Host}
use rtp_audio_streamer.Udp.{
  SockaddrIn, Timeval, Kernel, SocketError, UdpSocket, is_negative, new_socket, drop_socket,
}
use rtp_audio_streamer.Udp

-- A call of a member function.
pub data Call : Type 0 where
  bind_to : (port : ℕ) → Call
  set_receive_timeout : (timeout_ms : ℤ) → Call
  receive : (buffer : List ℕ) → Call
  send_to : (buffer : List ℕ) (host : String) (port : ℕ) → Call

eqb_ℤ_eq : (a b : ℤ) → eqb_ℤ a b ≡ true → a ≡ b
eqb_ℤ_eq a b h = eq_of_parts a b (ground arith)

abbrev thrown : {A : Type 0} → SocketError ⊎ A → Option SocketError
thrown (inl e) = some e
thrown (inr a) = none

-- An error ends the calls; `k` is the system where it is thrown.
abbrev unless :
    {K : Type 0} → Option SocketError → Option SocketError × K → K → Option SocketError × K
unless none rest k = rest
unless (some e) rest k = (some e, k)

module _ {K : Type 0} (kernel : Kernel K) (host : Host) where
  abbrev pub call : UdpSocket → Call → K → Option SocketError × K
  call socket (Call.bind_to port) k =
      let (r, k') = Udp.bind_to kernel host socket port k in (thrown r, k')
  call socket (Call.set_receive_timeout ms) k =
      let (r, k') = Udp.set_receive_timeout kernel socket ms k in (thrown r, k')
  call socket (Call.receive buffer) k =
      let (r, b, k') = Udp.receive kernel socket buffer k in (thrown r, k')
  call socket (Call.send_to buffer name port) k =
      let (r, k') = Udp.send_to kernel host socket buffer name port k in (thrown r, k')

  -- The calls in order, up to the first that throws.
  unfoldable pub run_calls : UdpSocket → List Call → K → Option SocketError × K
  run_calls socket [] k = (none, k)
  run_calls socket (c ∷ cs) k =
      let (thrown, k') = call socket c k in unless thrown (run_calls socket cs k') k'

  -- The block: what it throws, if anything, and the system after it.
  unfoldable pub session : List Call → K → Option SocketError × K
  session cs k =
      let (made, k') = new_socket kernel k in
      elim made [
        | inl e ↦ (some e, k')
        | inr socket ↦
            let (thrown, k'') = run_calls socket cs k' in (thrown, drop_socket kernel socket k'')
      ]

  -- What POSIX says of descriptors: `socket` gives one that was not open, or a negative number;
  -- `close` closes its argument; the others leave them alone.
  pub record IsPosix (is_open : K → ℤ → Bool) : Type 0 where
    pub socket_fresh :
        (k : K) → is_negative (kernel.socket k).0 ≡ false → is_open k (kernel.socket k).0 ≡ false
    pub socket_opens :
        (k : K) (d : ℤ)
        → is_open (kernel.socket k).1 d ≡ (
            if is_negative (kernel.socket k).0
            then is_open k d
            else (if eqb_ℤ d (kernel.socket k).0 then true else is_open k d))
    pub close_closes :
        (fd : ℤ) (k : K) (d : ℤ)
        → is_open (kernel.close fd k) d ≡ (if eqb_ℤ d fd then false else is_open k d)
    pub bind_keeps :
        (fd : ℤ) (a : SockaddrIn) (k : K) (d : ℤ) → is_open (kernel.bind fd a k).1 d ≡ is_open k d
    pub set_rcvtimeo_keeps :
        (fd : ℤ) (t : Timeval) (k : K) (d : ℤ)
        → is_open (kernel.set_rcvtimeo fd t k).1 d ≡ is_open k d
    pub recvfrom_keeps :
        (fd : ℤ) (b : List ℕ) (k : K) (d : ℤ) → is_open (kernel.recvfrom fd b k).2 d ≡ is_open k d
    pub sendto_keeps :
        (fd : ℤ) (b : List ℕ) (a : SockaddrIn) (k : K) (d : ℤ)
        → is_open (kernel.sendto fd b a k).1 d ≡ is_open k d

  module _ {is_open : K → ℤ → Bool} (posix : IsPosix is_open) where
    call-is_open :
        (socket : UdpSocket) (c : Call) (k : K) (d : ℤ)
        → is_open (call socket c k).1 d ≡ is_open k d
    unfolding Udp.bind_to Udp.set_receive_timeout Udp.receive Udp.send_to
    call-is_open socket (Call.bind_to port) k d = posix.bind_keeps socket.fd _ k d
    call-is_open socket (Call.set_receive_timeout ms) k d = posix.set_rcvtimeo_keeps socket.fd _ k d
    call-is_open socket (Call.receive buffer) k d = posix.recvfrom_keeps socket.fd buffer k d
    call-is_open socket (Call.send_to buffer name port) k d =
        elim (Bool-cases (eqb_ℤ (kernel.inet_pton name).0 (pos 1))) [
          | inl known ↦ rw known (posix.sendto_keeps socket.fd buffer _ k d)
          | inr bad ↦ rw bad refl
        ]

    run_calls-is_open :
        (socket : UdpSocket) (cs : List Call) (k : K) (d : ℤ)
        → is_open (run_calls socket cs k).1 d ≡ is_open k d
    unfolding run_calls
    run_calls-is_open socket [] k d = refl
    run_calls-is_open socket (c ∷ cs) k d =
        either (call socket c k).0 (run_calls socket cs (call socket c k).1) (call socket c k).1
          (run_calls-is_open socket cs (call socket c k).1 d ∙ call-is_open socket c k d)
          (call-is_open socket c k d)
      where
        either :
            (thrown : Option SocketError) (rest : Option SocketError × K) (k' : K)
            → is_open rest.1 d ≡ is_open k d
            → is_open k' d ≡ is_open k d
            → is_open (unless thrown rest k').1 d ≡ is_open k d
        either none rest k' more now = more
        either (some e) rest k' more now = now

    -- A socket that was opened is closed again.
    closed :
        (fd : ℤ) (cs : List Call) (k k' : K) (d : ℤ)
        → is_open k fd ≡ false
        → is_open k' d ≡ (if eqb_ℤ d fd then true else is_open k d)
        → is_open (kernel.close fd (run_calls (record { fd = fd }) cs k').1) d ≡ is_open k d
    closed fd cs k k' d fresh opened =
        let same = run_calls-is_open (record { fd = fd }) cs k' d in
        let shut = posix.close_closes fd (run_calls (record { fd = fd }) cs k').1 d in
        elim (Bool-cases (eqb_ℤ d fd)) [
          | inl this ↦ (rw this at shut) ∙ sym fresh ∙ ap (is_open k) (sym (eqb_ℤ_eq d fd this))
          | inr other ↦ (rw other at shut) ∙ same ∙ (rw other at opened)
        ]

    -- Under the laws of POSIX, the block leaves the same descriptors open as before it, whatever
    -- calls it makes, and whether it ends, a call throws or the socket is not made.
    pub session-is_open :
        (cs : List Call) (k : K) (d : ℤ) → is_open (session cs k).1 d ≡ is_open k d
    unfolding session new_socket drop_socket
    session-is_open cs k d = elim (Bool-cases (is_negative (kernel.socket k).0)) [
      | inl none_made ↦ rw (session, none_made) (rw none_made at (posix.socket_opens k d))
      | inr made ↦
          rw (session, made, made)
            (closed (kernel.socket k).0 cs k (kernel.socket k).1 d (posix.socket_fresh k made)
              (rw made at (posix.socket_opens k d)))
    ]

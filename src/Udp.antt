-- ===== src/Udp.antt =====
-- src/udp_socket.cpp: the wrapper of a POSIX datagram socket. The system calls are a parameter; a
-- result that is negative comes with `errno`.
pub mod Lifetime
pub mod Listen
mod Tests
use Prim.Native.String.{String}
use rtp_audio_streamer.Base.{
  ℕ, ◌*◌, ◌/◌, ◌%◌, ◌≡◌, Bool, true, false, ◌&&◌, ◌||◌, not, ◌⊎◌, inl, inr, List, [], ◌∷◌, length,
  ◌==◌, if◌then◌else◌,
}
use rtp_audio_streamer.Base.Int.{ℤ, pos, negsuc, pos_part, neg_part, sub_ℕ, ltb_ℤ, eqb_ℤ, divide}
use rtp_audio_streamer.Host.{Host}

pub record SockaddrIn : Type 0 where
  pub sin_family : ℕ
  pub sin_port : ℕ
  pub s_addr : ℕ

pub record Timeval : Type 0 where
  pub tv_sec : ℤ
  pub tv_usec : ℤ

-- The calls of <sys/socket.h>, <arpa/inet.h> and <unistd.h> on a state `K` of the system.
-- `recvfrom` takes the buffer and gives it back with what it stored.
pub record Kernel (K : Type 0) : Type 0 where
  pub af_inet : ℕ
  pub inaddr_any : ℕ
  pub eagain : ℕ
  pub ewouldblock : ℕ
  pub errno : K → ℕ
  pub socket : K → ℤ × K
  pub close : ℤ → K → K
  pub bind : ℤ → SockaddrIn → K → ℤ × K
  pub set_rcvtimeo : ℤ → Timeval → K → ℤ × K
  pub recvfrom : ℤ → List ℕ → K → ℤ × List ℕ × K
  pub inet_pton : String → ℤ × ℕ
  pub sendto : ℤ → List ℕ → SockaddrIn → K → ℤ × K

-- What is thrown, with the `errno` that the message shows.
pub data SocketError : Type 0 where
  socket_failed : (errno : ℕ) → SocketError
  bind_failed : (errno : ℕ) → SocketError
  setsockopt_failed : (errno : ℕ) → SocketError
  recvfrom_failed : (errno : ℕ) → SocketError
  invalid_address : (host : String) → SocketError
  sendto_failed : (errno : ℕ) → SocketError

pub record UdpSocket : Type 0 where
  pub fd : ℤ

abbrev pub is_negative : ℤ → Bool
is_negative a = ltb_ℤ a (pos 0)

-- `a % n` of C++, with the sign of `a`.
abbrev pub remainder : ℤ → ℕ → ℤ
remainder a n = sub_ℕ (pos_part a % n) (neg_part a % n)

unfoldable pub timeval_of : ℤ → Timeval
timeval_of timeout_ms = record {
  tv_sec = divide timeout_ms 1000;
  tv_usec =
      let rest = remainder timeout_ms 1000 in sub_ℕ (pos_part rest * 1000) (neg_part rest * 1000);
}

module _ {K : Type 0} (kernel : Kernel K) where
  -- The constructor.
  unfoldable pub new_socket : K → (SocketError ⊎ UdpSocket) × K
  new_socket k =
      let (fd, k') = kernel.socket k in
      (
        if is_negative fd then inl (socket_failed (kernel.errno k')) else inr (record { fd = fd }),
        k',
      )

  -- The destructor.
  unfoldable pub drop_socket : UdpSocket → K → K
  drop_socket socket k = if is_negative socket.fd then k else kernel.close socket.fd k

  unfoldable pub set_receive_timeout : UdpSocket → ℤ → K → (SocketError ⊎ Unit {0}) × K
  set_receive_timeout socket timeout_ms k =
      let (r, k') = kernel.set_rcvtimeo socket.fd (timeval_of timeout_ms) k in
      (if is_negative r then inl (setsockopt_failed (kernel.errno k')) else inr tt, k')

  -- The result, the buffer afterwards, and the system.
  unfoldable pub receive : UdpSocket → List ℕ → K → (SocketError ⊎ ℤ) × List ℕ × K
  receive socket buffer k =
      let (n, buffer', k') = kernel.recvfrom socket.fd buffer k in
      (
        if is_negative n
            then (if kernel.errno k' == kernel.eagain || kernel.errno k' == kernel.ewouldblock
                then inr (negsuc 0)
                else inl (recvfrom_failed (kernel.errno k')))
            else inr n,
        buffer',
        k',
      )

  module _ (host : Host) where
    unfoldable pub bind_to : UdpSocket → ℕ → K → (SocketError ⊎ Unit {0}) × K
    bind_to socket port k =
        let addr : SockaddrIn = record {
          sin_family = kernel.af_inet;
          sin_port = host.htons port;
          s_addr = host.htonl kernel.inaddr_any;
        } in
        let (r, k') = kernel.bind socket.fd addr k in
        (if is_negative r then inl (bind_failed (kernel.errno k')) else inr tt, k')

    unfoldable pub send_to : UdpSocket → List ℕ → String → ℕ → K → (SocketError ⊎ Unit {0}) × K
    send_to socket buffer name port k =
        let (ok, s_addr) = kernel.inet_pton name in
        let addr : SockaddrIn = record {
          sin_family = kernel.af_inet;
          sin_port = host.htons port;
          s_addr = s_addr;
        } in
        let (n, k') = kernel.sendto socket.fd buffer addr k in
        if eqb_ℤ ok (pos 1)
        then (
          if is_negative n || not (pos_part n == length buffer)
              then inl (sendto_failed (kernel.errno k'))
              else inr tt,
          k',
        )
        else (inl (invalid_address name), k)

-- ===== src/Udp/Listen.antt =====
-- The socket that src/receiver.cpp and tools/impair.cpp open to listen on a port.
use rtp_audio_streamer.Base.{ℕ, ◌⊎◌, inl, inr}
use rtp_audio_streamer.Base.Int.{ℤ}
use rtp_audio_streamer.Host.{Host}
use rtp_audio_streamer.Udp.{
  Kernel, SocketError, UdpSocket, new_socket, drop_socket, bind_to, set_receive_timeout,
}

module _ {K : Type 0} (kernel : Kernel K) (host : Host) where
  -- An error closes the socket again.
  abbrev pub close_on_error :
      UdpSocket → (SocketError ⊎ Unit {0}) × K → (SocketError ⊎ UdpSocket) × K
  close_on_error socket (inl e, k) = (inl e, drop_socket kernel socket k)
  close_on_error socket (inr u, k) = (inr socket, k)

  abbrev pub if_bound : UdpSocket → ℤ → (SocketError ⊎ Unit {0}) × K → (SocketError ⊎ UdpSocket) × K
  if_bound socket timeout_ms (inl e, k) = (inl e, drop_socket kernel socket k)
  if_bound socket timeout_ms (inr u, k) =
      close_on_error socket (set_receive_timeout kernel socket timeout_ms k)

  unfoldable pub listen : ℕ → ℤ → K → (SocketError ⊎ UdpSocket) × K
  listen port timeout_ms k =
      let (made, k') = new_socket kernel k in
      elim made [
        | inl e ↦ (inl e, k')
        | inr socket ↦ if_bound socket timeout_ms (bind_to kernel host socket port k')
      ]

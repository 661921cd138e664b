-- ===== src/Udp/Tests.antt =====
-- A system with one descriptor to give, in which nothing can be bound.
use rtp_audio_streamer.Base.{◌≡◌, refl, arith, Bool, true, false, [], ◌∷◌, length, if◌then◌else◌}
use rtp_audio_streamer.Base.Int.{ℤ, pos, negsuc, eqb_ℤ}
use rtp_audio_streamer.Host.{little_endian}
use rtp_audio_streamer.Udp.{Kernel, is_negative}
use rtp_audio_streamer.Udp.Lifetime.{Call, session, IsPosix, session-is_open}

abbrev one_descriptor : Kernel Bool
one_descriptor = record {
  af_inet = 2;
  inaddr_any = 0;
  eagain = 11;
  ewouldblock = 11;
  errno = λ k. 98;
  socket = λ k. (if k then negsuc 0 else pos 3, true);
  close = λ fd k. if eqb_ℤ (pos 3) fd then false else k;
  bind = λ fd a k. (negsuc 0, k);
  set_rcvtimeo = λ fd t k. (pos 0, k);
  recvfrom = λ fd b k. (pos 0, b, k);
  inet_pton = λ name. (pos 1, 0);
  sendto = λ fd b a k. (pos (length b), k);
}

abbrev is_open : Bool → ℤ → Bool
is_open k d = if eqb_ℤ d (pos 3) then k else false

one_descriptor-IsPosix : IsPosix one_descriptor little_endian is_open
one_descriptor-IsPosix = record {
  socket_fresh = fresh;
  socket_opens = opens;
  close_closes = closes;
  bind_keeps = λ fd a k d. refl;
  set_rcvtimeo_keeps = λ fd t k d. refl;
  recvfrom_keeps = λ fd b k d. refl;
  sendto_keeps = λ fd b a k d. refl;
}
  where
    fresh :
        (k : Bool)
        → is_negative (one_descriptor.socket k).0 ≡ false
        → is_open k (one_descriptor.socket k).0 ≡ false
    fresh true h = absurd cc
    fresh false h = refl

    opens :
        (k : Bool) (d : ℤ)
        → is_open true d ≡ (
            if is_negative (one_descriptor.socket k).0
            then is_open k d
            else (if eqb_ℤ d (one_descriptor.socket k).0 then true else is_open k d))
    opens true d = refl
    opens false d = ground arith

    closes :
        (fd : ℤ) (k : Bool) (d : ℤ)
        → is_open (one_descriptor.close fd k) d ≡ (if eqb_ℤ d fd then false else is_open k d)
    closes fd k d = ground arith

session-is_open_example :
    (session one_descriptor little_endian
      (Call.set_receive_timeout (pos 200) ∷ Call.bind_to 5004 ∷ Call.receive (0 ∷ []) ∷ [])
      false).1
    ≡ false
session-is_open_example =
    session-is_open one_descriptor little_endian one_descriptor-IsPosix
      (Call.set_receive_timeout (pos 200) ∷ Call.bind_to 5004 ∷ Call.receive (0 ∷ []) ∷ []) false
      (pos 3)

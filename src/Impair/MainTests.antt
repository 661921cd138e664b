-- ===== src/Impair/MainTests.antt =====
-- A proxy that holds a datagram and sends it twice, over a system that gives it and then times out.
use Prim.Native.String.{String}
use rtp_audio_streamer.Base.{
  ℕ, ◌≡◌, ◌⊎◌, refl, arith, none, some, List, [], ◌∷◌, ◌++◌, length, if◌then◌else◌,
}
use rtp_audio_streamer.Base.Int.{ℤ, pos, negsuc}
use rtp_audio_streamer.Host.{little_endian}
use rtp_audio_streamer.Fixtures.{counting}
use rtp_audio_streamer.Udp.{
  Kernel, UdpSocket, is_negative, new_socket, bind_to, set_receive_timeout, drop_socket, receive,
  send_to,
}
use rtp_audio_streamer.Udp.Listen.{listen}
use rtp_audio_streamer.Impair.{Config, jitter_delay}
use rtp_audio_streamer.Impair.Args.{parse_args, set_option, flag_of}
use rtp_audio_streamer.Impair.Main.{
  exited, Proxy, send_step, receive_pass, thread_step, Step, Reach, default_config, Outcome,
}
use rtp_audio_streamer.Impair.Decide.{Tally, plan, decide}
use rtp_audio_streamer.Impair.Copies.{Hands}
use rtp_audio_streamer.Impair.Ending.{Told, proxy_exit}

-- The datagrams that wait, and those handed over.
abbrev Wires : Type 0
Wires = List (List ℕ) × List (List ℕ)

abbrev take_in : List (List ℕ) → List ℕ → List (List ℕ) → ℤ × List ℕ × Wires
take_in [] b out = (negsuc 0, b, ([], out))
take_in (d ∷ ds) b out = (pos (length d), d, (ds, out))

abbrev wires : Kernel Wires
wires = record {
  af_inet = 2;
  inaddr_any = 0;
  eagain = 11;
  ewouldblock = 11;
  errno = λ k. 11;
  socket = λ k. (pos 3, k);
  close = λ fd k. k;
  bind = λ fd a k. (pos 0, k);
  set_rcvtimeo = λ fd t k. (pos 0, k);
  recvfrom = λ fd b k. take_in k.0 b k.1;
  inet_pton = λ name. (pos 1, 0);
  sendto = λ fd b a k. (pos (length b), (k.0, k.1 ++ (b ∷ [])));
}

abbrev handed_over : Wires → List (List ℕ)
handed_over k = k.1

wires-Hands : Hands wires little_endian handed_over
wires-Hands = record {
  sends = record {
    socket_keeps = λ k. refl;
    close_keeps = λ fd k. refl;
    sendto_whole = λ fd b a k h. refl;
    sendto_delivers = λ fd b a k. taken b k;
  };
  recvfrom_keeps = λ fd b k. left (k.0) b (k.1);
  bind_keeps = λ fd a k. refl;
  set_rcvtimeo_keeps = λ fd t k. refl;
}
  where
    taken :
        (b : List ℕ) (k : Wires)
        → k.1 ++ (b ∷ []) ≡ (if is_negative (pos (length b)) then k.1 else k.1 ++ (b ∷ []))
    taken b k = ground arith

    left :
        (inbox : List (List ℕ)) (b : List ℕ) (out : List (List ℕ)) → (take_in inbox b out).2.1 ≡ out
    left [] b out = refl
    left (d ∷ ds) b out = refl

abbrev argv : List String
argv = "--dup" ∷ "1" ∷ "--jitter" ∷ "3" ∷ []

abbrev number_of : String → ℤ
number_of text = pos 3

abbrev before : Wires
before = ((5 ∷ 6 ∷ []) ∷ [], [])

abbrev config : Config ℕ
config = record (default_config 0) { dup = 10; jitter_ms = pos 3 }

abbrev socket : UdpSocket
socket = record { fd = pos 3 }

abbrev Reached : Proxy Wires ℕ → Type 0
Reached = Reach counting config wires little_endian socket before 0

abbrev after :
    {s t : Proxy Wires ℕ}
    → Reached s
    → Step counting config wires little_endian socket s t
    → Reached t
after r st = Reach.next r st

exited_run : (s : Proxy Wires ℕ) × Reached s × (t : Tally ℕ) × (s.at ≡ exited 0 (some t))
unfolding plan decide jitter_delay send_step receive_pass thread_step new_socket receive send_to
    drop_socket
exited_run =
    let held = after Reach.start (Step.arrive refl) in
    let opened = after held (Step.thread 0 refl (omega arith)) in
    let once = after opened (Step.thread 0 refl (omega arith)) in
    let twice = after once (Step.thread 0 refl (omega arith)) in
    let ended = after twice (Step.thread 0 refl (omega arith)) in
    let idle = after ended (Step.arrive refl) in
    (_, after idle (Step.joined refl (refl, tt)), _, refl)

abbrev exit_status : ℕ
exit_status = 0

outcome :
    Outcome counting
      (λ seed. 0)
      0
      number_of
      (λ text. 10)
      wires
      little_endian
      argv
      before
      (exited exit_status (some (exited_run.2)))
      exited_run.0.kernel
      exited_run.0.arrived
unfolding parse_args set_option flag_of listen new_socket bind_to set_receive_timeout
outcome =
    Outcome.ran {cfg = config} {socket = socket} refl refl (exited_run.1) (exited_run.3) refl refl

proxy_exit_example :
    ((exit_status ≡ 1) × (some (exited_run.2) ≡ none))
    ⊎ ((exit_status ≡ 0)
        × (t : Tally ℕ) × (some (exited_run.2) ≡ some t)
        × Told t exited_run.0.arrived (handed_over before) (handed_over exited_run.0.kernel))
proxy_exit_example =
    proxy_exit counting wires little_endian wires-Hands (λ seed. 0) 0 number_of (λ text. 10)
      (some (exited_run.2)) outcome

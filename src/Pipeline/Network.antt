-- ===== src/Pipeline/Network.antt =====
-- The sender, the proxy of tools/impair.cpp and the three threads of the receiver: what can be
-- played when datagrams are lost, delayed, reordered and sent twice.
use rtp_audio_streamer.Base.{
  ℕ, zero, suc, ◌+◌, ◌%◌, ◌^◌, ◌≤◌, ◌<◌, ◌≡◌, refl, sym, ap, ◌∙◌, arith, some, List, [], ◌∷◌,
  length, All, All_weaken, u16,
}
use mathlib.Core.Path.{subst}
use mathlib.Core.List.{Memᴰ}
use mathlib.Core.List.Memᴰ
use rtp_audio_streamer.Base.Int.{ℤ, IsI16}
use rtp_audio_streamer.Host.{Host}
use rtp_audio_streamer.Packet.{ParsedPacket, parse}
use rtp_audio_streamer.Jitter.{Arithmetic, Options, Slot}
use rtp_audio_streamer.Jitter.Push.{filled}
use rtp_audio_streamer.Jitter.Decode.{silence, decode_slot, pad_frame, faded}
use rtp_audio_streamer.Jitter.Origin.{Played}
use rtp_audio_streamer.Sender.{CodecName, Sender, send_all}
use rtp_audio_streamer.Sender.Payload.{IsWhole, reproduced}
use rtp_audio_streamer.Sender.Schedule.{
  tabulate, frame_count, frame_at, state_at, header_at, payload_at, packet_at,
}
use rtp_audio_streamer.Sender.Pass.{IsSender}
use rtp_audio_streamer.Sender.Stream.{send_all-packets, parse-packet_at}
use rtp_audio_streamer.Impair.{Config, Random}
use rtp_audio_streamer.Impair.Passes.{Reach-Passes}
use rtp_audio_streamer.Impair.Threads as Proxy
use rtp_audio_streamer.Receiver.{Timespec}
use rtp_audio_streamer.Receiver.Playout.{arrival_of}
use rtp_audio_streamer.Receiver.Threads.{System, Reach}
use rtp_audio_streamer.Receiver.Provenance.{heard, frame_given, Reach-Played}
use rtp_audio_streamer.Pipeline.Heard.{slot_lem}

Memᴰ-tabulate :
    {A : Type 0} (n : ℕ) (f : ℕ → A) (x : A) → Memᴰ x (tabulate n f) → (i : ℕ) × (i < n) × (x ≡ f i)
Memᴰ-tabulate zero f x m = absurd (Memᴰ.not-nil m)
Memᴰ-tabulate (suc n) f x (Memᴰ.head e) = (0, omega arith, e)
Memᴰ-tabulate (suc n) f x (Memᴰ.tail m) =
    let (i, below, e) = Memᴰ-tabulate n (λ j. f (suc j)) x m in (suc i, omega arith, e)

mem-All : (P : List ℕ → Type 0) (xs : List (List ℕ)) (x : List ℕ) → All P xs → Memᴰ x xs → P x
mem-All P [] x h m = absurd (Memᴰ.not-nil m)
mem-All P (y ∷ xs) x h (Memᴰ.head e) = subst P (sym e) (h.0)
mem-All P (y ∷ xs) x h (Memᴰ.tail m) = mem-All P xs x h.1 m

module _ {Double : Type 0} (host : Host) (F : Arithmetic Double) (codec : CodecName)
    (s : Sender) where
  -- Frame `i` of the sender's input, as the codec reproduces it.
  abbrev pub sounded : ℕ → List ℤ
  sounded i = pad_frame (reproduced host codec (frame_at s.samples i) (state_at codec s i))

  -- What may be played for a sequence number: the sender's frame of that number, silence, or one of
  -- the three fades of a frame of the sender.
  pub data Genuine (sequence_number : ℕ) (frame : List ℤ) : Type 0 where
    own :
        (i : ℕ)
        → i < frame_count s.samples
        → (s.header.sequence_number + i) % 2 ^ 16 ≡ sequence_number
        → frame ≡ sounded i
        → Genuine sequence_number frame
    silent : frame ≡ silence → Genuine sequence_number frame
    fade :
        (n i : ℕ)
        → 0 < n
        → n ≤ 3
        → i < frame_count s.samples
        → frame ≡ faded F n (sounded i)
        → Genuine sequence_number frame

  -- A datagram of the sender, and what it leaves in a slot.
  abbrev IsSent : List ℕ → Type 0
  IsSent d = (i : ℕ) × (i < frame_count s.samples) × (d ≡ packet_at host codec s i)

  abbrev IsOwn : Slot → Type 0
  IsOwn slot =
      (i : ℕ) × (i < frame_count s.samples)
      × ((s.header.sequence_number + i) % 2 ^ 16 ≡ slot.sequence_number)
      × (decode_slot host slot ≡ sounded i)

  IsSent-IsOwn :
      IsSender codec s
      → All IsI16 s.samples
      → ((i : ℕ) → i < frame_count s.samples → IsWhole host codec (frame_at s.samples i))
      → (d : List ℕ) (p : ParsedPacket) (now : ℕ) → IsSent d
      → parse host d ≡ some p
      → IsOwn (filled (arrival_of host F p now))
  IsSent-IsOwn v h whole d p now (i, below, e) parsed =
      let own : record { header = header_at s i; payload = payload_at host codec s i } ≡ p =
        cc (parse-packet_at host codec host i s v, e, parsed) in
      subst (λ q. IsOwn (filled (arrival_of host F q now))) own
        (i, below, refl, slot_lem host F codec s i now v h (whole i below))

  Played-Genuine : (n : ℕ) (frame : List ℤ) → Played host F IsOwn n frame → Genuine n frame
  Played-Genuine n frame (Played.own r e) =
      let (i, below, number, sound) = r.good in Genuine.own i below (number ∙ e) (r.decoded ∙ sound)
  Played-Genuine n frame (Played.silent e) = Genuine.silent e
  Played-Genuine n frame (Played.fade k last there few r e) =
      let (i, below, number, sound) = r.good in
      Genuine.fade k i there few below (e ∙ ap (faded F k) (r.decoded ∙ sound))

  -- The datagrams of a sender go through the proxy, which may lose, delay, reorder and duplicate them,
  -- and what it has sent reaches a receiver of the sender's byte order, any of it any number of times
  -- and in any order. In every interleaving of the threads of both, each frame that the receiver has
  -- given to be played is one of three: at its place from the first sequence number on, the sender's
  -- frame with that sequence number modulo 2^16, as the codec reproduces it; silence; or one of the
  -- first three fades of a frame of the sender. (In ADPCM, the samples of every frame are even in
  -- number.)
  pub given-Genuine :
      {Real R : Type 0} (G : Random Real R) (cfg : Config Real) (process_start : Timespec)
      (idle_timeout_ms : ℤ) (fuel : ℕ) (datagrams : List (List ℕ)) {rng : R} {net : Proxy.System R}
      {options : Options} {t : System Double}
      → IsSender codec s
      → All IsI16 s.samples
      → ((i : ℕ) → i < frame_count s.samples → IsWhole host codec (frame_at s.samples i))
      → frame_count s.samples < fuel
      → send_all host codec fuel s ≡ some datagrams
      → Proxy.Reach G cfg rng net
      → All (λ d. Memᴰ d datagrams) net.arrived
      → (r : Reach host F process_start idle_timeout_ms options t)
      → All (λ d. Memᴰ d net.proxy.sent) (heard host F process_start idle_timeout_ms r)
      → (k : ℕ) → k < length t.given
      → Genuine (u16 (t.jbuf.base_sequence + k)) (frame_given t.given k)
  given-Genuine G cfg process_start idle_timeout_ms fuel datagrams {net = net} {t = t} v h whole
        enough sent net_run from r received k below =
      let all : datagrams ≡ tabulate (frame_count s.samples) (packet_at host codec s) =
        cc (sent, send_all-packets host codec fuel s v enough) in
      let is_sent : (d : List ℕ) → Memᴰ d datagrams → IsSent d =
        λ d m. Memᴰ-tabulate (frame_count s.samples) (packet_at host codec s) d (rw (← all) m) in
      let arrived = All_weaken (λ d. Memᴰ d datagrams) IsSent net.arrived is_sent from in
      let passed = (Reach-Passes G cfg IsSent net_run arrived).0 in
      let hears =
        All_weaken (λ d. Memᴰ d net.proxy.sent) IsSent
          (heard host F process_start idle_timeout_ms r)
          (λ d m. mem-All IsSent net.proxy.sent d passed m) received in
      Played-Genuine (u16 (t.jbuf.base_sequence + k)) (frame_given t.given k) (
        Reach-Played host F process_start idle_timeout_ms IsOwn IsSent (IsSent-IsOwn v h whole) r
          hears k below)

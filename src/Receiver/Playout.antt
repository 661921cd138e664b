-- ===== src/Receiver/Playout.antt =====
-- The two passes of src/receiver.cpp that hold the mutex of the jitter buffer: what the receive
-- thread makes of a datagram, and the loop in which the playout thread takes the frames that are due.
use rtp_audio_streamer.Base.{
  ℕ, zero, suc, ◌+◌, ◌^◌, ◌<◌, ◌≡◌, arith, true, Bool-cases, inl, inr, Option, none, some, List,
  u64, if◌then◌else◌,
}
use rtp_audio_streamer.Base.Int.{ℤ}
use rtp_audio_streamer.Host.{Host}
use rtp_audio_streamer.Packet.{ParsedPacket, parse}
use rtp_audio_streamer.Ring.{SpscRingBuffer}
use rtp_audio_streamer.Ring
use rtp_audio_streamer.Jitter.{Arithmetic, JitterBuffer}
use rtp_audio_streamer.Jitter.Push.{Arrival}
use rtp_audio_streamer.Jitter.Push
use rtp_audio_streamer.Jitter.Decode.{silence}
use rtp_audio_streamer.Jitter.Pull.{
  is_due, finished, has_packet, play, lose, try_pull_due_frame, pull_not_due, pull_play, pull_lose,
}
use rtp_audio_streamer.Jitter.Inv.{Inv, few_played}
use rtp_audio_streamer.Jitter.Keep.{pull-Inv}
use rtp_audio_streamer.Jitter.Playback.{pull-kept}

abbrev pub ring_capacity : ℕ
ring_capacity = 1024

-- What the playout thread works on; a frame is its samples.
pub record Playout (Double : Type 0) : Type 0 where
  pub jbuf : JitterBuffer Double
  pub ring : SpscRingBuffer (List ℤ)
  pub underruns : ℕ

module _ {Double : Type 0} (host : Host) (F : Arithmetic Double) where
  -- The arguments of `push` for a packet that was parsed.
  abbrev pub arrival_of : ParsedPacket → ℕ → Arrival
  arrival_of p now_samples = record {
    sequence_number = p.header.sequence_number;
    rtp_timestamp = p.header.timestamp;
    payload_type = p.header.payload_type;
    payload = p.payload;
    arrival_samples = now_samples;
  }

  -- A datagram received: the buffer afterwards, and the count of malformed ones.
  unfoldable pub receive_datagram : List ℕ → ℕ → JitterBuffer Double → ℕ → JitterBuffer Double × ℕ
  receive_datagram datagram now_samples jbuf malformed_dropped = elim (parse host datagram) [
    | none ↦ (jbuf, u64 (malformed_dropped + 1))
    | some p ↦ (Push.push F (arrival_of p now_samples) jbuf, malformed_dropped)
  ]

  -- The frame goes to the ring, or is counted as an underrun if the ring is full.
  unfoldable pub hand_over : List ℤ → JitterBuffer Double → Playout Double → Playout Double
  hand_over frame jbuf p =
      let (pushed, ring) = Ring.push silence ring_capacity frame p.ring in
      record {
        jbuf = jbuf;
        ring = ring;
        underruns = if pushed then p.underruns else u64 (p.underruns + 1);
      }

  -- A pass, given what the rest of the loop makes of the state after it.
  unfoldable pub drain_pass :
      (Playout Double → Option (Playout Double))
      → Playout Double
      → Option (List ℤ)
      → JitterBuffer Double
      → Option (Playout Double)
  drain_pass continue p none jbuf = some (record p { jbuf = jbuf })
  drain_pass continue p (some frame) jbuf =
      let after = hand_over frame jbuf p in if finished jbuf then some after else continue after

  -- The loop, with fuel for its passes; `none` is a loop without fuel.
  unfoldable pub drain_due : ℕ → ℕ → Playout Double → Option (Playout Double)
  drain_due zero now_samples p = none
  drain_due (suc fuel) now_samples p =
      let pulled = try_pull_due_frame host F now_samples p.jbuf in
      drain_pass (drain_due fuel now_samples) p pulled.0 pulled.1

  pub given :
      (now : ℕ) (jb : JitterBuffer Double)
      → is_due now jb ≡ true
      → (frame : List ℤ) × ((try_pull_due_frame host F now jb).0 ≡ some frame)
  given now jb due = elim (Bool-cases (has_packet jb)) [
    | inl there ↦ ((play host now jb).0, rw (pull_play host F now jb due there))
    | inr gone ↦ ((lose F jb).0, rw (pull_lose host F now jb due gone))
  ]

  -- The loop of the playout thread ends: with fuel for one pass more than the cursor is short of
  -- 32768 frames, it gives a state, and the buffer keeps its invariant.
  pub drain_due-Inv :
      (fuel now : ℕ) (p : Playout Double)
      → Inv p.jbuf
      → 2 ^ 15 < fuel + p.jbuf.frames_played
      → (q : Playout Double) × (drain_due fuel now p ≡ some q) × Inv q.jbuf
  unfolding drain_due drain_pass hand_over
  drain_due-Inv zero now p v enough = absurd (omega (arith, few_played p.jbuf v))
  drain_due-Inv (suc fuel) now p v enough =
      let jbuf = (try_pull_due_frame host F now p.jbuf).1 in
      let kept = pull-Inv host F now p.jbuf v in
      let moved = (pull-kept host F now p.jbuf v).0 in
      elim (Bool-cases (is_due now p.jbuf)) [
        | inr wait ↦ (p, rw (pull_not_due host F now p.jbuf wait), v)
        | inl due ↦
            let g = given now p.jbuf due in
            let one : jbuf.frames_played ≡ p.jbuf.frames_played + 1 = rw due at moved in
            let rest = drain_due-Inv fuel now (hand_over g.0 jbuf p) kept (omega (arith, one)) in
            elim (Bool-cases (finished jbuf)) [
              | inl done ↦ (hand_over g.0 jbuf p, rw (g.1, done), kept)
              | inr more ↦ (rest.0, rw (g.1, more) (rest.1), rest.2)
            ]
      ]

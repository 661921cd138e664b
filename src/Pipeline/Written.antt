-- ===== src/Pipeline/Written.antt =====
-- The samples that src/receiver.cpp writes to its file, after a network that loses nothing.
use rtp_audio_streamer.Base.{
  ℕ, zero, suc, ◌+◌, ◌^◌, ◌≤◌, ◌<◌, ◌≡◌, refl, sym, ap, ◌∙◌, arith, Bool, true, false, List, [],
  ◌∷◌, ◌++◌, length, length-take, length-drop, take, drop, take-append-drop, replicate, ◌*◌, ◌-◌,
  All,
}
use native.Mathlib.Decide.{ℕ_discrete}
use rtp_audio_streamer.Base.Int.{ℤ, pos, IsI16}
use rtp_audio_streamer.Host.{Host}
use rtp_audio_streamer.AudioFormat.{frame_samples}
use rtp_audio_streamer.Jitter.Decode.{pad_frame}
use mathlib.Core.List.{append_assoc, append-nil}
use rtp_audio_streamer.Jitter.{Arithmetic, JitterBuffer, Options}
use rtp_audio_streamer.Jitter.Pull.{finished}
use rtp_audio_streamer.Jitter.Inv.{few_played, Inv}
use rtp_audio_streamer.Jitter.InOrder.{InOrder}
use rtp_audio_streamer.Sender.{CodecName, pcm, Sender}
use rtp_audio_streamer.Sender.Payload.{IsWhole}
use rtp_audio_streamer.Sender.Schedule.{tabulate, tabulate-cong, drop-add, frame_count, frame_at}
use rtp_audio_streamer.Sender.Pass.{IsSender}
use rtp_audio_streamer.Receiver.{Timespec}
use rtp_audio_streamer.Receiver.Threads.{over, System, Reach}
use rtp_audio_streamer.Receiver.Queued.{kept, missed, joined}
use rtp_audio_streamer.Receiver.Complete.{Reach-Accounted, Reach-samples}
use rtp_audio_streamer.Receiver.Provenance.{heard, frame_given}
use rtp_audio_streamer.Pipeline.Network.{sounded}
use rtp_audio_streamer.Pipeline.Lossless.{Lossless, Reach-Played}

nothing : (xs : List ℤ) → length xs ≡ 0 → xs ≡ []
nothing [] e = refl
nothing (x ∷ xs) e = absurd (omega (arith, e))

short_frame :
    (xs : List ℤ)
    → length xs ≤ frame_samples
    → pad_frame (take frame_samples xs) ≡ xs ++ replicate (frame_samples - length xs) (pos 0)
unfolding pad_frame
short_frame xs up =
    let rest = nothing (drop frame_samples xs) (omega (arith, length-drop frame_samples xs, up)) in
    let same : take frame_samples xs ≡ xs =
      sym (append-nil (take frame_samples xs)) ∙ rw rest at (take-append-drop frame_samples xs) in
    ap pad_frame same

full_frame :
    (xs : List ℤ)
    → frame_samples ≤ length xs
    → pad_frame (take frame_samples xs) ≡ take frame_samples xs
unfolding pad_frame
full_frame xs low =
    let none_left : frame_samples - length (take frame_samples xs) ≡ 0 =
      omega (arith, length-take frame_samples xs, low) in
    rw none_left (append-nil (take frame_samples xs))

later_frames :
    (n : ℕ) (xs : List ℤ)
    → tabulate n (λ i. pad_frame (frame_at xs (suc i)))
      ≡ tabulate n (λ i. pad_frame (frame_at (drop frame_samples xs) i))
later_frames n xs =
    tabulate-cong n (λ i. pad_frame (frame_at xs (suc i)))
      (λ i. pad_frame (frame_at (drop frame_samples xs) i))
      (λ i.
        ap (λ ys. pad_frame (take frame_samples ys))
          (drop-add frame_samples (frame_samples * i) (frame_samples * suc i) xs (omega arith)))

-- The frames of the samples, the last one filled up with zeros, make the samples again.
joined_frames :
    (n : ℕ) (xs : List ℤ)
    → length xs ≤ frame_samples * n
    → frame_samples * n < length xs + frame_samples
    → joined (tabulate n (λ i. pad_frame (frame_at xs i)))
      ≡ xs ++ replicate (frame_samples * n - length xs) (pos 0)
joined_frames zero [] up low = refl
joined_frames zero (x ∷ xs) up low = absurd (omega (arith, up))
joined_frames (suc zero) xs up low =
    append-nil (pad_frame (take frame_samples xs)) ∙ short_frame xs (omega (arith, up))
joined_frames (suc (suc n)) xs up low =
    let rest : List ℤ = drop frame_samples xs in
    let left : length rest ≡ length xs - frame_samples = length-drop frame_samples xs in
    let tail = joined_frames (suc n) rest (omega (arith, left, up)) (omega (arith, left, low)) in
    let same : frame_samples * suc n - length rest ≡ frame_samples * suc (suc n) - length xs =
      omega (arith, left, low) in
    ap (λ f. f ++ joined (tabulate (suc n) (λ i. pad_frame (frame_at xs (suc i)))))
      (full_frame xs (omega (arith, low)))
    ∙ ap (λ fs. take frame_samples xs ++ joined fs) (later_frames (suc n) xs)
    ∙ ap (λ ys. take frame_samples xs ++ ys) tail
    ∙ sym (
        append_assoc (take frame_samples xs) rest
          (replicate (frame_samples * suc n - length rest) (pos 0)))
    ∙ ap (λ ys. ys ++ replicate (frame_samples * suc n - length rest) (pos 0))
        (take-append-drop frame_samples xs)
    ∙ ap (λ k. xs ++ replicate k (pos 0)) same

-- When the ring takes every frame, it has them all in order.
kept_all :
    (gs : List (Bool × List ℤ)) (f : ℕ → List ℤ)
    → missed gs ≡ 0
    → ((k : ℕ) → k < length gs → frame_given gs k ≡ f k)
    → kept gs ≡ joined (tabulate (length gs) f)
kept_all [] f none_missed frames = refl
kept_all ((true, frame) ∷ gs) f none_missed frames =
    rw
      (
        sym (frames 0 (omega arith)),
        kept_all gs (λ k. f (suc k)) (omega (arith, none_missed))
            (λ k below. frames (suc k) (omega (arith, below))),
      )
      refl
kept_all ((false, frame) ∷ gs) f none_missed frames = absurd (omega (arith, none_missed))

missed_few : (gs : List (Bool × List ℤ)) → missed gs ≤ length gs
missed_few [] = omega arith
missed_few ((true, frame) ∷ gs) = omega (arith, missed_few gs)
missed_few ((false, frame) ∷ gs) = omega (arith, missed_few gs)

-- A buffer that has finished has played every packet.
played_all :
    {Double : Type 0} (host : Host) (F : Arithmetic Double) (first : ℕ) (sound : ℕ → List ℤ) (n : ℕ)
    (jb : JitterBuffer Double)
    → Inv jb
    → InOrder host F first sound n jb
    → finished jb ≡ true
    → jb.frames_played ≡ n
unfolding finished
played_all host F first sound n jb v o done = elim (ℕ_discrete n 0) [
  | yes none_yet ↦ omega (arith, o.played, none_yet)
  | no some_in ↦
      let started = o.on (omega (arith, some_in)) in
      ground (arith, o.highest_pos, o.highest_neg, o.played, started, few_played jb v, done)
]

-- A receiver of the sender's byte order hears the sender's datagrams, 32768 at most, from the first
-- on, in order, each while its frame is less than 32 ahead of the cursor. In every interleaving of
-- the three threads: when the main thread has left its loop, the jitter buffer has finished, and no
-- underrun is counted, the samples to be written are those of as many frames of the sender as
-- datagrams were heard, one after the other from the first on, each frame as the codec reproduces it.
-- (In ADPCM, the samples of every frame are even in number.)
pub Lossless-written :
    {Double : Type 0} (host : Host) (F : Arithmetic Double) (codec : CodecName) (s : Sender)
    (fuel : ℕ) (process_start : Timespec) (idle_timeout_ms : ℤ) {options : Options}
    {t : System Double}
    → IsSender codec s
    → All IsI16 s.samples
    → ((i : ℕ) → i < frame_count s.samples → IsWhole host codec (frame_at s.samples i))
    → frame_count s.samples < fuel
    → frame_count s.samples ≤ 2 ^ 15
    → (r : Reach host F process_start idle_timeout_ms options t)
    → Lossless host F codec s fuel process_start idle_timeout_ms r
    → t.main ≡ over
    → finished t.jbuf ≡ true
    → t.underruns ≡ 0
    → t.samples
      ≡ joined (
          tabulate (length (heard host F process_start idle_timeout_ms r)) (sounded host F codec s))
Lossless-written host F codec s fuel process_start idle_timeout_ms {t = t} v h whole enough few r l
      at_end done no_underrun =
    let o =
      Reach-Played host F codec s fuel process_start idle_timeout_ms v h whole enough few r l in
    let a = Reach-Accounted host F process_start idle_timeout_ms r in
    let all =
      played_all host F s.header.sequence_number (sounded host F codec s)
        (length (heard host F process_start idle_timeout_ms r)) t.jbuf a.well_formed o.ordered
        done in
    let end = Reach-samples host F process_start idle_timeout_ms r at_end in
    let none_missed : missed t.given ≡ 0 =
      omega
        (arith, missed_few t.given, end.2, end.3, no_underrun, few_played t.jbuf a.well_formed) in
    end.1
    ∙ kept_all t.given (sounded host F codec s) none_missed o.frames
    ∙ ap (λ n. joined (tabulate n (sounded host F codec s))) (end.2 ∙ all)

-- A receiver of the sender's byte order hears all the sender's datagrams, 32768 at most, in order,
-- each while its frame is less than 32 ahead of the cursor; the codec is PCM. In every interleaving of
-- the three threads: when the main thread has left its loop, the jitter buffer has finished, and no
-- underrun is counted, the samples to be written are the sender's samples, with zeros up to the end of
-- the last frame.
pub Lossless-pcm :
    {Double : Type 0} (host : Host) (F : Arithmetic Double) (s : Sender) (fuel : ℕ)
    (process_start : Timespec) (idle_timeout_ms : ℤ) {options : Options} {t : System Double}
    → IsSender pcm s
    → All IsI16 s.samples
    → frame_count s.samples < fuel
    → frame_count s.samples ≤ 2 ^ 15
    → (r : Reach host F process_start idle_timeout_ms options t)
    → Lossless host F pcm s fuel process_start idle_timeout_ms r
    → length (heard host F process_start idle_timeout_ms r) ≡ frame_count s.samples
    → t.main ≡ over
    → finished t.jbuf ≡ true
    → t.underruns ≡ 0
    → t.samples
      ≡ s.samples ++ replicate (frame_samples * frame_count s.samples - length s.samples) (pos 0)
Lossless-pcm host F s fuel process_start idle_timeout_ms v h enough few r l every at_end done
      no_underrun =
    Lossless-written host F pcm s fuel process_start idle_timeout_ms v h (λ i below. tt) enough few
      r l at_end done no_underrun
    ∙ ap (λ n. joined (tabulate n (sounded host F pcm s))) every
    ∙ joined_frames (frame_count s.samples) s.samples (omega arith) (omega arith)

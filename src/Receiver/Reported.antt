-- ===== src/Receiver/Reported.antt =====
-- What the report of src/receiver.cpp says is what happened.
use Prim.Native.String.{String}
use rtp_audio_streamer.Base.{
  ℕ, ◌⊎◌, ◌+◌, ◌≡◌, refl, sym, ap, arith, inl, inr, Option, none, some, List, ◌∷◌, length, u64,
}
use mathlib.Core.Path.{subst}
use rtp_audio_streamer.Base.Int.{ℤ}
use rtp_audio_streamer.AudioFormat.{sample_rate_hz}
use rtp_audio_streamer.Host.{Host}
use rtp_audio_streamer.Jitter.{Arithmetic, Options}
use rtp_audio_streamer.Jitter.Account.{Balanced, occupied_count, run_accounts}
use rtp_audio_streamer.Wav.{write}
use rtp_audio_streamer.Receiver.{Timespec}
use rtp_audio_streamer.Receiver.Threads.{over, System, receive_pass, Reach}
use rtp_audio_streamer.Receiver.Main.{parse_options, default_options, jbuf_options, open_socket}
use rtp_audio_streamer.Receiver.Main
use rtp_audio_streamer.Udp.{Kernel, UdpSocket}
use rtp_audio_streamer.Receiver.Queued.{kept, missed}
use rtp_audio_streamer.Receiver.Complete.{Reach-samples}
use rtp_audio_streamer.Receiver.Counted.{Acts-Counted}
use rtp_audio_streamer.Receiver.Calls.{Reach-Called}
use rtp_audio_streamer.Receiver.Report.{
  Report, Phase, running, terminated, exited, Program, Statistics, report, Act, Acts, Acts-Reach,
  Outcome,
}

module _ {Double : Type 0} (S : Statistics Double) (host : Host) (process_start : Timespec)
    (idle_timeout_ms : ℤ) (options : Options) where
  abbrev F : Arithmetic Double
  F = S.maths.arithmetic

  -- The counters of the jitter buffer, by the calls that were made of it.
  Reach-Balanced :
      {s : System Double} → Reach host F process_start idle_timeout_ms options s → Balanced s.jbuf 0
  Reach-Balanced r =
      let v = Reach-Called host F process_start idle_timeout_ms options r in
      rw (v.same_buffer) at (run_accounts host F options v.calls v.allowed)

  -- An exit with a report is one with status 0, after the loop of the main thread.
  abbrev IsEnding : Phase Double → System Double → Type 0
  IsEnding running s = Unit
  IsEnding terminated s = Unit
  IsEnding (exited status none) s = status ≡ 1
  IsEnding (exited status (some r)) s =
      (status ≡ 0) × (s.main ≡ over) × (r ≡ report S options.collect_stats s)

  still_running : (ph : Phase Double) (s : System Double) → ph ≡ running → IsEnding ph s
  still_running ph s e = subst (λ x. IsEnding x s) (sym e) tt

  Act-IsEnding :
      {p q : Program Double}
      → Act S host process_start idle_timeout_ms options p q
      → IsEnding q.phase q.system
  Act-IsEnding {p} (Act.pass datagram now on at bytes free) =
      still_running p.phase
        (receive_pass host F process_start idle_timeout_ms datagram now p.system) on
  Act-IsEnding {p} (Act.look on at) = still_running p.phase p.system on
  Act-IsEnding (Act.socket_throws e on at) = tt
  Act-IsEnding {p} (Act.other {t = t} st on h) = still_running p.phase t on
  Act-IsEnding (Act.finish on at_end at stop) = (refl, at_end, refl)
  Act-IsEnding (Act.file_not_opened on at_end at stop) = refl

  Acts-IsEnding :
      {p : Program Double}
      → Acts S host process_start idle_timeout_ms options p
      → IsEnding p.phase p.system
  Acts-IsEnding Acts.start = tt
  Acts-IsEnding (Acts.next a act) = Act-IsEnding act

  -- What a report says of the threads that it is made after.
  pub record Honest (r : Report Double) (p : Program Double) : Type 0 where
    pub file : r.file ≡ write sample_rate_hz (kept p.system.given)
    pub samples : r.samples ≡ length (kept p.system.given)
    pub underruns : r.underruns ≡ u64 (missed p.system.given)
    pub arrivals : u64 (r.counts.received + r.malformed_dropped) ≡ u64 (length p.arrived)
    pub balance :
        u64 (r.counts.received + r.counts.lost)
        ≡ u64 (
            r.counts.late_dropped
            + r.counts.duplicate
            + occupied_count p.system.jbuf.slots
            + length p.system.given)
    pub concealed : r.counts.lost ≡ r.counts.concealed

  pub Acts-Honest :
      {p : Program Double} {status : ℕ} {r : Report Double}
      → Acts S host process_start idle_timeout_ms options p
      → p.phase ≡ exited status (some r)
      → (status ≡ 0) × Honest r p
  unfolding report
  Acts-Honest {p} a e =
      let reach = Acts-Reach S host process_start idle_timeout_ms options a in
      let (done, at_end, same) = subst (λ x. IsEnding x p.system) e (Acts-IsEnding a) in
      let (stop, samples, size, under) =
        Reach-samples host F process_start idle_timeout_ms reach at_end in
      let balanced = Reach-Balanced reach in
      (
        done,
        rw same (record {
          file = ap (write sample_rate_hz) samples;
          samples = ap length samples;
          underruns = under;
          arrivals = Acts-Counted S host process_start idle_timeout_ms options a;
          balance = omega (arith, balanced.0, size);
          concealed = balanced.1;
        }),
      )

  pub Acts_silent :
      {p : Program Double} {status : ℕ}
      → Acts S host process_start idle_timeout_ms options p
      → p.phase ≡ exited status none
      → status ≡ 1
  Acts_silent {p} a e = subst (λ x. IsEnding x p.system) e (Acts-IsEnding a)

module _ {Double K : Type 0} (S : Statistics Double) (host : Host) (kernel : Kernel K)
    (atoi : String → ℤ) where
  -- An exit after a report: the options were read, the socket was opened, and the report is true of
  -- what the threads have done.
  pub record Reported (argv : List String) (k : K) (r : Report Double) : Type 0 where
    pub output_path : String
    pub args : List String
    pub command : argv ≡ output_path ∷ args
    pub options : Main.Options
    pub read : parse_options atoi args default_options ≡ some options
    pub process_start : Timespec
    pub program : Program Double
    pub socket : UdpSocket
    pub opened : (open_socket kernel host options k).0 ≡ inr socket
    pub done : Acts S host process_start options.idle_timeout_ms (jbuf_options options) program
    pub honest :
        Honest S host process_start options.idle_timeout_ms (jbuf_options options) r program

  -- However `main` exits, its status is 1 and it has reported nothing, or its status is 0 and it has
  -- reported. Then, in the interleaving of its threads that has led there: the file is that of the
  -- samples of the frames given, without those that the ring refused, and these are the underruns
  -- reported; the packets received and the malformed datagrams are as many as the datagrams that
  -- arrived; received and lost together are late, duplicate, waiting in the slots still, and given;
  -- and lost are as many as concealed (the counts modulo 2^64).
  pub main_exit :
      {argv : List String} {k : K} {status : ℕ} (written : Option (Report Double))
      → Outcome S host kernel atoi argv k (exited status written)
      → ((status ≡ 1) × (written ≡ none))
        ⊎ ((status ≡ 0) × (r : Report Double) × (written ≡ some r) × Reported argv k r)
  main_exit none Outcome.no_path = inl (refl, refl)
  main_exit none (Outcome.bad_option unread) = inl (refl, refl)
  main_exit none (Outcome.no_socket read failed) = inl (refl, refl)
  main_exit none (Outcome.ran {process_start = start} {p = p} read opened acts e) =
      inl (Acts_silent S host start _ _ acts e, refl)
  main_exit (some r)
        (Outcome.ran {output_path = path} {args = args} {o = o} {socket = socket}
          {process_start = start} {p = p} read opened acts e) =
      let (done, honest) = Acts-Honest S host start o.idle_timeout_ms (jbuf_options o) acts e in
      inr (
        done,
        r,
        refl,
        record {
          output_path = path;
          args = args;
          command = refl;
          options = o;
          read = read;
          process_start = start;
          program = p;
          socket = socket;
          opened = opened;
          done = acts;
          honest = honest;
        },
      )

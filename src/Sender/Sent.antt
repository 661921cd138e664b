-- ===== src/Sender/Sent.antt =====
-- What a run of `main` of src/sender.cpp has sent when it exits.
use Prim.Native.String.{String}
use mathlib.Core.List.{append-nil}
use rtp_audio_streamer.Base.{
  ℕ, suc, ◌<◌, ◌^◌, ◌≡◌, refl, sym, ap, ◌∙◌, arith, Bool, Bool-cases, ◌⊎◌, inl, inr, Option, none,
  some, List, [], ◌++◌, length, length-replicate, Option-cases,
}
use rtp_audio_streamer.Base.Int.{ℤ}
use rtp_audio_streamer.Host.{Host}
use rtp_audio_streamer.Udp.{Kernel, UdpSocket, is_negative, new_socket, drop_socket}
use rtp_audio_streamer.Sender.{CodecName, pcm, ulaw, adpcm, max_datagram_bytes, payload_type_of}
use rtp_audio_streamer.Sender.Schedule.{tabulate, frame_count, packet_at}
use rtp_audio_streamer.Sender.Pass.{IsSender}
use rtp_audio_streamer.Sender.Stream.{send_all-packets}
use rtp_audio_streamer.Sender.Main.{
  Job, Draws, SendError, status, run_job, main, job_of, first_state,
}
use rtp_audio_streamer.Sender.Handed.{send_each, transmit_each, Delivers, Partly, send_each-Partly}

-- Numbers as the two distributions of the source give them.
pub record IsDraws (draws : Draws) : Type 0 where
  pub sequence_fits : draws.sequence_number < 2 ^ 16
  pub timestamp_fits : draws.timestamp < 2 ^ 32
  pub ssrc_fits : draws.ssrc < 2 ^ 32

first-IsSender :
    (draws : Draws) (job : Job) → IsDraws draws → IsSender job.codec (first_state draws job)
unfolding payload_type_of
first-IsSender draws job v = record {
  header_fits = record {
    type_fits = type_small job.codec;
    sequence_fits = v.sequence_fits;
    timestamp_fits = v.timestamp_fits;
    ssrc_fits = v.ssrc_fits;
  };
  own_type = refl;
  buffer = length-replicate {A = ℕ} max_datagram_bytes 0;
  state = record { sample = (omega arith, omega arith); in_table = omega arith };
}
  where
    type_small : (c : CodecName) → payload_type_of c < 128
    type_small pcm = omega arith
    type_small ulaw = omega arith
    type_small adpcm = omega arith

module _ {K : Type 0} (kernel : Kernel K) (host : Host) where
  -- The packets of a job: RFC 3550 packets of its frames, in order.
  abbrev pub packets_of : Draws → Job → List (List ℕ)
  packets_of draws job =
      tabulate (frame_count job.samples) (packet_at host job.codec (first_state draws job))

  module _ {delivered : K → List (List ℕ)} (laws : Delivers kernel host delivered) where
    -- An exit status of 0 with everything handed over, or one of 1.
    abbrev pub Exits : List (List ℕ) → K → ℕ × K → Type 0
    Exits ds k r =
        (sent : List (List ℕ)) × (rest : List (List ℕ)) × (ds ≡ sent ++ rest)
        × (delivered r.1 ≡ delivered k ++ sent)
        × (((r.0 ≡ 0) × (rest ≡ [])) ⊎ (r.0 ≡ 1))

    drop_socket-delivered :
        (socket : UdpSocket) (k : K) → delivered (drop_socket kernel socket k) ≡ delivered k
    unfolding drop_socket
    drop_socket-delivered socket k = elim (Bool-cases (is_negative socket.fd)) [
      | inl none_open ↦ rw none_open refl
      | inr opened ↦ rw opened (laws.close_keeps socket.fd k)
    ]

    Partly-Exits :
        (socket : UdpSocket) (ds : List (List ℕ)) (k k' : K) (r : Option SendError × K)
        → delivered k' ≡ delivered k
        → Partly kernel host laws ds k' r
        → Exits ds k (status r.0, drop_socket kernel socket r.1)
    Partly-Exits socket ds k k' r same (sent, rest, all, handed, ending) = (
      sent,
      rest,
      all,
      drop_socket-delivered socket r.1 ∙ handed ∙ ap (λ t. t ++ sent) same,
      elim ending [
        | inl (over, none_left) ↦ inl (ap status over, none_left)
        | inr (e, thrown) ↦ inr (ap status thrown)
      ],
    )

    run_job-Exits :
        (draws : Draws) (job : Job) (k : K)
        → IsDraws draws
        → Exits (packets_of draws job) k (run_job kernel host draws job k)
    unfolding run_job new_socket
    run_job-Exits draws job k v =
        let kept = laws.socket_keeps k in
        elim (Bool-cases (is_negative (kernel.socket k).0)) [
          | inl failed ↦
              rw (run_job, failed)
                ([], packets_of draws job, refl, kept ∙ sym (append-nil (delivered k)), inr refl)
          | inr made ↦
              let socket : UdpSocket = record { fd = (kernel.socket k).0 } in
              let k' = (kernel.socket k).1 in
              let s = first_state draws job in
              let loop =
                transmit_each kernel host job socket (suc (length job.samples)) s k'
                  (packets_of draws job)
                  (send_all-packets host job.codec (suc (length job.samples)) s
                    (first-IsSender draws job v) (omega arith)) in
              rw (run_job, made, loop)
                (Partly-Exits socket (packets_of draws job) k k'
                  (send_each kernel host job socket (packets_of draws job) k') kept
                  (send_each-Partly kernel host laws job socket (packets_of draws job) k'))
        ]

    -- Under the documented behaviour of `sendto`, whatever the arguments, the files, the numbers drawn
    -- and the errors of the system: the sender exits with 0, and the packets of the whole file have
    -- been handed over in order, or it exits with 1, and a first part of them has, nothing else; and
    -- with 0 only if the arguments are valid and the file is readable.
    pub main-Exits :
        (atoi : String → ℤ) (fopen : String → Option (List ℕ)) (fseek : ℕ → Bool) (draws : Draws)
        (argv : List String) (k : K)
        → IsDraws draws
        → let r = main kernel host atoi fopen fseek draws argv k in
          ((job : Job) × (job_of atoi fopen fseek argv ≡ some job)
            × Exits (packets_of draws job) k r)
          ⊎ ((job_of atoi fopen fseek argv ≡ none) × (r.0 ≡ 1) × (delivered r.1 ≡ delivered k))
    unfolding main
    main-Exits atoi fopen fseek draws argv k v =
        elim (Option-cases (job_of atoi fopen fseek argv)) [
          | inl none_given ↦
              inr (none_given, rw (main, none_given) refl, rw (main, none_given) refl)
          | inr (job, given) ↦ inl (job, given, rw (main, given) (run_job-Exits draws job k v))
        ]

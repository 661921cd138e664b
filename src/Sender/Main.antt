-- ===== src/Sender/Main.antt =====
-- `main` of src/sender.cpp: its arguments, the file, the socket and the loop that sends. `argv` is taken
-- from its element 1 on. The files and `atoi` are parameters, and so are the numbers drawn at random.
use Prim.Native.String.{String}
use text.Mathlib.Text.{◌==◌}
use rtp_audio_streamer.Base.{
  ℕ, zero, suc, Bool, true, false, ◌⊎◌, inl, inr, Option, none, some, List, [], ◌∷◌, length,
  replicate, ltb, if◌then◌else◌,
}
use rtp_audio_streamer.Base.Int.{ℤ, u16_of}
use rtp_audio_streamer.Host.{Host}
use rtp_audio_streamer.Codec.Adpcm.{initial_state}
use rtp_audio_streamer.Wav.{ReadResult, WavData}
use rtp_audio_streamer.Wav
use rtp_audio_streamer.Udp.{Kernel, SocketError, UdpSocket, new_socket, drop_socket, send_to}
use rtp_audio_streamer.Sender.{
  CodecName, pcm, ulaw, adpcm, payload_type_of, max_datagram_bytes, Sender, send_frame,
}

pub record Options : Type 0 where
  pub host : String
  pub port : ℕ
  pub codec_name : String

abbrev pub default_options : Options
default_options = record { host = "127.0.0.1"; port = 5004; codec_name = "pcm" }

unfoldable pub parse_options : (String → ℤ) → List String → Options → Option Options
parse_options atoi [] o = some o
parse_options atoi (arg ∷ []) o = none
parse_options atoi (arg ∷ value ∷ rest) o =
    let as_host = parse_options atoi rest (record o { host = value }) in
    let as_port = parse_options atoi rest (record o { port = u16_of (atoi value) }) in
    let as_codec = parse_options atoi rest (record o { codec_name = value }) in
    if arg == "--host"
    then as_host
    else (if arg == "--port" then as_port else (if arg == "--codec" then as_codec else none))

unfoldable pub codec_of : String → Option CodecName
codec_of name =
    if name == "pcm"
    then some pcm
    else (if name == "ulaw" then some ulaw else (if name == "adpcm" then some adpcm else none))

-- What is to be sent, and where.
pub record Job : Type 0 where
  pub host : String
  pub port : ℕ
  pub codec : CodecName
  pub samples : List ℤ

abbrev readable : ReadResult WavData → Option WavData
readable (Wav.ok wav) = some wav
readable (Wav.fail e) = none

infixl 5 ◌>>=◌
abbrev ◌>>=◌ : {A B : Type 0} → Option A → (A → Option B) → Option B
none >>= f = none
some a >>= f = f a

-- `fopen` gives the bytes of a file that can be opened.
unfoldable pub job_of :
    (String → ℤ) → (String → Option (List ℕ)) → (ℕ → Bool) → List String → Option Job
job_of atoi fopen fseek [] = none
job_of atoi fopen fseek (input_path ∷ args) = do
  o ← parse_options atoi args default_options
  codec ← codec_of o.codec_name
  file ← fopen input_path
  wav ← readable (Wav.read fseek file)
  some (record { host = o.host; port = o.port; codec = codec; samples = wav.samples })

-- The numbers drawn at random.
pub record Draws : Type 0 where
  pub sequence_number : ℕ
  pub timestamp : ℕ
  pub ssrc : ℕ

-- The variables before the loop.
abbrev pub first_state : Draws → Job → Sender
first_state draws job = record {
  header = record {
    marker = false;
    payload_type = payload_type_of job.codec;
    sequence_number = draws.sequence_number;
    timestamp = draws.timestamp;
    ssrc = draws.ssrc;
  };
  first_packet = true;
  adpcm_state = initial_state;
  out_buffer = replicate max_datagram_bytes 0;
  samples = job.samples;
}

-- What ends the loop early.
pub data SendError : Type 0 where
  frame_too_large : SendError
  socket_error : SocketError → SendError
  out_of_fuel : SendError

-- The exit status.
abbrev pub status : Option SendError → ℕ
status none = 0
status (some e) = 1

abbrev pub after_send :
    {K : Type 0} → (SocketError ⊎ Unit {0}) × K → (K → Option SendError × K) → Option SendError × K
after_send (inl e, k) continue = (some (socket_error e), k)
after_send (inr u, k) continue = continue k

module _ {K : Type 0} (kernel : Kernel K) (host : Host) where
  -- The loop, with fuel for its passes: what it throws, if anything, and the system after it.
  unfoldable pub transmit : Job → UdpSocket → ℕ → Sender → K → Option SendError × K
  transmit job socket zero s k = (some out_of_fuel, k)
  transmit job socket (suc fuel) s k =
      if ltb 0 (length s.samples)
      then elim (send_frame host job.codec s) [
        | none ↦ (some frame_too_large, k)
        | some p ↦
            after_send (send_to kernel host socket p.0 job.host job.port k)
              (λ k'. transmit job socket fuel p.1 k')
      ]
      else (none, k)

  -- The block of `try` after the file has been read; an exception gives the exit status 1.
  unfoldable pub run_job : Draws → Job → K → ℕ × K
  run_job draws job k =
      let (made, k') = new_socket kernel k in
      elim made [
        | inl e ↦ (1, k')
        | inr socket ↦
            let (thrown, k'') =
              transmit job socket (suc (length job.samples)) (first_state draws job) k' in
            (status thrown, drop_socket kernel socket k'')
      ]

  -- The exit status, and the system afterwards.
  unfoldable pub main :
      (String → ℤ) → (String → Option (List ℕ)) → (ℕ → Bool) → Draws → List String → K → ℕ × K
  main atoi fopen fseek draws argv k = elim (job_of atoi fopen fseek argv) [
    | none ↦ (1, k)
    | some job ↦ run_job draws job k
  ]

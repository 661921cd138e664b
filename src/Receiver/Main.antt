-- ===== src/Receiver/Main.antt =====
-- `main` of src/receiver.cpp around its threads: the arguments, the socket and the figures of the
-- report. `argv` is taken from its element 1 on.
use Prim.Native.String.{String}
use text.Mathlib.Text.{◌==◌}
use rtp_audio_streamer.Base.{
  ℕ, ◌≡◌, Bool, true, false, ◌⊎◌, Option, none, some, List, [], ◌∷◌, ◌++◌, length, map, get_or,
  if◌then◌else◌, ◌<◌, ◌^◌, arith, refl,
}
use rtp_audio_streamer.Base.Int.{ℤ, pos, u16_of}
use rtp_audio_streamer.Host.{Host}
use rtp_audio_streamer.Udp.{Kernel, SocketError, UdpSocket}
use rtp_audio_streamer.Udp.Listen.{listen}
use rtp_audio_streamer.Jitter
use rtp_audio_streamer.Tools.{Maths, number}

pub record Options : Type 0 where
  pub port : ℕ
  pub idle_timeout_ms : ℤ
  pub collect_stats : Bool
  pub no_plc : Bool

abbrev pub default_options : Options
default_options = record {
  port = 5004;
  idle_timeout_ms = pos 500;
  collect_stats = false;
  no_plc = false;
}

-- An argument that stands alone.
unfoldable pub set_switch : String → Options → Option Options
set_switch arg o =
    if arg == "--collect-stats"
    then some (record o { collect_stats = true })
    else (if arg == "--no-plc" then some (record o { no_plc = true }) else none)

abbrev continue : (Options → Option Options) → Option Options → Option Options
continue rest none = none
continue rest (some o) = rest o

-- The arguments after the output path.
unfoldable pub parse_options : (String → ℤ) → List String → Options → Option Options
parse_options atoi [] o = some o
parse_options atoi (arg ∷ []) o = set_switch arg o
parse_options atoi (arg ∷ value ∷ rest) o =
    let as_port = parse_options atoi rest (record o { port = u16_of (atoi value) }) in
    let as_timeout = parse_options atoi rest (record o { idle_timeout_ms = atoi value }) in
    let as_switch = continue (λ o'. parse_options atoi (value ∷ rest) o') (set_switch arg o) in
    if arg == "--port"
    then as_port
    else (if arg == "--idle-timeout-ms" then as_timeout else as_switch)

abbrev pub jbuf_options : Options → Jitter.Options
jbuf_options o = record { collect_stats = o.collect_stats; disable_plc_fade = o.no_plc }

abbrev pub poll_interval_ms : ℤ
poll_interval_ms = pos 5

-- The socket that the receive thread uses, or the error that `main` reports.
unfoldable pub open_socket :
    {K : Type 0} → Kernel K → Host → Options → K → (SocketError ⊎ UdpSocket) × K
open_socket kernel host o k = listen kernel host o.port poll_interval_ms k

abbrev switches : Bool → Bool → List String
switches stats no_plc =
    (if stats then "--collect-stats" ∷ [] else []) ++ (if no_plc then "--no-plc" ∷ [] else [])

-- A command line for given options.
abbrev pub render : (ℤ → String) → Options → List String
render show o =
    "--port"
    ∷ show (pos o.port)
    ∷ "--idle-timeout-ms"
    ∷ show o.idle_timeout_ms
    ∷ switches o.collect_stats o.no_plc

parse_options-switches :
    (atoi : String → ℤ) (port : ℕ) (idle_timeout_ms : ℤ) (stats no_plc : Bool)
    → parse_options atoi (switches stats no_plc) (record {
      port = port;
      idle_timeout_ms = idle_timeout_ms;
      collect_stats = false;
      no_plc = false;
    })
      ≡ some (record {
        port = port;
        idle_timeout_ms = idle_timeout_ms;
        collect_stats = stats;
        no_plc = no_plc;
      })
unfolding parse_options set_switch
parse_options-switches atoi port t true true = refl
parse_options-switches atoi port t true false = refl
parse_options-switches atoi port t false true = refl
parse_options-switches atoi port t false false = refl

-- Every choice of options can be given on the command line: if `atoi` reads back what `show` prints, and
-- the port fits 16 bits, the arguments that `render` makes are read as those options.
pub parse_options-render :
    (atoi : String → ℤ) (show : ℤ → String) (o : Options)
    → ((z : ℤ) → atoi (show z) ≡ z)
    → o.port < 2 ^ 16
    → parse_options atoi (render show o) default_options ≡ some o
unfolding parse_options
parse_options-render atoi show o back fits =
    let same : u16_of (atoi (show (pos o.port))) ≡ o.port = rw (back (pos o.port)) (omega arith) in
    rw (same, back o.idle_timeout_ms)
      (parse_options-switches atoi o.port o.idle_timeout_ms o.collect_stats o.no_plc)

module _ {Double : Type 0} (M : Maths Double) where
  -- `sort` is `std::sort` of a copy.
  unfoldable pub percentile_int : (List ℤ → List ℤ) → List ℤ → Double → Double
  percentile_int sort [] p = number M 0
  percentile_int sort (v ∷ values) p =
      let idx = M.to_size (M.arithmetic.mul p (number M (length values))) in
      M.arithmetic.of_int (get_or (sort (v ∷ values)) idx (pos 0))

  -- The same code for `uint32_t`.
  unfoldable pub percentile : (List ℤ → List ℤ) → List ℕ → Double → Double
  percentile sort values p = percentile_int sort (map pos values) p

  unfoldable pub sum : Double → List ℤ → Double
  sum acc [] = acc
  sum acc (v ∷ values) = sum (M.arithmetic.add acc (M.arithmetic.of_int v)) values

  unfoldable pub mean_of : List ℤ → Double
  mean_of [] = number M 0
  mean_of (v ∷ values) =
      M.arithmetic.div (sum (number M 0) (v ∷ values)) (number M (length (v ∷ values)))

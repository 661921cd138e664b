-- ===== src/Impair/Tests.antt =====
-- A proxy with a generator that counts, in the place of the one of <random>.
use Prim.Native.String.{String}
use rtp_audio_streamer.Base.{◌≡◌, none, some, List, [], ◌∷◌, if◌then◌else◌}
use rtp_audio_streamer.Base.Int.{ℤ, pos}
use rtp_audio_streamer.Fixtures.{defaults}
use rtp_audio_streamer.Impair.Args.{
  last_value, parse_args, well_formed, described, parse_args-described,
}

abbrev argv : List String
argv = "--listen" ∷ "1" ∷ "--loss" ∷ "2" ∷ "--listen" ∷ "3" ∷ []

-- In the place of `atoi` and `atof`.
abbrev number_of : String → ℤ
number_of text = pos 6000

parse_args-described_example : parse_args number_of (λ text. 1) argv defaults ≡ (
    if well_formed argv
    then some (described number_of (λ text. 1) (λ k. last_value k argv) defaults)
    else none)
parse_args-described_example = parse_args-described number_of (λ text. 1) argv defaults

-- ===== src/Impair/Args.antt =====
-- `parse_args` of tools/impair.cpp, against a description that looks each option up by itself.
use Prim.Native.String.{String}
use text.Mathlib.Text.{◌==◌}
use rtp_audio_streamer.Base.{
  ℕ, ◌≡◌, refl, ap, ◌∙◌, Bool, true, false, Option, none, some, List, [], ◌∷◌, if◌then◌else◌, ◌%◌,
  ◌+◌, ◌-◌, ◌^◌,
}
use rtp_audio_streamer.Base.Int.{ℤ, u16_of, pos_part, neg_part}
use rtp_audio_streamer.Impair.{Config}

-- `static_cast<unsigned>` of an `int`.
abbrev pub u32_of : ℤ → ℕ
u32_of a = (pos_part a + (2 ^ 32 - neg_part a % 2 ^ 32)) % 2 ^ 32

pub data Flag : Type 0 where
  listen forward forward_host loss reorder jitter dup seed idle_timeout_ms : Flag
  unknown : Flag

unfoldable pub flag_of : String → Flag
flag_of arg =
    if arg == "--listen"
    then listen
    else if arg == "--forward"
    then forward
    else if arg == "--forward-host"
    then forward_host
    else if arg == "--loss"
    then loss
    else if arg == "--reorder"
    then reorder
    else if arg == "--jitter"
    then jitter
    else if arg == "--dup"
    then dup
    else if arg == "--seed"
    then seed
    else if arg == "--idle-timeout-ms"
    then idle_timeout_ms
    else unknown

abbrev pub same : Flag → Flag → Bool
same listen listen = true
same forward forward = true
same forward_host forward_host = true
same loss loss = true
same reorder reorder = true
same jitter jitter = true
same dup dup = true
same seed seed = true
same idle_timeout_ms idle_timeout_ms = true
same unknown unknown = true
same _ _ = false

-- The arguments are pairs of a flag that is known and a value.
abbrev pub well_formed : List String → Bool
well_formed [] = true
well_formed (arg ∷ []) = false
well_formed (arg ∷ value ∷ rest) = if same (flag_of arg) unknown then false else well_formed rest

-- A value that comes before the last value `o` counts only where there is none.
pub later : Bool → String → Option String → Option String
later here value (some w) = some w
later true value none = some value
later false value none = none

-- The value after the last occurrence of a flag.
pub last_value : Flag → List String → Option String
last_value k [] = none
last_value k (arg ∷ []) = none
last_value k (arg ∷ value ∷ rest) = later (same k (flag_of arg)) value (last_value k rest)

pub or_default : {A : Type 0} → A → (String → A) → Option String → A
or_default d read none = d
or_default d read (some v) = read v

later_elsewhere : (value : String) (o : Option String) → later false value o ≡ o
unfolding later
later_elsewhere value none = refl
later_elsewhere value (some w) = refl

or_default-later :
    {A : Type 0} (d : A) (read : String → A) (value : String) (o : Option String)
    → or_default d read (later true value o) ≡ or_default (read value) read o
unfolding later or_default
or_default-later d read value none = refl
or_default-later d read value (some w) = refl

module _ {Double : Type 0} (atoi : String → ℤ) (atof : String → Double) where
  -- The value of one option; `none` is the result false.
  unfoldable pub set_option : Flag → String → Config Double → Option (Config Double)
  set_option listen v cfg = some (record cfg { listen_port = u16_of (atoi v) })
  set_option forward v cfg = some (record cfg { forward_port = u16_of (atoi v) })
  set_option forward_host v cfg = some (record cfg { forward_host = v })
  set_option loss v cfg = some (record cfg { loss = atof v })
  set_option reorder v cfg = some (record cfg { reorder = atof v })
  set_option jitter v cfg = some (record cfg { jitter_ms = atoi v })
  set_option dup v cfg = some (record cfg { dup = atof v })
  set_option seed v cfg = some (record cfg { seed = u32_of (atoi v) })
  set_option idle_timeout_ms v cfg = some (record cfg { idle_timeout_ms = atoi v })
  set_option unknown v cfg = none

  -- The arguments from `argv[1]` on.
  unfoldable pub parse_args : List String → Config Double → Option (Config Double)
  parse_args [] cfg = some cfg
  parse_args (arg ∷ []) cfg = none
  parse_args (arg ∷ value ∷ rest) cfg = elim (set_option (flag_of arg) value cfg) [
    | none ↦ none
    | some cfg' ↦ parse_args rest cfg'
  ]

  -- Every option by itself: its last value, read as the option is, or its default.
  abbrev pub described : (Flag → Option String) → Config Double → Config Double
  described last cfg = record {
    listen_port = or_default cfg.listen_port (λ v. u16_of (atoi v)) (last listen);
    forward_port = or_default cfg.forward_port (λ v. u16_of (atoi v)) (last forward);
    forward_host = or_default cfg.forward_host (λ v. v) (last forward_host);
    loss = or_default cfg.loss atof (last loss);
    reorder = or_default cfg.reorder atof (last reorder);
    jitter_ms = or_default cfg.jitter_ms atoi (last jitter);
    dup = or_default cfg.dup atof (last dup);
    seed = or_default cfg.seed (λ v. u32_of (atoi v)) (last seed);
    idle_timeout_ms = or_default cfg.idle_timeout_ms atoi (last idle_timeout_ms);
  }

  -- One pair first: its option is set before the rest is described.
  set_option-described :
      (k : Flag) (value : String) (last : Flag → Option String) (cfg : Config Double)
      → elim (set_option k value cfg) [ none ↦ none | some cfg' ↦ some (described last cfg') ] ≡ (
          if same k unknown
          then none
          else some (described (λ j. later (same j k) value (last j)) cfg))
  unfolding set_option
  set_option-described listen value last cfg = simp (later_elsewhere, or_default-later)
  set_option-described forward value last cfg = simp (later_elsewhere, or_default-later)
  set_option-described forward_host value last cfg = simp (later_elsewhere, or_default-later)
  set_option-described loss value last cfg = simp (later_elsewhere, or_default-later)
  set_option-described reorder value last cfg = simp (later_elsewhere, or_default-later)
  set_option-described jitter value last cfg = simp (later_elsewhere, or_default-later)
  set_option-described dup value last cfg = simp (later_elsewhere, or_default-later)
  set_option-described seed value last cfg = simp (later_elsewhere, or_default-later)
  set_option-described idle_timeout_ms value last cfg = simp (later_elsewhere, or_default-later)
  set_option-described unknown value last cfg = refl

  -- `parse_args` gives a result exactly if the arguments are pairs of a known flag and a value; each
  -- option then has the last value that was given for it, whatever the order of the options, or
  -- keeps its default.
  pub parse_args-described :
      (args : List String) (cfg : Config Double)
      → parse_args args cfg
        ≡ (if well_formed args then some (described (λ k. last_value k args) cfg) else none)
  unfolding parse_args last_value or_default
  parse_args-described [] cfg = refl
  parse_args-described (arg ∷ []) cfg = refl
  parse_args-described (arg ∷ value ∷ rest) cfg =
      pair (set_option (flag_of arg) value cfg) (λ c. parse_args-described rest c)
      ∙ ap (λ o. if well_formed rest then o else none)
          (set_option-described (flag_of arg) value (λ k. last_value k rest) cfg)
      ∙ both (some (described (λ k. last_value k (arg ∷ value ∷ rest)) cfg)) (well_formed rest)
          (same (flag_of arg) unknown)
    where
      pair :
          (o : Option (Config Double))
          → ((c : Config Double)
              → parse_args rest c
                ≡ (if well_formed rest then some (described (λ k. last_value k rest) c) else none))
          → elim o [ none ↦ none | some cfg' ↦ parse_args rest cfg' ] ≡ (
              if well_formed rest
              then elim o [
                | none ↦ none
                | some cfg' ↦ some (described (λ k. last_value k rest) cfg')
              ]
              else none)
      pair none h = either (well_formed rest)
        where
          either : (b : Bool) → ◌≡◌ {A = Option (Config Double)} none (if b then none else none)
          either true = refl
          either false = refl
      pair (some c) h = h c

      both :
          {A : Type 0} (o : Option A) (b c : Bool)
          → (if b then (if c then none else o) else none)
            ≡ (if (if c then false else b) then o else none)
      both o true true = refl
      both o true false = refl
      both o false true = refl
      both o false false = refl

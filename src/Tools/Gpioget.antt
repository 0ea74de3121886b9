-- ===== src/Tools/Gpioget.antt =====
-- tools/gpioget.c: each chip's lines are requested, read and released, and their values printed.
pub mod Options
mod Tests
use libgpiod.Prelude.{
  ℕ, zero, suc, ◌==◌, Bool, true, false, if◌then◌else◌, Option, none, some, List, [], ◌∷◌, ◌++◌,
  Result, ok, err,
}
use libgpiod.Enums.{LineValue, value_is_nonzero, LineDirection, LineBias}
use libgpiod.Kernel.{Kernel}
use libgpiod.LineSettings.{LineSettings, settings_reset, set_direction, set_active_low}
use libgpiod.LineConfig.{LineConfig, config_empty}
use libgpiod.RequestConfig.{RequestConfig}
use libgpiod.LineRequest.{LineRequest, get_all_values, release}
use libgpiod.Device.{Files, check_gpiochip_device}
use libgpiod.Chip.{Chip, chip_open, chip_close, request_lines}
use libgpiod.Tools.Strings.{bytes}
use libgpiod.Tools.Numbers.{sleep_us}
use libgpiod.Tools.Exit.{Run, going, died, line_needed, cannot_open, cannot_request, cannot_read}
use libgpiod.Tools.Resolver.{ResolvedLine, ResolvedChip, LineResolver, set_line_values}
use libgpiod.Tools.Resolver.Lookup.{resolve_lines}
use libgpiod.Tools.Resolver.Validate.{validate_resolution}
use libgpiod.Tools.Gpioset.Values.{line_value_text}
use libgpiod.Tools.Gpioset.Request.{with_bias}
use libgpiod.Tools.Gpioset.Main.{consumer_config}
use libgpiod.Tools.Gpiomon.{monitor_config}

pub record GetOptions : Type 0 where
  pub active_low : Bool
  pub by_name : Bool
  pub numeric : Bool
  pub strict : Bool
  pub unquoted : Bool
  pub bias : Option LineBias
  pub direction : LineDirection
  pub hold_period_us : ℕ
  pub chip_id : Option (List ℕ)
  pub consumer : List ℕ

-- The settings that main makes.
unfoldable pub gpioget_settings : GetOptions → LineSettings
gpioget_settings options =
    let s = with_bias options.bias (set_direction settings_reset options.direction).0 in
    if options.active_low then set_active_low s true else s

-- What is printed of a line.
abbrev pub value_text : GetOptions → ResolvedLine → List ℕ
value_text options line =
    if options.numeric
    then (if value_is_nonzero line.value then bytes "1" else bytes "0")
    else line_value_text options.unquoted line.id line.value

-- The last loop of main, and the newline behind it.
unfoldable pub values_text : GetOptions → List ResolvedLine → List ℕ
unfolding line_value_text
values_text options [] = bytes "\n"
values_text options (line ∷ []) = value_text options line ++ bytes "\n"
values_text options (line ∷ next ∷ lines) =
    value_text options line ++ b' ' ∷ values_text options (next ∷ lines)

module _ (kernel : Kernel) where
  open kernel use {World, nanosleep}

  -- The hold period of the options is slept, where there is one.
  unfoldable pub hold : World → ℕ → World
  unfolding sleep_us
  hold w period =
      let (sec, nsec) = sleep_us period in if period == 0 then w else nanosleep w sec nsec

  -- Once a chip's lines are requested: the hold period is slept, the lines are read, and the request
  -- and the chip are closed.
  unfoldable pub read_requested :
      World × Result LineRequest
      → ℕ
      → Chip
      → List ℕ
      → List ResolvedLine
      → ℕ
      → World × Run (List ResolvedLine)
  unfolding hold get_all_values set_line_values
  read_requested (w, err e) hold_period_us chip path lines chip_num =
      (w, died (cannot_request path e))
  read_requested (w, ok request) hold_period_us chip path lines chip_num =
      let (w', answer) = get_all_values kernel (hold w hold_period_us) request true in
      elim answer [
        | err e ↦ (w', died (cannot_read e))
        | ok values ↦ (
          chip_close kernel (release kernel w' (some request)) (some chip),
          going (set_line_values lines chip_num values),
        )
      ]

  unfoldable pub read_opened :
      World × Result Chip
      → GetOptions
      → LineConfig
      → List ℕ
      → List ResolvedLine
      → ℕ
      → World × Run (LineConfig × List ResolvedLine)
  unfolding read_requested monitor_config gpioget_settings
  read_opened (w, err e) options c path lines chip_num = (w, died (cannot_open path e))
  read_opened (w, ok chip) options c path lines chip_num =
      elim (monitor_config (gpioget_settings options) c lines chip_num) [
        | died death ↦ (w, died death)
        | going c' ↦
            let (w', answer) =
              read_requested
                (request_lines kernel w chip (some (consumer_config options.consumer)) (some c')
                  true true)
                options.hold_period_us chip path lines chip_num in
            elim answer [ died death ↦ (w', died death) | going lines' ↦ (w', going (c', lines')) ]
      ]

  module _ (files : Files) where
    -- The loop over the chips, from a number on. The config is reused, the values go into the lines.
    unfoldable pub read_values :
        GetOptions
        → LineConfig
        → List ResolvedLine
        → List ResolvedChip
        → ℕ
        → World
        → World × Run (List ResolvedLine)
    unfolding read_opened
    read_values options c lines [] chip_num w = (w, going lines)
    read_values options c lines (chip ∷ chips) chip_num w =
        let (w', answer) =
          read_opened
            (chip_open kernel w (some chip.path) (λ p. check_gpiochip_device files true (some p))
              true true)
            options c chip.path lines chip_num in
        elim answer [
          | died death ↦ (w', died death)
          | going next ↦ read_values options next.0 next.1 chips (suc chip_num) w'
        ]

    abbrev pub get_resolved : GetOptions → World × Run LineResolver → World × Run (List ℕ)
    get_resolved options (w, died death) = (w, died death)
    get_resolved options (w, going r) = elim (validate_resolution r) [
      | died death ↦ (w, died death)
      | going _ ↦
          let (w', answer) = read_values options config_empty r.lines r.chips 0 w in
          elim answer [
            | died death ↦ (w', died death)
            | going lines ↦ (w', going (values_text options lines))
          ]
    ]

    -- main: what is printed, where it does not die.
    unfoldable pub gpioget_main :
        World → Result (List (List ℕ)) → GetOptions → List (List ℕ) → World × Run (List ℕ)
    unfolding read_values values_text
    gpioget_main w dev options [] = (w, died line_needed)
    gpioget_main w dev options (word ∷ words) = get_resolved options (
        resolve_lines kernel files w dev (word ∷ words) options.chip_id options.strict
          options.by_name)

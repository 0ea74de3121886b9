-- ===== src/Tools/Gpioset/Request.antt =====
-- The part of gpioset's main that requests the lines: the settings of the options, then for each
-- chip a config, the chip opened, the request and the chip closed again.
pub mod Driven
use libgpiod.Prelude.{
  ℕ, zero, suc, Bool, true, false, if◌then◌else◌, Option, none, some, List, [], ◌∷◌, ◌++◌, Result,
  ok, err,
}
use libgpiod.Enums.{LineValue, LineDirection, output, LineBias, LineDrive}
use libgpiod.Kernel.{Kernel}
use libgpiod.LineSettings.{
  LineSettings, settings_reset, set_bias, set_drive, set_active_low, set_direction,
}
use libgpiod.LineConfig.{
  LineConfig, config_empty, config_reset, add_line_settings, set_output_values,
}
use libgpiod.RequestConfig.{RequestConfig}
use libgpiod.LineRequest.{LineRequest, release}
use libgpiod.Device.{Files, check_gpiochip_device}
use libgpiod.Chip.{Chip, chip_open, chip_close, request_lines}
use libgpiod.Tools.Exit.{Run, going, died, cannot_configure, cannot_open, cannot_request, ◌>>=◌}
use libgpiod.Tools.Resolver.{ResolvedLine, ResolvedChip}
use libgpiod.Tools.Resolver.Values.{offsets_on, values_on}

-- What parse_config stores of the line settings; `none` is 0.
pub record LineOptions : Type 0 where
  pub bias : Option LineBias
  pub drive : Option LineDrive
  pub active_low : Bool

abbrev pub with_bias : Option LineBias → LineSettings → LineSettings
with_bias none s = s
with_bias (some bias) s = (set_bias s bias).0

abbrev pub with_drive : Option LineDrive → LineSettings → LineSettings
with_drive none s = s
with_drive (some drive) s = (set_drive s drive).0

unfoldable pub gpioset_settings : LineOptions → LineSettings
gpioset_settings options =
    let s = with_drive options.drive (with_bias options.bias settings_reset) in
    let s' = if options.active_low then set_active_low s true else s in (set_direction s' output).0

-- Goes on with the config that a call leaves, or dies.
abbrev pub or_die : LineConfig × Result (Unit {0}) → Run LineConfig
or_die (c, ok _) = going c
or_die (c, err e) = died (cannot_configure e)

-- The config for the lines on a chip: reset, then the settings and the values.
unfoldable pub chip_config : LineSettings → LineConfig → List ResolvedLine → ℕ → Run LineConfig
unfolding config_reset
chip_config settings c lines chip_num =
    or_die (
      add_line_settings (config_reset c).0 (some (offsets_on lines chip_num)) (some settings) true
        true)
    >>= λ c'. or_die (set_output_values c' (some (values_on lines chip_num)))

-- The loop of main that sets the values of the resolved lines to those of the command line.
unfoldable pub store_values : List ResolvedLine → List LineValue → List ResolvedLine
store_values (line ∷ lines) (v ∷ values) = record line { value = v } ∷ store_values lines values
store_values lines _ = lines

-- The loop of main over the periods and the chips is in Toggle and here.
module _ (kernel : Kernel) where
  open kernel use {World}

  unfoldable pub request_opened :
      World × Result Chip → RequestConfig → LineConfig → List ℕ → World × Run LineRequest
  request_opened (w, err e) req_cfg c path = (w, died (cannot_open path e))
  request_opened (w, ok chip) req_cfg c path =
      let (w', answer) = request_lines kernel w chip (some req_cfg) (some c) true true in
      elim answer [
        | err e ↦ (w', died (cannot_request path e))
        | ok request ↦ (chip_close kernel w' (some chip), going request)
      ]

  abbrev pub joined_requests :
      LineRequest → World × Run (List LineRequest) → World × Run (List LineRequest)
  joined_requests request (w, died death) = (w, died death)
  joined_requests request (w, going requests) = (w, going (request ∷ requests))

  -- The loop at the end of main that releases the requests.
  unfoldable pub release_all : World → List LineRequest → World
  release_all w [] = w
  release_all w (request ∷ requests) = release_all (release kernel w (some request)) requests

  module _ (files : Files) where
    -- A round of the loop over the chips, once the config is made.
    unfoldable pub request_chip :
        World → RequestConfig → LineConfig → ResolvedChip → World × Run LineRequest
    unfolding request_opened
    request_chip w req_cfg c chip =
        request_opened
          (chip_open kernel w (some chip.path) (λ p. check_gpiochip_device files true (some p)) true
            true)
          req_cfg c chip.path

    -- The loop over the chips, from a number on.
    unfoldable pub request_chips :
        LineSettings
        → RequestConfig
        → List ResolvedLine
        → List ResolvedChip
        → ℕ
        → LineConfig
        → World
        → World × Run (List LineRequest)
    unfolding request_chip chip_config
    request_chips settings req_cfg lines [] chip_num c w = (w, going [])
    request_chips settings req_cfg lines (chip ∷ chips) chip_num c w =
        elim (chip_config settings c lines chip_num) [
          | died death ↦ (w, died death)
          | going c' ↦
              let (w', answer) = request_chip w req_cfg c' chip in
              elim answer [
                | died death ↦ (w', died death)
                | going request ↦
                    joined_requests request
                      (request_chips settings req_cfg lines chips (suc chip_num) c' w')
              ]
        ]

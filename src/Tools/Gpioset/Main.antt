-- ===== src/Tools/Gpioset/Main.antt =====
-- main of gpioset: from the words of the command line to the requests, the toggling, and the release
-- of the requests.
use libgpiod.Prelude.{ℕ, Bool, Option, some, List, [], ◌∷◌, replicate, Result}
use libgpiod.Uapi.{gpio_max_name_size}
use libgpiod.Enums.{LineValue}
use libgpiod.Kernel.{Kernel}
use libgpiod.LineConfig.{config_empty}
use libgpiod.RequestConfig.{RequestConfig, set_consumer}
use libgpiod.LineRequest.{LineRequest}
use libgpiod.Device.{Files}
use libgpiod.Tools.Exit.{Run, going, died, line_needed}
use libgpiod.Tools.Resolver.{ResolvedLine, LineResolver}
use libgpiod.Tools.Resolver.Lookup.{resolve_lines}
use libgpiod.Tools.Resolver.Validate.{validate_resolution}
use libgpiod.Tools.Gpioset.Values.{parse_line_values_or_die}
use libgpiod.Tools.Gpioset.Toggle.{Progress, hold_periods, toggle_sequence}
use libgpiod.Tools.Gpioset.Interact.{ids_of}
use libgpiod.Tools.Gpioset.Request.{
  LineOptions, gpioset_settings, store_values, request_chips, release_all,
}

-- What parse_config stores; `toggle_periods` is empty where no toggling is asked for.
pub record SetOptions : Type 0 where
  pub line : LineOptions
  pub consumer : List ℕ
  pub chip_id : Option (List ℕ)
  pub strict : Bool
  pub by_name : Bool
  pub hold_period_us : ℕ
  pub toggle_periods : List ℕ
  pub banner : Bool
  pub daemonize : Bool
  pub interactive : Bool
  pub unquoted : Bool

abbrev pub values_of : List (List ℕ × LineValue) → List LineValue
values_of [] = []
values_of ((id, v) ∷ entries) = v ∷ values_of entries

-- The request config of a consumer.
unfoldable pub consumer_config : List ℕ → RequestConfig
consumer_config consumer =
    set_consumer (record { consumer = replicate gpio_max_name_size 0; event_buffer_size = 0 })
      (some consumer)

module _ (kernel : Kernel) where
  open kernel use {World}

  -- What the rest of main works on.
  pub record Started : Type 0 where
    pub lines : List ResolvedLine
    pub requests : List LineRequest

  abbrev pub started : List ResolvedLine → World × Run (List LineRequest) → World × Run Started
  started lines (w, died death) = (w, died death)
  started lines (w, going requests) = (w, going (record { lines = lines; requests = requests }))

  -- The toggling after n rounds; the periods are raised to the hold period first.
  unfoldable pub gpioset_toggle : ℕ → SetOptions → World → Started → Progress kernel
  unfolding hold_periods toggle_sequence
  gpioset_toggle n options w s =
      toggle_sequence kernel n s.requests
        (hold_periods options.hold_period_us options.toggle_periods) w s.lines

  -- The end of main.
  unfoldable pub gpioset_finish : World → Started → World
  unfolding release_all
  gpioset_finish w s = release_all kernel w s.requests

  module _ (files : Files) where
    -- Once the lines are resolved: they are checked, given their values and requested.
    unfoldable pub request_resolved :
        SetOptions → List LineValue → World × Run LineResolver → World × Run Started
    unfolding validate_resolution store_values request_chips
    request_resolved options values (w, died death) = (w, died death)
    request_resolved options values (w, going r) = elim (validate_resolution r) [
      | died death ↦ (w, died death)
      | going _ ↦
          let lines = store_values r.lines values in
          started lines (
            request_chips kernel files (gpioset_settings options.line)
              (consumer_config options.consumer) lines r.chips 0 config_empty w)
    ]

    -- From the words of the command line to the requests.
    unfoldable pub gpioset_start :
        World → Result (List (List ℕ)) → SetOptions → List (List ℕ) → World × Run Started
    unfolding request_resolved parse_line_values_or_die
    gpioset_start w dev options [] = (w, died line_needed)
    gpioset_start w dev options (word ∷ words) = elim (parse_line_values_or_die (word ∷ words)) [
      | died death ↦ (w, died death)
      | going entries ↦ request_resolved options (values_of entries) (
          resolve_lines kernel files w dev (ids_of entries) options.chip_id options.strict
            options.by_name)
    ]

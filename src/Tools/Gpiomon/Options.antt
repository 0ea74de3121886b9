-- ===== src/Tools/Gpiomon/Options.antt =====
-- parse_config of gpiomon, on the answers of getopt_long.
use libgpiod.Prelude.{ℕ, ◌==◌, Bool, true, false, if◌then◌else◌, Option, none, some, List, [], ◌∷◌}
use libgpiod.Enums.{LineClock, monotonic, both}
use libgpiod.Tools.Strings.{bytes}
use libgpiod.Tools.Exit.{Run, going, ◌>>=◌}
use libgpiod.Tools.Options.{
  Scanned, answer, stored, common_option, period_or_die, uint_or_die, parse_bias_or_die,
  parse_edges_or_die, parse_event_clock_or_die,
}
use libgpiod.Tools.Gpiomon.{MonitorOptions, clock_and_format}
use libgpiod.Tools.Gpiomon.Main.{LookupOptions}

-- `clock` is the event clock so far, `none` for 0.
pub record MonitorConfig : Type 0 where
  pub monitor : MonitorOptions
  pub lookup : LookupOptions
  pub clock : Option LineClock
  pub banner : Bool

-- The config before the first option.
abbrev pub no_options : MonitorConfig
no_options = record {
  monitor = record {
    active_low = false;
    quiet = false;
    unquoted = false;
    bias = none;
    edges = both;
    events_wanted = 0;
    debounce_period_us = 0;
    chip_given = false;
    fmt = none;
    event_clock = monotonic;
    timestamp_fmt = 0;
    idle_timeout = none;
  };
  lookup = record { consumer = bytes "gpiomon"; chip_id = none; strict = false; by_name = false };
  clock = none;
  banner = false;
}

-- The switch.
unfoldable pub monitor_option : MonitorConfig → ℕ → List ℕ → Run MonitorConfig
unfolding parse_bias_or_die parse_edges_or_die parse_event_clock_or_die
monitor_option cfg optc arg =
    let m = cfg.monitor in
    let l = cfg.lookup in
    if optc == b'-'
    then going (record cfg { banner = true })
    else if optc == b'b'
    then (parse_bias_or_die arg >>= λ bias.
        going (record cfg { monitor = record m { bias = some bias } }))
    else if optc == b'B'
    then going (record cfg { lookup = record l { by_name = true } })
    else if optc == b'c'
    then going (record cfg {
      monitor = record m { chip_given = true };
      lookup = record l { chip_id = some arg };
    })
    else if optc == b'C'
    then going (record cfg { lookup = record l { consumer = arg } })
    else if optc == b'e'
    then (parse_edges_or_die arg >>= λ edges.
        going (record cfg { monitor = record m { edges = edges } }))
    else if optc == b'E'
    then (parse_event_clock_or_die arg >>= λ clock. going (record cfg { clock = some clock }))
    else if optc == b'F'
    then going (record cfg { monitor = record m { fmt = some arg } })
    else if optc == b'i'
    then (period_or_die arg >>= λ p.
        going (record cfg { monitor = record m { idle_timeout = some p } }))
    else if optc == b'l'
    then going (record cfg { monitor = record m { active_low = true } })
    else if optc == b'n'
    then (uint_or_die arg >>= λ n. going (record cfg { monitor = record m { events_wanted = n } }))
    else if optc == b'p'
    then (period_or_die arg >>= λ p.
        going (record cfg { monitor = record m { debounce_period_us = p } }))
    else if optc == b'q'
    then going (record cfg { monitor = record m { quiet = true } })
    else if optc == b'Q'
    then going (record cfg { monitor = record m { unquoted = true } })
    else if optc == b's'
    then going (record cfg { lookup = record l { strict = true } })
    else common_option cfg optc

-- The loop.
unfoldable pub monitor_options : MonitorConfig → List Scanned → Run MonitorConfig
unfolding monitor_option
monitor_options cfg [] = going cfg
monitor_options cfg (answer optc arg ∷ rest) =
    monitor_option cfg optc arg >>= λ next. monitor_options next rest
monitor_options cfg (stored n ∷ rest) =
    monitor_options (record cfg { monitor = record cfg.monitor { timestamp_fmt = n } }) rest

-- parse_config; clock and format are completed at the end.
unfoldable pub parse_config : List Scanned → Run MonitorConfig
unfolding monitor_options clock_and_format
parse_config scanned = monitor_options no_options scanned >>= λ cfg.
    let (clock, fmt) = clock_and_format cfg.clock cfg.monitor.timestamp_fmt in
    going (record cfg { monitor = record cfg.monitor { event_clock = clock; timestamp_fmt = fmt } })

-- ===== src/Tools/Gpionotify/Options.antt =====
-- parse_config of gpionotify, on the answers of getopt_long.
use libgpiod.Prelude.{ℕ, ◌==◌, true, false, if◌then◌else◌, none, some, List, [], ◌∷◌}
use libgpiod.Tools.Exit.{Run, going, ◌>>=◌}
use libgpiod.Tools.Options.{Scanned, answer, stored, common_option, period_or_die, uint_or_die}
use libgpiod.Tools.Gpionotify.{NotifyOptions, parse_event_type_or_die}

-- The config before the first option.
abbrev pub no_options : NotifyOptions
no_options = record {
  quiet = false;
  strict = false;
  unquoted = false;
  by_name = false;
  event_type = none;
  events_wanted = 0;
  chip_id = none;
  fmt = none;
  timestamp_fmt = 0;
  idle_timeout = none;
}

-- The switch. The banner is not kept.
unfoldable pub notify_option : NotifyOptions → ℕ → List ℕ → Run NotifyOptions
unfolding parse_event_type_or_die
notify_option cfg optc arg =
    if optc == b'-'
    then going cfg
    else if optc == b'B'
    then going (record cfg { by_name = true })
    else if optc == b'c'
    then going (record cfg { chip_id = some arg })
    else if optc == b'e'
    then (parse_event_type_or_die arg >>= λ t. going (record cfg { event_type = some t }))
    else if optc == b'F'
    then going (record cfg { fmt = some arg })
    else if optc == b'i'
    then (period_or_die arg >>= λ p. going (record cfg { idle_timeout = some p }))
    else if optc == b'n'
    then (uint_or_die arg >>= λ n. going (record cfg { events_wanted = n }))
    else if optc == b'q'
    then going (record cfg { quiet = true })
    else if optc == b'Q'
    then going (record cfg { unquoted = true })
    else if optc == b's'
    then going (record cfg { strict = true })
    else common_option cfg optc

-- The loop.
unfoldable pub notify_options : NotifyOptions → List Scanned → Run NotifyOptions
unfolding notify_option
notify_options cfg [] = going cfg
notify_options cfg (answer optc arg ∷ rest) =
    notify_option cfg optc arg >>= λ next. notify_options next rest
notify_options cfg (stored n ∷ rest) = notify_options (record cfg { timestamp_fmt = n }) rest

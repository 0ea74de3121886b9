-- ===== src/Tools/Gpioset/Options.antt =====
-- parse_config of gpioset, on the answers of getopt_long.
use libgpiod.Prelude.{
  ℕ, ◌==◌, true, false, not, ◌&&◌, if◌then◌else◌, none, some, List, [], ◌∷◌, length,
}
use libgpiod.Tools.Strings.{bytes}
use libgpiod.Tools.Exit.{Run, going, died, not_combined, ◌>>=◌}
use libgpiod.Tools.Options.{
  Scanned, answer, stored, common_option, period_or_die, parse_bias_or_die, parse_drive_or_die,
}
use libgpiod.Tools.Gpioset.Toggle.{parse_periods_or_die}
use libgpiod.Tools.Gpioset.Main.{SetOptions}

-- The config before the first option.
abbrev pub no_options : SetOptions
no_options = record {
  line = record { bias = none; drive = none; active_low = false };
  consumer = bytes "gpioset";
  chip_id = none;
  strict = false;
  by_name = false;
  hold_period_us = 0;
  toggle_periods = [];
  banner = false;
  daemonize = false;
  interactive = false;
  unquoted = false;
}

-- The switch.
unfoldable pub set_option : SetOptions → ℕ → List ℕ → Run SetOptions
unfolding parse_bias_or_die parse_drive_or_die parse_periods_or_die
set_option cfg optc arg =
    if optc == b'-'
    then going (record cfg { banner = true })
    else if optc == b'b'
    then (parse_bias_or_die arg >>= λ bias.
        going (record cfg { line = record cfg.line { bias = some bias } }))
    else if optc == b'B'
    then going (record cfg { by_name = true })
    else if optc == b'c'
    then going (record cfg { chip_id = some arg })
    else if optc == b'C'
    then going (record cfg { consumer = arg })
    else if optc == b'd'
    then (parse_drive_or_die arg >>= λ drive.
        going (record cfg { line = record cfg.line { drive = drive } }))
    else if optc == b'i'
    then going (record cfg { interactive = true })
    else if optc == b'l'
    then going (record cfg { line = record cfg.line { active_low = true } })
    else if optc == b'p'
    then (period_or_die arg >>= λ p. going (record cfg { hold_period_us = p }))
    else if optc == b'Q'
    then going (record cfg { unquoted = true })
    else if optc == b's'
    then going (record cfg { strict = true })
    else if optc == b't'
    then (parse_periods_or_die arg >>= λ ps. going (record cfg { toggle_periods = ps }))
    else if optc == b'z'
    then going (record cfg { daemonize = true })
    else common_option cfg optc

-- The loop.
unfoldable pub set_options : SetOptions → List Scanned → Run SetOptions
unfolding set_option
set_options cfg [] = going cfg
set_options cfg (answer optc arg ∷ rest) = set_option cfg optc arg >>= λ next. set_options next rest
set_options cfg (stored n ∷ rest) = set_options cfg rest

-- parse_config; toggling and the interactive mode exclude each other.
unfoldable pub parse_config : List Scanned → Run SetOptions
unfolding set_options
parse_config scanned = set_options no_options scanned >>= λ cfg.
    if not (length cfg.toggle_periods == 0) && cfg.interactive then died not_combined else going cfg

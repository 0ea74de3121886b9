-- ===== src/Tools/Gpioget/Options.antt =====
-- parse_config of gpioget, on the answers of getopt_long.
use libgpiod.Prelude.{ℕ, ◌==◌, true, false, if◌then◌else◌, none, some, List, [], ◌∷◌}
use libgpiod.Enums.{LineDirection, input}
use libgpiod.Tools.Strings.{bytes}
use libgpiod.Tools.Exit.{Run, going, ◌>>=◌}
use libgpiod.Tools.Options.{
  Scanned, answer, stored, common_option, period_or_die, parse_bias_or_die,
}
use libgpiod.Tools.Gpioget.{GetOptions}

-- The config before the first option.
abbrev pub no_options : GetOptions
no_options = record {
  active_low = false;
  by_name = false;
  numeric = false;
  strict = false;
  unquoted = false;
  bias = none;
  direction = input;
  hold_period_us = 0;
  chip_id = none;
  consumer = bytes "gpioget";
}

-- The switch.
unfoldable pub get_option : GetOptions → ℕ → List ℕ → Run GetOptions
unfolding parse_bias_or_die
get_option cfg optc arg =
    if optc == b'a'
    then going (record cfg { direction = LineDirection.as_is })
    else if optc == b'b'
    then (parse_bias_or_die arg >>= λ bias. going (record cfg { bias = some bias }))
    else if optc == b'B'
    then going (record cfg { by_name = true })
    else if optc == b'c'
    then going (record cfg { chip_id = some arg })
    else if optc == b'C'
    then going (record cfg { consumer = arg })
    else if optc == b'l'
    then going (record cfg { active_low = true })
    else if optc == b'N'
    then going (record cfg { numeric = true })
    else if optc == b'p'
    then (period_or_die arg >>= λ p. going (record cfg { hold_period_us = p }))
    else if optc == b'Q'
    then going (record cfg { unquoted = true })
    else if optc == b's'
    then going (record cfg { strict = true })
    else common_option cfg optc

-- The loop.
unfoldable pub get_options : GetOptions → List Scanned → Run GetOptions
unfolding get_option
get_options cfg [] = going cfg
get_options cfg (answer optc arg ∷ rest) = get_option cfg optc arg >>= λ next. get_options next rest
get_options cfg (stored n ∷ rest) = get_options cfg rest

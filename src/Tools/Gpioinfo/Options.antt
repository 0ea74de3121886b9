-- ===== src/Tools/Gpioinfo/Options.antt =====
-- parse_config of gpioinfo, on the answers of getopt_long.
use libgpiod.Prelude.{ℕ, ◌==◌, true, false, if◌then◌else◌, none, some, List, [], ◌∷◌}
use libgpiod.Tools.Exit.{Run, going, ◌>>=◌}
use libgpiod.Tools.Options.{Scanned, answer, stored, common_option}
use libgpiod.Tools.Gpioinfo.{GpioinfoOptions}

-- The config before the first option.
abbrev pub no_options : GpioinfoOptions
no_options = record { by_name = false; strict = false; unquoted_strings = false; chip_id = none }

-- The switch.
unfoldable pub info_option : GpioinfoOptions → ℕ → List ℕ → Run GpioinfoOptions
info_option cfg optc arg =
    if optc == b'B'
    then going (record cfg { by_name = true })
    else if optc == b'c'
    then going (record cfg { chip_id = some arg })
    else if optc == b's'
    then going (record cfg { strict = true })
    else if optc == b'Q'
    then going (record cfg { unquoted_strings = true })
    else common_option cfg optc

-- The loop.
unfoldable pub info_options : GpioinfoOptions → List Scanned → Run GpioinfoOptions
unfolding info_option
info_options cfg [] = going cfg
info_options cfg (answer optc arg ∷ rest) =
    info_option cfg optc arg >>= λ next. info_options next rest
info_options cfg (stored n ∷ rest) = info_options cfg rest

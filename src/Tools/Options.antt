-- ===== src/Tools/Options.antt =====
-- Options of the command line that name an enumeration: parse_bias_or_die of tools/tools-common.c,
-- parse_drive_or_die of tools/gpioset.c, parse_edges_or_die and parse_event_clock_or_die of
-- tools/gpiomon.c. `none` is the 0 that leaves the default.
use libgpiod.Prelude.{ℕ, ◌==◌, if◌then◌else◌, Option, none, some, List}
use libgpiod.Prelude.Chars.{same_bytes}
use libgpiod.Enums.{
  LineBias, pull_up, pull_down, disabled, LineDrive, open_drain, open_source, LineEdge, rising,
  falling, both, LineClock, monotonic, realtime, hte,
}
use libgpiod.Tools.Strings.{bytes}
use libgpiod.Tools.Numbers.{parse_uint, parse_period}
use libgpiod.Tools.Exit.{
  Run, going, died, bad_option, shown, unknown_option, aborted, bad_period, bad_number,
}

unfoldable pub parse_bias_or_die : List ℕ → Run LineBias
parse_bias_or_die option =
    if same_bytes option (bytes "pull-down")
    then going pull_down
    else if same_bytes option (bytes "pull-up")
    then going pull_up
    else if same_bytes option (bytes "disabled")
    then going disabled
    else died (bad_option option)

unfoldable pub parse_drive_or_die : List ℕ → Run (Option LineDrive)
parse_drive_or_die option =
    if same_bytes option (bytes "open-drain")
    then going (some open_drain)
    else if same_bytes option (bytes "open-source")
    then going (some open_source)
    else if same_bytes option (bytes "push-pull")
    then going none
    else died (bad_option option)

unfoldable pub parse_edges_or_die : List ℕ → Run LineEdge
parse_edges_or_die option =
    if same_bytes option (bytes "rising")
    then going rising
    else if same_bytes option (bytes "falling")
    then going falling
    else if same_bytes option (bytes "both")
    then going both
    else died (bad_option option)

unfoldable pub parse_event_clock_or_die : List ℕ → Run LineClock
parse_event_clock_or_die option =
    if same_bytes option (bytes "realtime")
    then going realtime
    else if same_bytes option (bytes "hte")
    then going hte
    else if same_bytes option (bytes "monotonic")
    then going monotonic
    else died (bad_option option)

-- An answer of getopt_long: the code that it returns and `optarg` (empty where there is none), or a
-- value that it stores in the timestamp format.
pub data Scanned : Type 0 where
  answer : ℕ → List ℕ → Scanned
  stored : ℕ → Scanned

-- What the loops of parse_config do after their own options.
abbrev pub common_option {ℓ} : {A : Type ℓ} → A → ℕ → Run A
common_option cfg optc =
    if optc == b'h'
    then died shown
    else if optc == b'v'
    then died shown
    else if optc == b'?'
    then died unknown_option
    else if optc == 0
    then going cfg
    else died aborted

abbrev pub period_or_die : List ℕ → Run ℕ
period_or_die option = elim (parse_period option) [
  | none ↦ died (bad_period option)
  | some p ↦ going p
]

abbrev pub uint_or_die : List ℕ → Run ℕ
uint_or_die option = elim (parse_uint option) [ none ↦ died (bad_number option) | some n ↦ going n ]

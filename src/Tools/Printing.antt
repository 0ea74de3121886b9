-- ===== src/Tools/Printing.antt =====
-- What the tools print of a line and of an event: print_event_time, print_line_attributes and the
-- functions it calls, and print_line_id of tools/tools-common.c. gmtime_r, localtime_r and strftime
-- are a parameter.
pub mod Attributes
mod Tests
use libgpiod.Prelude.{
  ℕ, zero, suc, ◌+◌, ◌/◌, ◌%◌, ◌==◌, Bool, true, false, if◌then◌else◌, Option, none, some, List, [],
  ◌∷◌, ◌++◌, get_elem?,
}
use libgpiod.Prelude.Chars.{text}
use libgpiod.Enums.{
  LineDirection, input, LineBias, pull_up, pull_down, disabled, LineDrive, open_drain, open_source,
  LineEdge, rising, falling, both, LineClock, realtime, hte,
}
use libgpiod.LineInfo.{
  LineInfo, get_bias, get_drive, get_edge_detection, get_event_clock, get_debounce_period_us,
  is_used, get_consumer, get_direction, is_active_low,
}
use libgpiod.Tools.Strings.{bytes, decimal}
use libgpiod.Tools.Resolver.{LineResolver, get_line_name}

-- The local and the UTC time of a number of seconds, by the format "%FT%T".
pub record Calendar : Type 0 where
  pub local : ℕ → List ℕ
  pub utc : ℕ → List ℕ

-- The last `places` digits of a number, as "%09" gives them for nine.
unfoldable pub padded : ℕ → ℕ → List ℕ → List ℕ
padded zero n rest = rest
padded (suc places) n rest = padded places (n / 10) ((b'0' + n % 10) ∷ rest)

-- print_event_time; the format is 0, 1 (UTC) or 2 (local time).
unfoldable pub print_event_time : Calendar → ℕ → ℕ → List ℕ
unfolding decimal padded
print_event_time calendar evtime format =
    let nanoseconds : List ℕ → List ℕ = λ tz. b'.' ∷ padded 9 (evtime % 1_000_000_000) tz in
    if format == 0
    then decimal (evtime / 1_000_000_000) (nanoseconds [])
    else if format == 2
    then calendar.local (evtime / 1_000_000_000) ++ nanoseconds []
    else calendar.utc (evtime / 1_000_000_000) ++ nanoseconds (bytes "Z")

unfoldable pub print_bias : LineInfo → List ℕ
print_bias info = elim (get_bias info) [
  | pull_up ↦ bytes " bias=pull-up"
  | pull_down ↦ bytes " bias=pull-down"
  | disabled ↦ bytes " bias=disabled"
  | _ ↦ []
]

unfoldable pub print_drive : LineInfo → List ℕ
print_drive info = elim (get_drive info) [
  | open_drain ↦ bytes " drive=open-drain"
  | open_source ↦ bytes " drive=open-source"
  | _ ↦ []
]

unfoldable pub print_edge_detection : LineInfo → List ℕ
print_edge_detection info = elim (get_edge_detection info) [
  | both ↦ bytes " edges=both"
  | rising ↦ bytes " edges=rising"
  | falling ↦ bytes " edges=falling"
  | _ ↦ []
]

unfoldable pub print_event_clock : LineInfo → List ℕ
print_event_clock info = elim (get_event_clock info) [
  | realtime ↦ bytes " event-clock=realtime"
  | hte ↦ bytes " event-clock=hte"
  | _ ↦ []
]

-- The text of a debounce period that is not 0: the number in its largest whole unit.
unfoldable pub period_text : ℕ → List ℕ
unfolding decimal
period_text debounce =
    if debounce % 1_000_000 == 0
    then decimal (debounce / 1_000_000) (bytes "s")
    else if debounce % 1000 == 0
    then decimal (debounce / 1000) (bytes "ms")
    else decimal debounce (bytes "us")

unfoldable pub print_debounce : LineInfo → List ℕ
unfolding period_text
print_debounce info =
    if get_debounce_period_us info == 0
    then []
    else bytes " debounce-period=" ++ period_text (get_debounce_period_us info)

abbrev pub consumer_or_kernel : Option (List ℕ) → List ℕ
consumer_or_kernel none = bytes "kernel"
consumer_or_kernel (some consumer) = consumer

unfoldable pub print_consumer : LineInfo → Bool → List ℕ
print_consumer info unquoted =
    let consumer = consumer_or_kernel (get_consumer info) in
    if is_used info
    then (if unquoted
        then bytes " consumer=" ++ consumer
        else bytes " consumer=\"" ++ consumer ++ bytes "\"")
    else []

unfoldable pub print_line_attributes : LineInfo → Bool → List ℕ
unfolding print_drive print_bias print_edge_detection print_event_clock print_debounce
    print_consumer
print_line_attributes info unquoted_strings =
    elim (get_direction info) [ input ↦ bytes "input" | _ ↦ bytes "output" ]
    ++ (if is_active_low info then bytes " active-low" else [])
    ++ print_drive info
    ++ print_bias info
    ++ print_edge_detection info
    ++ print_event_clock info
    ++ print_debounce info
    ++ print_consumer info unquoted_strings

-- get_chip_name; there is a chip with the number.
unfoldable pub get_chip_name : LineResolver → ℕ → List ℕ
get_chip_name r chip_num = elim (get_elem? r.chips chip_num) [
  | none ↦ []
  | some chip ↦ text chip.info.name
]

-- print_line_id; `chip_given` tells whether the command line names a chip.
unfoldable pub print_line_id : LineResolver → ℕ → ℕ → Bool → Bool → List ℕ
unfolding get_chip_name get_line_name decimal
print_line_id r chip_num offset chip_given unquoted = elim (get_line_name r.lines chip_num offset) [
  | none ↦ get_chip_name r chip_num ++ b' ' ∷ decimal offset []
  | some name ↦
      (if chip_given then get_chip_name r chip_num ++ b' ' ∷ decimal offset (bytes " ") else [])
      ++ (if unquoted then name else b'"' ∷ name ++ bytes "\"")
]

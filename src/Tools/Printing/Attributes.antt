-- ===== src/Tools/Printing/Attributes.antt =====
-- The attributes that are printed are read back by the options of the command line.
use libgpiod.Prelude.{
  ℕ, ◌*◌, ◌/◌, ◌%◌, ◌^◌, ◌≤◌, ◌<◌, ◌==◌, ◌≡◌, inl, inr, refl, Bool, true, false, [], ◌∙◌, some,
  List, ◌++◌, arith, Bool-cases,
}
use libgpiod.Prelude.Chars.{same_bytes}
use libgpiod.Enums.{LineBias, LineDrive, LineEdge, LineClock}
use libgpiod.LineInfo.{LineInfo, get_bias, get_drive, get_edge_detection, get_event_clock}
use libgpiod.Tools.Strings.{bytes, decimal}
use libgpiod.Tools.Numbers.{parse_period}
use libgpiod.Tools.Numbers.Laws.{PeriodUnit, suffix, factor, parse_period-decimal}
use libgpiod.Tools.Exit.{Run, going}
use libgpiod.Tools.Options.{
  parse_bias_or_die, parse_drive_or_die, parse_edges_or_die, parse_event_clock_or_die,
}
use libgpiod.Tools.Printing.{
  period_text, print_bias, print_drive, print_edge_detection, print_event_clock,
}

-- What is printed of an attribute whose value is the default or no value: nothing. Of any other, the
-- label and a word that the option reads as the value.
abbrev pub ReadBack : {A : Type 0} → Bool → List ℕ → List ℕ → (List ℕ → Run A) → A → Type 0
ReadBack true text label parse a = text ≡ []
ReadBack false text label parse a = (w : List ℕ) × (text ≡ label ++ w) × (parse w ≡ going a)

-- The values that are not printed.
abbrev pub plain_bias : LineBias → Bool
plain_bias LineBias.pull_up = false
plain_bias LineBias.pull_down = false
plain_bias LineBias.disabled = false
plain_bias _ = true

abbrev pub plain_drive : LineDrive → Bool
plain_drive LineDrive.open_drain = false
plain_drive LineDrive.open_source = false
plain_drive _ = true

abbrev pub plain_edge : LineEdge → Bool
plain_edge LineEdge.both = false
plain_edge LineEdge.rising = false
plain_edge LineEdge.falling = false
plain_edge _ = true

abbrev pub plain_clock : LineClock → Bool
plain_clock LineClock.realtime = false
plain_clock LineClock.hte = false
plain_clock _ = true

print_bias-ReadBack :
    (info : LineInfo) (b : LineBias)
    → get_bias info ≡ b
    → ReadBack (plain_bias b) (print_bias info) (bytes " bias=") parse_bias_or_die b
unfolding print_bias parse_bias_or_die same_bytes
print_bias-ReadBack info LineBias.pull_up e = (bytes "pull-up", rw e refl, refl)
print_bias-ReadBack info LineBias.pull_down e = (bytes "pull-down", rw e refl, refl)
print_bias-ReadBack info LineBias.disabled e = (bytes "disabled", rw e refl, refl)
print_bias-ReadBack info _ e = rw e refl

print_drive-ReadBack :
    (info : LineInfo) (d : LineDrive)
    → get_drive info ≡ d
    → ReadBack (plain_drive d) (print_drive info) (bytes " drive=") parse_drive_or_die (some d)
unfolding print_drive parse_drive_or_die same_bytes
print_drive-ReadBack info LineDrive.open_drain e = (bytes "open-drain", rw e refl, refl)
print_drive-ReadBack info LineDrive.open_source e = (bytes "open-source", rw e refl, refl)
print_drive-ReadBack info _ e = rw e refl

print_edge_detection-ReadBack :
    (info : LineInfo) (edge : LineEdge)
    → get_edge_detection info ≡ edge
    → ReadBack
        (plain_edge edge)
        (print_edge_detection info)
        (bytes " edges=")
        parse_edges_or_die
        edge
unfolding print_edge_detection parse_edges_or_die same_bytes
print_edge_detection-ReadBack info LineEdge.both e = (bytes "both", rw e refl, refl)
print_edge_detection-ReadBack info LineEdge.rising e = (bytes "rising", rw e refl, refl)
print_edge_detection-ReadBack info LineEdge.falling e = (bytes "falling", rw e refl, refl)
print_edge_detection-ReadBack info _ e = rw e refl

print_event_clock-ReadBack :
    (info : LineInfo) (clock : LineClock)
    → get_event_clock info ≡ clock
    → ReadBack
        (plain_clock clock)
        (print_event_clock info)
        (bytes " event-clock=")
        parse_event_clock_or_die
        clock
unfolding print_event_clock parse_event_clock_or_die same_bytes
print_event_clock-ReadBack info LineClock.realtime e = (bytes "realtime", rw e refl, refl)
print_event_clock-ReadBack info LineClock.hte e = (bytes "hte", rw e refl, refl)
print_event_clock-ReadBack info _ e = rw e refl

-- A bias of pull-up, pull-down or disabled, a drive of open-drain or open-source, edges, and an event
-- clock of realtime or hte are each printed behind their label as a word that the tools' option for
-- it reads as the value of the line. Of any other value of the four nothing is printed.
pub attributes-ReadBack :
    (info : LineInfo)
    → ReadBack
        (plain_bias (get_bias info))
        (print_bias info)
        (bytes " bias=")
        parse_bias_or_die
        (get_bias info)
      × ReadBack
          (plain_drive (get_drive info))
          (print_drive info)
          (bytes " drive=")
          parse_drive_or_die
          (some (get_drive info))
      × ReadBack
          (plain_edge (get_edge_detection info))
          (print_edge_detection info)
          (bytes " edges=")
          parse_edges_or_die
          (get_edge_detection info)
      × ReadBack
          (plain_clock (get_event_clock info))
          (print_event_clock info)
          (bytes " event-clock=")
          parse_event_clock_or_die
          (get_event_clock info)
attributes-ReadBack info = (
  print_bias-ReadBack info (get_bias info) refl,
  print_drive-ReadBack info (get_drive info) refl,
  print_edge_detection-ReadBack info (get_edge_detection info) refl,
  print_event_clock-ReadBack info (get_event_clock info) refl,
)

-- A period of whole units that makes d microseconds is read as d.
parse_period-whole :
    (n d : ℕ) (unit : PeriodUnit)
    → n * factor unit ≡ d
    → n ≤ d
    → d < 2 ^ 63
    → parse_period (decimal n (suffix unit)) ≡ some d
parse_period-whole n d unit e l h =
    let small : n * factor unit % 2 ^ 64 ≡ d = rw e (omega arith) in
    parse_period-decimal n unit (omega arith) ∙ rw small (ground arith)

-- A debounce period below 2^63 microseconds is printed as a text that reads as the same period.
pub parse_period-period_text : (d : ℕ) → d < 2 ^ 63 → parse_period (period_text d) ≡ some d
unfolding period_text
parse_period-period_text d h = elim (Bool-cases (d % 1_000_000 == 0)) [
  | inl e ↦
      let z : d % 1_000_000 ≡ 0 = ground arith in
      rw e (parse_period-whole (d / 1_000_000) d PeriodUnit.seconds (omega arith) (omega arith) h)
  | inr e ↦ elim (Bool-cases (d % 1000 == 0)) [
    | inl f ↦
        let z : d % 1000 ≡ 0 = ground arith in
        rw (e, f)
          (parse_period-whole (d / 1000) d PeriodUnit.milliseconds (omega arith) (omega arith) h)
    | inr f ↦
        rw (e, f) (parse_period-whole d d PeriodUnit.microseconds (omega arith) (omega arith) h)
  ]
]

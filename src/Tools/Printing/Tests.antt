-- ===== src/Tools/Printing/Tests.antt =====
-- Printed attributes and times.
use libgpiod.Prelude.{◌≡◌, refl, true, false, some, [], arith}
use libgpiod.LineInfo.{LineInfo, described}
use libgpiod.Enums.{rising, pull_up, realtime, open_drain}
use libgpiod.Fakes.{fake_line}
use libgpiod.Tools.Strings.{bytes}
use libgpiod.Tools.Numbers.{parse_period}
use libgpiod.Tools.Options.{
  parse_bias_or_die, parse_drive_or_die, parse_edges_or_die, parse_event_clock_or_die,
}
use libgpiod.Tools.Printing.{
  Calendar, print_event_time, period_text, print_line_id, print_bias, print_drive,
  print_edge_detection, print_event_clock,
}
use libgpiod.Tools.Printing.Attributes.{ReadBack, attributes-ReadBack, parse_period-period_text}

abbrev calendar : Calendar
calendar = record { local = λ s. bytes "L"; utc = λ s. bytes "U" }

abbrev info : LineInfo
info = record (described (fake_line 1)) {
  edge = rising;
  bias = pull_up;
  drive = open_drain;
  event_clock = realtime;
}

times :
    (print_event_time calendar 2_000_000_070 0 ≡ bytes "2.000000070")
    × (print_event_time calendar 2_000_000_070 1 ≡ bytes "U.000000070Z")
unfolding print_event_time
times = (refl, refl)

periods : (period_text 1500 ≡ bytes "1500us") × (period_text 3_000_000 ≡ bytes "3s")
unfolding period_text
periods = (refl, refl)

no_name :
    print_line_id (record { num_found = 0; strict = false; chips = []; lines = [] }) 0 7 true false
    ≡ bytes " 7"
unfolding print_line_id
no_name = refl

attributes-ReadBack_example :
    ReadBack false (print_bias info) (bytes " bias=") parse_bias_or_die pull_up
    × ReadBack false (print_drive info) (bytes " drive=") parse_drive_or_die (some open_drain)
    × ReadBack false (print_edge_detection info) (bytes " edges=") parse_edges_or_die rising
    × ReadBack false
        (print_event_clock info)
        (bytes " event-clock=")
        parse_event_clock_or_die
        realtime
attributes-ReadBack_example = attributes-ReadBack info

parse_period-period_text_example : parse_period (period_text 1500) ≡ some 1500
parse_period-period_text_example = parse_period-period_text 1500 (omega arith)

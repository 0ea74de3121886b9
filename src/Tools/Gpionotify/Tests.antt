-- ===== src/Tools/Gpionotify/Tests.antt =====
-- Runs of gpionotify's functions.
use libgpiod.Chip.{chip_close}
use libgpiod.Prelude.Chars.{same_bytes}
use libgpiod.Prelude.{◌≡◌, refl, false, none, some, [], ◌∷◌, ok}
use libgpiod.Enums.{line_requested, line_released}
use libgpiod.Fakes.{fake_kernel, fake_line}
use libgpiod.LineInfo.{described}
use libgpiod.InfoEvent.{InfoEvent}
use libgpiod.Tools.Banner.{listed, watch_banner}
use libgpiod.Tools.Strings.{bytes}
use libgpiod.Tools.Exit.{going, died, bad_option}
use libgpiod.Tools.Gpiomon.{Printed}
use libgpiod.Tools.Gpionotify.{
  NotifyOptions, parse_event_type_or_die, monotonic_to_realtime, info_print_formatted,
  print_info_event, notify_rounds, notifying, notified,
}

abbrev options : NotifyOptions
options = record {
  quiet = false;
  strict = false;
  unquoted = false;
  by_name = false;
  event_type = some line_released;
  events_wanted = 1;
  chip_id = none;
  fmt = none;
  timestamp_fmt = 0;
  idle_timeout = none;
}

abbrev nothing : Printed
nothing = record { output = []; events_done = 0; enough = false }

abbrev event : InfoEvent
event = record { event_type = line_requested; timestamp = 9; info = described (fake_line 1) }

types :
    (parse_event_type_or_die (bytes "released") ≡ going line_released)
    × (parse_event_type_or_die (bytes "edge") ≡ died (bad_option (bytes "edge")))
unfolding parse_event_type_or_die same_bytes
types = (refl, refl)

clock : monotonic_to_realtime (record { before = 1000; mono = 10; after = 1002 }) 5 ≡ 996
unfolding monotonic_to_realtime
clock = refl

formatted : info_print_formatted (λ f. f ∷ f ∷ []) (bytes "a%l%") ≡ bytes "all%\n"
unfolding info_print_formatted
formatted = refl

filtered : print_info_event (λ e. bytes "x") options event nothing ≡ nothing
unfolding print_info_event
filtered = refl

idle :
    notify_rounds fake_kernel 3
      (λ w fds timeout. (w, ok (0, [])))
      (λ chip e. [])
      options
      (record { fd = 3; path = [] } ∷ [])
      (notifying 4 nothing)
    ≡ notified 5 nothing
unfolding notify_rounds chip_close
idle = refl

two_line_banner :
    watch_banner (bytes "a") (bytes "b" ∷ []) ≡ bytes "Watching lines 'a', and 'b'...\n"
unfolding watch_banner listed
two_line_banner = refl

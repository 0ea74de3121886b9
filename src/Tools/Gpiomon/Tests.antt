-- ===== src/Tools/Gpiomon/Tests.antt =====
-- Runs of gpiomon's functions.
use libgpiod.Prelude.{
  ℕ, ◌≡◌, ◌<◌, zero, suc, ◌^◌, refl, true, false, none, some, inr, List, [], ◌∷◌, ok, arith,
}
use libgpiod.Enums.{monotonic, realtime, rising_edge, both}
use libgpiod.Kernel.{after}
use libgpiod.Fakes.{fake_kernel}
use libgpiod.EdgeEvent.{EdgeEvent, EventBuffer, get_event}
use libgpiod.Tools.Options.{stored}
use libgpiod.Tools.Gpiomon.Options.{monitor_options, no_options, parse_config}
use libgpiod.Tools.Banner.{listed, monitor_banner}
use libgpiod.Tools.Strings.{bytes}
use libgpiod.Tools.Exit.{going, died, period_too_long}
use libgpiod.Tools.Resolver.{LineResolver}
use libgpiod.Tools.Printing.{Calendar}
use libgpiod.Tools.Gpiomon.{
  MonitorOptions, Printed, clock_and_format, gpiomon_settings, event_print, idle_timespec,
  print_events, watch_rounds, finished, watching,
}
use libgpiod.Tools.Gpiomon.Laws.{print_events_lem}

abbrev calendar : Calendar
calendar = record { local = λ s. bytes "L"; utc = λ s. bytes "U" }

abbrev resolver : LineResolver
resolver = record { num_found = 0; strict = false; chips = []; lines = [] }

abbrev event : ℕ → EdgeEvent
event n = record {
  event_type = rising_edge;
  timestamp = 70;
  line_offset = n;
  global_seqno = n;
  line_seqno = n;
}

abbrev options : MonitorOptions
options = record {
  active_low = false;
  quiet = false;
  unquoted = false;
  bias = none;
  edges = both;
  events_wanted = 1;
  debounce_period_us = 2 ^ 32;
  chip_given = true;
  fmt = some (bytes "%o %E%%");
  event_clock = monotonic;
  timestamp_fmt = 0;
  idle_timeout = some 2_000_001;
}

abbrev buffer : EventBuffer
buffer = record { capacity = 2; num_events = 2; events = some (event 0) ∷ some (event 1) ∷ [] }

abbrev nothing : Printed
nothing = record { output = []; events_done = 0; enough = false }

abbrev name : EdgeEvent → List ℕ
name e = e.line_offset ∷ []

defaults :
    (clock_and_format none 1 ≡ (realtime, 1)) × (clock_and_format (some realtime) 0 ≡ (realtime, 1))
unfolding clock_and_format
defaults = (refl, refl)

too_long : gpiomon_settings options ≡ died (period_too_long (2 ^ 32))
unfolding gpiomon_settings
too_long = refl

formatted : event_print calendar options resolver 0 (event 4) ≡ bytes "4 rising%\n"
unfolding event_print
formatted = refl

timeouts : idle_timespec options.idle_timeout ≡ after 2 1000
unfolding idle_timespec
timeouts = refl

-- One event is wanted, and the kernel has two.
one_event :
    watch_rounds fake_kernel 1
      (λ w fds timeout. (w, ok (1, true ∷ [])))
      (λ chip. name)
      options
      (record { chip_name = []; offsets = []; fd = 5 } ∷ [])
      (watching (record { world = 0; buffer = buffer; printed = nothing }))
    ≡ finished (record {
      world = 0;
      buffer = record buffer {
        events =
            some (record (event 2) { timestamp = 70; global_seqno = 1; line_seqno = 1 })
            ∷ some (record (event 2) { timestamp = 70; global_seqno = 1; line_seqno = 1 })
            ∷ [];
      };
      printed = record { output = 2 ∷ []; events_done = 1; enough = true };
    })
unfolding watch_rounds
one_event = refl

print_events_lem_example :
    print_events name 1 buffer 0 2 nothing
    ≡ going (record { output = 0 ∷ []; events_done = 1; enough = true })
unfolding get_event
print_events_lem_example =
    print_events_lem name 1 buffer event 0 2 nothing (λ j l u. buffered j u) (inr (omega arith))
      refl
  where
    buffered : (j : ℕ) → j < 2 → get_event buffer j ≡ ok (some (some (event j)))
    buffered zero u = refl
    buffered (suc zero) u = refl
    buffered (suc (suc j)) u = absurd (omega arith)

local_time :
    parse_config (stored 2 ∷ [])
    ≡ going (record no_options {
      monitor = record no_options.monitor { event_clock = realtime; timestamp_fmt = 2 };
    })
unfolding parse_config monitor_options
local_time = refl

two_line_banner :
    monitor_banner (bytes "a") (bytes "b" ∷ []) ≡ bytes "Monitoring lines 'a', and 'b'...\n"
unfolding monitor_banner listed
two_line_banner = refl

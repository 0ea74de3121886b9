-- ===== src/Tools/Gpiomon.antt =====
-- tools/gpiomon.c: the settings of the options, the text of an event, and the loop that waits for
-- events and prints them.
pub mod Laws
pub mod Main
pub mod Options
mod Tests
use libgpiod.Prelude.{
  ℕ, zero, suc, ◌+◌, ◌-◌, ◌*◌, ◌/◌, ◌%◌, ◌^◌, ◌==◌, ltb, leb, Bool, true, false, not, ◌&&◌,
  if◌then◌else◌, Option, none, some, List, [], ◌∷◌, ◌++◌, Result, ok, err, Errno,
}
use libgpiod.Enums.{
  LineBias, LineEdge, LineClock, monotonic, realtime, EdgeEventType, rising_edge, falling_edge,
}
use libgpiod.Kernel.{Kernel, PollTimeout, forever, after}
use libgpiod.LineSettings.{
  LineSettings, settings_reset, set_bias, set_active_low, set_debounce_period_us, set_event_clock,
  set_edge_detection,
}
use libgpiod.LineConfig.{LineConfig, config_reset, add_line_settings}
use libgpiod.LineRequest.{LineRequest}
use libgpiod.LineRequest.Events.{read_edge_events}
use libgpiod.EdgeEvent.{EdgeEvent, EventBuffer, get_event}
use libgpiod.Tools.Strings.{bytes, decimal}
use libgpiod.Tools.Exit.{
  Run, going, died, Death, period_too_long, cannot_poll, cannot_read, no_event, ◌>>=◌,
}
use libgpiod.Tools.Resolver.{ResolvedLine, LineResolver, get_line_name}
use libgpiod.Tools.Resolver.Values.{offsets_on}
use libgpiod.Tools.Printing.{Calendar, print_event_time, print_line_id, get_chip_name}
use libgpiod.Tools.Gpioset.Request.{with_bias, or_die}

-- `enum gpiod_edge_event_type`
abbrev pub event_code : EdgeEventType → ℕ
event_code rising_edge = 1
event_code falling_edge = 2

-- The clock and the format of timestamps that parse_config ends with; `none` is a clock of 0.
unfoldable pub clock_and_format : Option LineClock → ℕ → LineClock × ℕ
clock_and_format none timestamp_fmt =
    (if timestamp_fmt == 0 then monotonic else realtime, timestamp_fmt)
clock_and_format (some realtime) timestamp_fmt =
    (realtime, if timestamp_fmt == 0 then 1 else timestamp_fmt)
clock_and_format (some clock) timestamp_fmt = (clock, timestamp_fmt)

-- The options that the rest of the program reads.
pub record MonitorOptions : Type 0 where
  pub active_low : Bool
  pub quiet : Bool
  pub unquoted : Bool
  pub bias : Option LineBias
  pub edges : LineEdge
  pub events_wanted : ℕ
  pub debounce_period_us : ℕ
  pub chip_given : Bool
  pub fmt : Option (List ℕ)
  pub event_clock : LineClock
  pub timestamp_fmt : ℕ
  pub idle_timeout : Option ℕ  -- `none` is -1

abbrev pub uint_max : ℕ
uint_max = 2 ^ 32 - 1

abbrev pub with_debounce : ℕ → LineSettings → Run LineSettings
with_debounce period s =
    if period == 0
    then going s
    else if ltb uint_max period
    then died (period_too_long period)
    else going (set_debounce_period_us s period)

-- The settings that main makes.
unfoldable pub gpiomon_settings : MonitorOptions → Run LineSettings
gpiomon_settings options =
    let s = with_bias options.bias settings_reset in
    let s' = if options.active_low then set_active_low s true else s in
    with_debounce options.debounce_period_us s' >>= λ t.
    going (set_edge_detection (set_event_clock t options.event_clock).0 options.edges).0

-- The config for the lines on a chip.
unfoldable pub monitor_config : LineSettings → LineConfig → List ResolvedLine → ℕ → Run LineConfig
unfolding config_reset
monitor_config settings c lines chip_num = or_die (
    add_line_settings (config_reset c).0 (some (offsets_on lines chip_num)) (some settings) true
      true)

abbrev pub name_or_unnamed : Option (List ℕ) → List ℕ
name_or_unnamed none = bytes "unnamed"
name_or_unnamed (some name) = name

abbrev pub edge_word : EdgeEventType → List ℕ
edge_word rising_edge = bytes "rising"
edge_word falling_edge = bytes "falling"

-- What stands for '%' and a byte.
unfoldable pub format_field : Calendar → LineResolver → ℕ → EdgeEvent → ℕ → List ℕ
unfolding print_event_time get_chip_name get_line_name decimal
format_field calendar r chip_num event f =
    if f == b'c'
    then get_chip_name r chip_num
    else if f == b'e'
    then decimal (event_code event.event_type) []
    else if f == b'E'
    then edge_word event.event_type
    else if f == b'l'
    then name_or_unnamed (get_line_name r.lines chip_num event.line_offset)
    else if f == b'L'
    then print_event_time calendar event.timestamp 2
    else if f == b'o'
    then decimal event.line_offset []
    else if f == b'S'
    then print_event_time calendar event.timestamp 0
    else if f == b'U'
    then print_event_time calendar event.timestamp 1
    else if f == b'%'
    then bytes "%"
    else b'%' ∷ f ∷ []

-- The loop of event_print_formatted: text is copied up to the next '%', and a '%' at the end stays.
unfoldable pub event_print_formatted : Calendar → LineResolver → ℕ → EdgeEvent → List ℕ → List ℕ
unfolding format_field
event_print_formatted calendar r chip_num event [] = bytes "\n"
event_print_formatted calendar r chip_num event (c ∷ []) = c ∷ bytes "\n"
event_print_formatted calendar r chip_num event (c ∷ f ∷ fmt) =
    let field = format_field calendar r chip_num event f in
    let behind = event_print_formatted calendar r chip_num event fmt in
    let copied = event_print_formatted calendar r chip_num event (f ∷ fmt) in
    if c == b'%' then field ++ behind else c ∷ copied

unfoldable pub event_print_human_readable :
    Calendar → MonitorOptions → LineResolver → ℕ → EdgeEvent → List ℕ
unfolding print_event_time print_line_id
event_print_human_readable calendar options r chip_num event =
    print_event_time calendar event.timestamp options.timestamp_fmt
    ++ b'\t' ∷ edge_word event.event_type
    ++ b'\t' ∷ print_line_id r chip_num event.line_offset options.chip_given options.unquoted
    ++ bytes "\n"

unfoldable pub event_print : Calendar → MonitorOptions → LineResolver → ℕ → EdgeEvent → List ℕ
unfolding event_print_formatted event_print_human_readable
event_print calendar options r chip_num event = if options.quiet then [] else elim options.fmt [
  | none ↦ event_print_human_readable calendar options r chip_num event
  | some fmt ↦ event_print_formatted calendar r chip_num event fmt
]

-- The timespec of ppoll, or NULL.
unfoldable pub idle_timespec : Option ℕ → PollTimeout
idle_timespec none = forever
idle_timespec (some us) =
    if us == 0 then forever else after (us / 1_000_000) (us % 1_000_000 * 1000)

-- What the loop over the events of a buffer leaves: the output, the number of events so far and
-- whether that is all that were wanted. C counts in an int, whose overflow is not modelled.
pub record Printed : Type 0 where
  pub output : List ℕ
  pub events_done : ℕ
  pub enough : Bool

-- The loop over `left` events of the buffer, from an index on.
unfoldable pub print_events : (EdgeEvent → List ℕ) → ℕ → EventBuffer → ℕ → ℕ → Printed → Run Printed
unfolding get_event
print_events print wanted buffer index zero p = going p
print_events print wanted buffer index (suc left) p = elim (get_event buffer index) [
  | ok (some (some event)) ↦
      let done = suc p.events_done in
      let p' : Printed = record {
        output = p.output ++ print event;
        events_done = done;
        enough = not (wanted == 0) && leb wanted done;
      } in
      let rest = print_events print wanted buffer (suc index) left p' in
      if p'.enough then going p' else rest
  | _ ↦ died no_event
]

module _ (kernel : Kernel) where
  open kernel use {World}

  -- ppoll on several files: the count, and for each file whether it has input.
  abbrev pub PollAll : Type 0
  PollAll = World → List ℕ → PollTimeout → World × Result (ℕ × List Bool)

  pub record Monitor : Type 0 where
    pub world : World
    pub buffer : EventBuffer
    pub printed : Printed

  abbrev pub after_print : World → EventBuffer → Run Printed → Run Monitor
  after_print w buffer (died death) = died death
  after_print w buffer (going p) = going (record { world = w; buffer = buffer; printed = p })

  -- The events of one request are read and printed.
  unfoldable pub read_and_print : (EdgeEvent → List ℕ) → ℕ → LineRequest → Monitor → Run Monitor
  unfolding read_edge_events print_events
  read_and_print print wanted request m =
      let (w', buffer, answer) = read_edge_events kernel m.world request (some m.buffer) 32 in
      elim answer [
        | err e ↦ died (cannot_read e)
        | ok count ↦ elim buffer [
          | none ↦ died no_event
          | some b ↦ after_print w' b (print_events print wanted b 0 count m.printed)
        ]
      ]

  -- The loop over the chips, from a number on; a file without input is passed over.
  unfoldable pub read_chips :
      (ℕ → EdgeEvent → List ℕ) → ℕ → List (LineRequest × Bool) → ℕ → Monitor → Run Monitor
  unfolding read_and_print
  read_chips print wanted [] chip_num m = going m
  read_chips print wanted ((request, ready) ∷ requests) chip_num m =
      let next = if ready then read_and_print (print chip_num) wanted request m else going m in
      next >>= λ m'.
      if m'.printed.enough then going m' else read_chips print wanted requests (suc chip_num) m'

  abbrev pub pair_ready : List LineRequest → List Bool → List (LineRequest × Bool)
  pair_ready (request ∷ requests) (b ∷ bs) = (request, b) ∷ pair_ready requests bs
  pair_ready _ _ = []

  abbrev pub fds : List LineRequest → List ℕ
  fds [] = []
  fds (request ∷ requests) = request.fd ∷ fds requests

  -- Where the loop of main stands.
  pub data Watching : Type 0 where
    watching : Monitor → Watching
    finished : Monitor → Watching
    dead : Death → Watching

  abbrev pub after_chips : Run Monitor → Watching
  after_chips (died death) = dead death
  after_chips (going m) = if m.printed.enough then finished m else watching m

  -- A round of the loop.
  unfoldable pub watch_round :
      PollAll → (ℕ → EdgeEvent → List ℕ) → MonitorOptions → List LineRequest → Monitor → Watching
  unfolding read_chips idle_timespec
  watch_round poll_all print options requests m =
      let (w', answer) = poll_all m.world (fds requests) (idle_timespec options.idle_timeout) in
      let m' : Monitor = record m { world = w' } in
      elim answer [
        | err e ↦ dead (cannot_poll e)
        | ok (n, ready) ↦
            if n == 0
            then finished m'
            else after_chips
                (read_chips print options.events_wanted (pair_ready requests ready) 0 m')
      ]

  -- The loop of main after n rounds; without a limit on the events it may run forever.
  unfoldable pub watch_rounds :
      ℕ
      → PollAll
      → (ℕ → EdgeEvent → List ℕ)
      → MonitorOptions
      → List LineRequest
      → Watching
      → Watching
  unfolding watch_round
  watch_rounds (suc n) poll_all print options requests (watching m) =
      watch_rounds n poll_all print options requests (watch_round poll_all print options requests m)
  watch_rounds n poll_all print options requests state = state

-- ===== src/Tools/Gpionotify.antt =====
-- tools/gpionotify.c: the text of an info event, and the loop that waits for changes of line infos
-- and prints them.
pub mod Options
mod Tests
use libgpiod.Prelude.{
  ℕ, zero, suc, ◌+◌, ◌-◌, ◌/◌, ◌%◌, ◌^◌, ◌==◌, ltb, leb, Bool, true, false, not, ◌&&◌,
  if◌then◌else◌, Option, none, some, List, [], ◌∷◌, ◌++◌, length, Result, ok, err,
}
use libgpiod.Prelude.Chars.{same_bytes}
use libgpiod.Enums.{InfoEventType, line_requested, line_released, line_config_changed}
use libgpiod.Kernel.{Kernel, PollTimeout, forever, after}
use libgpiod.LineInfo.{LineInfo, get_name, get_consumer, is_used}
use libgpiod.InfoEvent.{InfoEvent}
use libgpiod.Device.{Files, check_gpiochip_device}
use libgpiod.Chip.{Chip, chip_open, chip_close, chip_watch_line_info, chip_read_info_event}
use libgpiod.Tools.Strings.{bytes, decimal}
use libgpiod.Tools.Exit.{
  Run, going, died, Death, bad_option, line_needed, too_many_lines, cannot_open, cannot_poll,
  cannot_read, cannot_watch,
}
use libgpiod.Tools.Resolver.{ResolvedLine, ResolvedChip, LineResolver, on_chip}
use libgpiod.Tools.Resolver.Lookup.{resolve_lines}
use libgpiod.Tools.Resolver.Validate.{validate_resolution}
use libgpiod.Tools.Printing.{
  Calendar, print_event_time, print_line_id, print_line_attributes, get_chip_name,
  consumer_or_kernel,
}
use libgpiod.Tools.Gpiomon.{Printed, name_or_unnamed, idle_timespec}

unfoldable pub parse_event_type_or_die : List ℕ → Run InfoEventType
parse_event_type_or_die option =
    if same_bytes option (bytes "requested")
    then going line_requested
    else if same_bytes option (bytes "released")
    then going line_released
    else if same_bytes option (bytes "reconfigured")
    then going line_config_changed
    else died (bad_option option)

pub record NotifyOptions : Type 0 where
  pub quiet : Bool
  pub strict : Bool
  pub unquoted : Bool
  pub by_name : Bool
  pub event_type : Option InfoEventType  -- `none` is 0, any type
  pub events_wanted : ℕ
  pub chip_id : Option (List ℕ)
  pub fmt : Option (List ℕ)
  pub timestamp_fmt : ℕ
  pub idle_timeout : Option ℕ

-- `enum gpiod_info_event_type`
abbrev pub info_event_code : InfoEventType → ℕ
info_event_code line_requested = 1
info_event_code line_released = 2
info_event_code line_config_changed = 3

-- print_event_type, and the names of event_print_human_readable.
abbrev pub event_type_word : InfoEventType → List ℕ
event_type_word line_requested = bytes "requested"
event_type_word line_released = bytes "released"
event_type_word line_config_changed = bytes "reconfigured"

abbrev pub code_of : InfoEventType → InfoEventType → Bool
code_of a b = info_event_code a == info_event_code b

-- The three samples of the clocks, in nanoseconds.
pub record Samples : Type 0 where
  pub before : ℕ
  pub mono : ℕ
  pub after : ℕ

-- monotonic_to_realtime, on 64-bit words.
unfoldable pub monotonic_to_realtime : Samples → ℕ → ℕ
monotonic_to_realtime s evtime =
    (evtime + s.after / 2 + (2 ^ 64 - s.mono % 2 ^ 64) + s.before / 2) % 2 ^ 64

abbrev pub consumer_text : LineInfo → List ℕ
consumer_text info = if is_used info then consumer_or_kernel (get_consumer info) else bytes "unused"

-- What stands for '%' and a byte.
unfoldable pub format_info : Calendar → Samples → Bool → LineResolver → ℕ → InfoEvent → ℕ → List ℕ
unfolding print_event_time print_line_attributes get_chip_name decimal monotonic_to_realtime
    get_name
format_info calendar samples unquoted r chip_num event f =
    if f == b'a'
    then print_line_attributes event.info unquoted
    else if f == b'c'
    then get_chip_name r chip_num
    else if f == b'C'
    then consumer_text event.info
    else if f == b'e'
    then decimal (info_event_code event.event_type) []
    else if f == b'E'
    then event_type_word event.event_type
    else if f == b'l'
    then name_or_unnamed (get_name event.info)
    else if f == b'L'
    then print_event_time calendar (monotonic_to_realtime samples event.timestamp) 2
    else if f == b'o'
    then decimal event.info.offset []
    else if f == b'S'
    then print_event_time calendar event.timestamp 0
    else if f == b'U'
    then print_event_time calendar (monotonic_to_realtime samples event.timestamp) 1
    else if f == b'%'
    then bytes "%"
    else b'%' ∷ f ∷ []

-- The loop of event_print_formatted, with the text of a field as an argument.
unfoldable pub info_print_formatted : (ℕ → List ℕ) → List ℕ → List ℕ
info_print_formatted field [] = bytes "\n"
info_print_formatted field (c ∷ []) = c ∷ bytes "\n"
info_print_formatted field (c ∷ f ∷ fmt) =
    let behind = info_print_formatted field fmt in
    let copied = info_print_formatted field (f ∷ fmt) in
    if c == b'%' then field f ++ behind else c ∷ copied

unfoldable pub info_print_human_readable :
    Calendar → Samples → NotifyOptions → LineResolver → ℕ → InfoEvent → List ℕ
unfolding print_event_time print_line_id monotonic_to_realtime
info_print_human_readable calendar samples options r chip_num event =
    let evtime =
      if options.timestamp_fmt == 0
      then event.timestamp
      else monotonic_to_realtime samples event.timestamp in
    let chip_given : Bool = elim options.chip_id [ none ↦ false | some id ↦ true ] in
    print_event_time calendar evtime options.timestamp_fmt
    ++ b'\t' ∷ event_type_word event.event_type
    ++ b'\t' ∷ print_line_id r chip_num event.info.offset chip_given options.unquoted
    ++ bytes "\n"

unfoldable pub info_print :
    Calendar → Samples → NotifyOptions → LineResolver → ℕ → InfoEvent → List ℕ
unfolding format_info info_print_formatted info_print_human_readable
info_print calendar samples options r chip_num event =
    if options.quiet then [] else elim options.fmt [
      | none ↦ info_print_human_readable calendar samples options r chip_num event
      | some fmt ↦
          info_print_formatted (format_info calendar samples options.unquoted r chip_num event) fmt
    ]

-- The test of the event type.
abbrev pub is_wanted : Option InfoEventType → InfoEvent → Bool
is_wanted none event = true
is_wanted (some t) event = code_of event.event_type t

-- What one event does to the output and the count.
unfoldable pub print_info_event :
    (InfoEvent → List ℕ) → NotifyOptions → InfoEvent → Printed → Printed
print_info_event print options event p =
    let done = suc p.events_done in
    if is_wanted options.event_type event
    then record {
      output = p.output ++ print event;
      events_done = done;
      enough = not (options.events_wanted == 0) && leb options.events_wanted done;
    }
    else p

module _ (kernel : Kernel) where
  open kernel use {World}

  -- The loop over the lines that asks the kernel to watch those on a chip.
  unfoldable pub watch_lines :
      World → Chip → List ℕ → List ResolvedLine → ℕ → World × Run (Unit {0})
  watch_lines w chip path [] chip_num = (w, going tt)
  watch_lines w chip path (line ∷ lines) chip_num =
      let (w', answer) = chip_watch_line_info kernel w chip line.offset true in
      let watched = watch_lines w' chip path lines chip_num in
      let passed = watch_lines w chip path lines chip_num in
      if on_chip line chip_num
      then elim answer [ ok info ↦ watched | err e ↦ (w', died (cannot_watch path e)) ]
      else passed

  abbrev pub joined_chips : Chip → World × Run (List Chip) → World × Run (List Chip)
  joined_chips chip (w, died death) = (w, died death)
  joined_chips chip (w, going chips) = (w, going (chip ∷ chips))

  unfoldable pub watch_opened :
      World × Result Chip → List ℕ → List ResolvedLine → ℕ → World × Run Chip
  unfolding watch_lines
  watch_opened (w, err e) path lines chip_num = (w, died (cannot_open path e))
  watch_opened (w, ok chip) path lines chip_num =
      let (w', answer) = watch_lines w chip path lines chip_num in
      elim answer [ died death ↦ (w', died death) | going _ ↦ (w', going chip) ]

  -- The loop over the chips, from a number on: the event of each chip that has one.
  unfoldable pub notify_chips :
      (ℕ → InfoEvent → List ℕ)
      → NotifyOptions
      → List (Chip × Bool)
      → ℕ
      → World
      → Printed
      → World × Run Printed
  unfolding print_info_event
  notify_chips print options [] chip_num w p = (w, going p)
  notify_chips print options ((chip, ready) ∷ chips) chip_num w p =
      let (w', answer) = chip_read_info_event kernel w chip true true in
      let passed = notify_chips print options chips (suc chip_num) w p in
      if ready
      then elim answer [
        | err e ↦ (w', died (cannot_read e))
        | ok event ↦
            let p' = print_info_event (print chip_num) options event p in
            let rest = notify_chips print options chips (suc chip_num) w' p' in
            if p'.enough then (w', going p') else rest
      ]
      else passed

  abbrev pub pair_chips : List Chip → List Bool → List (Chip × Bool)
  pair_chips (chip ∷ chips) (b ∷ bs) = (chip, b) ∷ pair_chips chips bs
  pair_chips _ _ = []

  abbrev pub chip_fds : List Chip → List ℕ
  chip_fds [] = []
  chip_fds (chip ∷ chips) = chip.fd ∷ chip_fds chips

  unfoldable pub close_all : World → List Chip → World
  close_all w [] = w
  close_all w (chip ∷ chips) = close_all (chip_close kernel w (some chip)) chips

  -- Where the loop of main stands: it goes on, it has ended with the chips closed, or it has died.
  pub data Notifying : Type 0 where
    notifying : World → Printed → Notifying
    notified : World → Printed → Notifying
    failed : Death → Notifying

  abbrev pub after_notify : List Chip → World × Run Printed → Notifying
  after_notify chips (w, died death) = failed death
  after_notify chips (w, going p) =
      if p.enough then notified (close_all w chips) p else notifying w p

  -- The loop of main after n rounds; `poll_all` is ppoll on all chips.
  unfoldable pub notify_rounds :
      ℕ
      → (World → List ℕ → PollTimeout → World × Result (ℕ × List Bool))
      → (ℕ → InfoEvent → List ℕ)
      → NotifyOptions
      → List Chip
      → Notifying
      → Notifying
  unfolding notify_chips close_all idle_timespec
  notify_rounds (suc n) poll_all print options chips (notifying w p) =
      let (w', answer) = poll_all w (chip_fds chips) (idle_timespec options.idle_timeout) in
      elim answer [
        | err e ↦ failed (cannot_poll e)
        | ok (count, ready) ↦
            if count == 0
            then notified (close_all w' chips) p
            else notify_rounds n poll_all print options chips
                (after_notify chips (notify_chips print options (pair_chips chips ready) 0 w' p))
      ]
  notify_rounds n poll_all print options chips state = state

  module _ (files : Files) where
    -- The loop over the chips, from a number on.
    unfoldable pub watch_chips :
        World → List ResolvedLine → List ResolvedChip → ℕ → World × Run (List Chip)
    unfolding watch_opened
    watch_chips w lines [] chip_num = (w, going [])
    watch_chips w lines (chip ∷ chips) chip_num =
        let (w', answer) =
          watch_opened
            (chip_open kernel w (some chip.path) (λ p. check_gpiochip_device files true (some p))
              true true)
            chip.path lines chip_num in
        elim answer [
          | died death ↦ (w', died death)
          | going opened ↦ joined_chips opened (watch_chips w' lines chips (suc chip_num))
        ]

    abbrev pub notify_resolved : World × Run LineResolver → World × Run (LineResolver × List Chip)
    notify_resolved (w, died death) = (w, died death)
    notify_resolved (w, going r) = elim (validate_resolution r) [
      | died death ↦ (w, died death)
      | going _ ↦
          let (w', answer) = watch_chips w r.lines r.chips 0 in
          elim answer [ died death ↦ (w', died death) | going chips ↦ (w', going (r, chips)) ]
    ]

    -- From the words of the command line to the chips.
    unfoldable pub gpionotify_start :
        World
        → Result (List (List ℕ))
        → NotifyOptions
        → List (List ℕ)
        → World × Run (LineResolver × List Chip)
    unfolding watch_chips
    gpionotify_start w dev options [] = (w, died line_needed)
    gpionotify_start w dev options (word ∷ words) =
        if ltb 64 (length (word ∷ words))
        then (w, died too_many_lines)
        else notify_resolved (
            resolve_lines kernel files w dev (word ∷ words) options.chip_id options.strict
              options.by_name)

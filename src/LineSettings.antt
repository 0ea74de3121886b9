-- ===== src/LineSettings.antt =====
-- lib/line-settings.c, and gpiod_set_output_value of lib/internal.c.
-- A setter returns the settings that the caller's object holds after the call, and the outcome.
-- Each malloc is an argument: whether it gave memory. The objects are private to their owner, so a
-- pointer to one is the value that it points to, and a copy is that value again.
pub mod Laws
mod Tests
use libgpiod.Prelude.{ℕ, Bool, true, false, Option, none, some, Result, ok, err, einval}
use libgpiod.Enums.{
  LineValue, inactive, active, LineDirection, input, output, LineEdge, edge_none, rising, falling,
  both, LineBias, disabled, pull_up, pull_down, LineDrive, push_pull, open_drain, open_source,
  LineClock, monotonic, realtime, hte,
}

pub record LineSettings : Type 0 where
  pub direction : LineDirection
  pub edge_detection : LineEdge
  pub drive : LineDrive
  pub bias : LineBias
  pub active_low : Bool
  pub event_clock : LineClock
  pub debounce_period_us : ℕ  -- the bits of a `long`, read back as an `unsigned long`
  pub output_value : LineValue

-- gpiod_line_settings_reset
abbrev pub settings_reset : LineSettings
settings_reset = record {
  direction = LineDirection.as_is;
  edge_detection = edge_none;
  drive = push_pull;
  bias = LineBias.as_is;
  active_low = false;
  event_clock = monotonic;
  debounce_period_us = 0;
  output_value = inactive;
}

-- gpiod_line_settings_new
abbrev pub settings_new : Bool → Option LineSettings
settings_new true = some settings_reset
settings_new false = none

-- gpiod_line_settings_copy
abbrev pub settings_copy : Bool → LineSettings → Option LineSettings
settings_copy true s = some s
settings_copy false s = none

-- gpiod_line_settings_set_direction
unfoldable pub set_direction : LineSettings → LineDirection → LineSettings × Result (Unit {0})
set_direction s input = (record s { direction = input }, ok tt)
set_direction s output = (record s { direction = output }, ok tt)
set_direction s LineDirection.as_is = (record s { direction = LineDirection.as_is }, ok tt)
set_direction s (LineDirection.other n) = (record s { direction = LineDirection.as_is }, err einval)

-- gpiod_line_settings_set_edge_detection
unfoldable pub set_edge_detection : LineSettings → LineEdge → LineSettings × Result (Unit {0})
set_edge_detection s edge_none = (record s { edge_detection = edge_none }, ok tt)
set_edge_detection s rising = (record s { edge_detection = rising }, ok tt)
set_edge_detection s falling = (record s { edge_detection = falling }, ok tt)
set_edge_detection s both = (record s { edge_detection = both }, ok tt)
set_edge_detection s (LineEdge.other n) = (record s { edge_detection = edge_none }, err einval)

-- gpiod_line_settings_set_bias; GPIOD_LINE_BIAS_UNKNOWN takes the default branch.
unfoldable pub set_bias : LineSettings → LineBias → LineSettings × Result (Unit {0})
set_bias s LineBias.as_is = (record s { bias = LineBias.as_is }, ok tt)
set_bias s disabled = (record s { bias = disabled }, ok tt)
set_bias s pull_up = (record s { bias = pull_up }, ok tt)
set_bias s pull_down = (record s { bias = pull_down }, ok tt)
set_bias s _ = (record s { bias = LineBias.as_is }, err einval)

-- gpiod_line_settings_set_drive
unfoldable pub set_drive : LineSettings → LineDrive → LineSettings × Result (Unit {0})
set_drive s push_pull = (record s { drive = push_pull }, ok tt)
set_drive s open_drain = (record s { drive = open_drain }, ok tt)
set_drive s open_source = (record s { drive = open_source }, ok tt)
set_drive s (LineDrive.other n) = (record s { drive = push_pull }, err einval)

-- gpiod_line_settings_set_active_low
unfoldable pub set_active_low : LineSettings → Bool → LineSettings
set_active_low s active_low = record s { active_low = active_low }

-- gpiod_line_settings_set_debounce_period_us
unfoldable pub set_debounce_period_us : LineSettings → ℕ → LineSettings
set_debounce_period_us s period = record s { debounce_period_us = period }

-- gpiod_line_settings_set_event_clock
unfoldable pub set_event_clock : LineSettings → LineClock → LineSettings × Result (Unit {0})
set_event_clock s monotonic = (record s { event_clock = monotonic }, ok tt)
set_event_clock s realtime = (record s { event_clock = realtime }, ok tt)
set_event_clock s hte = (record s { event_clock = hte }, ok tt)
set_event_clock s (LineClock.other n) = (record s { event_clock = monotonic }, err einval)

-- gpiod_set_output_value: what is stored through `out`, and the outcome.
unfoldable pub checked_output_value : LineValue → LineValue × Result (Unit {0})
checked_output_value inactive = (inactive, ok tt)
checked_output_value active = (active, ok tt)
checked_output_value _ = (inactive, err einval)

-- gpiod_line_settings_set_output_value
unfoldable pub set_output_value : LineSettings → LineValue → LineSettings × Result (Unit {0})
unfolding checked_output_value
set_output_value s value =
    let (stored, outcome) = checked_output_value value in
    (record s { output_value = stored }, outcome)

-- The getters.
abbrev pub get_direction : LineSettings → LineDirection
get_direction s = s.direction

abbrev pub get_edge_detection : LineSettings → LineEdge
get_edge_detection s = s.edge_detection

abbrev pub get_bias : LineSettings → LineBias
get_bias s = s.bias

abbrev pub get_drive : LineSettings → LineDrive
get_drive s = s.drive

abbrev pub get_active_low : LineSettings → Bool
get_active_low s = s.active_low

abbrev pub get_debounce_period_us : LineSettings → ℕ
get_debounce_period_us s = s.debounce_period_us

abbrev pub get_event_clock : LineSettings → LineClock
get_event_clock s = s.event_clock

abbrev pub get_output_value : LineSettings → LineValue
get_output_value s = s.output_value

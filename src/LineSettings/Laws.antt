-- ===== src/LineSettings/Laws.antt =====
-- Settings hold only values that the setters accept, whatever they are called with.
use libgpiod.Prelude.{
  ℕ, ◌≡◌, Bool, true, false, List, [], ◌∷◌, arith, ok, err, einval, Result, if◌then◌else◌,
}
use libgpiod.Enums.{
  LineValue, inactive, active, LineDirection, LineEdge, LineBias, unknown, LineDrive, LineClock,
}
use libgpiod.LineSettings.{
  LineSettings, settings_reset, set_direction, set_edge_detection, set_bias, set_drive,
  set_active_low, set_debounce_period_us, set_event_clock, set_output_value,
}

-- The values that each setter takes without an error.
abbrev pub is_direction : LineDirection → Bool
is_direction (LineDirection.other n) = false
is_direction _ = true

abbrev pub is_edge : LineEdge → Bool
is_edge (LineEdge.other n) = false
is_edge _ = true

abbrev pub is_bias : LineBias → Bool
is_bias (LineBias.other n) = false
is_bias unknown = false
is_bias _ = true

abbrev pub is_drive : LineDrive → Bool
is_drive (LineDrive.other n) = false
is_drive _ = true

abbrev pub is_clock : LineClock → Bool
is_clock (LineClock.other n) = false
is_clock _ = true

abbrev pub is_value : LineValue → Bool
is_value inactive = true
is_value active = true
is_value _ = false

pub record IsValid (s : LineSettings) : Type 0 where
  pub direction_ok : is_direction s.direction ≡ true
  pub edge_ok : is_edge s.edge_detection ≡ true
  pub bias_ok : is_bias s.bias ≡ true
  pub drive_ok : is_drive s.drive ≡ true
  pub clock_ok : is_clock s.event_clock ≡ true
  pub value_ok : is_value s.output_value ≡ true

-- A call of a setter, with its argument.
pub data SettingsCall : Type 0 where
  direction : LineDirection → SettingsCall
  edge_detection : LineEdge → SettingsCall
  bias : LineBias → SettingsCall
  drive : LineDrive → SettingsCall
  active_low : Bool → SettingsCall
  debounce_period_us : ℕ → SettingsCall
  event_clock : LineClock → SettingsCall
  output_value : LineValue → SettingsCall
  reset : SettingsCall

unfoldable pub call : LineSettings → SettingsCall → LineSettings × Result (Unit {0})
unfolding set_active_low set_debounce_period_us
call s (direction d) = set_direction s d
call s (edge_detection e) = set_edge_detection s e
call s (bias b) = set_bias s b
call s (drive d) = set_drive s d
call s (active_low b) = (set_active_low s b, ok tt)
call s (debounce_period_us n) = (set_debounce_period_us s n, ok tt)
call s (event_clock c) = set_event_clock s c
call s (output_value v) = set_output_value s v
call s reset = (settings_reset, ok tt)

unfoldable pub run : LineSettings → List SettingsCall → LineSettings
run s [] = s
run s (c ∷ cs) = run (call s c).0 cs

pub settings_reset-IsValid : IsValid settings_reset
settings_reset-IsValid = ground arith

call-IsValid : (s : LineSettings) (c : SettingsCall) → IsValid s → IsValid (call s c).0
unfolding call set_direction set_edge_detection set_bias set_drive set_event_clock set_output_value
call-IsValid s (direction d) v = ground arith
call-IsValid s (output_value x) v = ground arith
call-IsValid s _ v = ground arith

-- Settings that start from the defaults hold only accepted values after any calls, also calls
-- with values that no enumeration names.
pub run-IsValid : (s : LineSettings) (cs : List SettingsCall) → IsValid s → IsValid (run s cs)
unfolding run
run-IsValid s [] v = v
run-IsValid s (c ∷ cs) v = run-IsValid (call s c).0 cs (call-IsValid s c v)

abbrev pub accepts : SettingsCall → Bool
accepts (direction d) = is_direction d
accepts (edge_detection e) = is_edge e
accepts (bias b) = is_bias b
accepts (drive d) = is_drive d
accepts (event_clock c) = is_clock c
accepts (output_value v) = is_value v
accepts _ = true

-- The plain assignment that a call asks for.
abbrev pub store : LineSettings → SettingsCall → LineSettings
store s (direction d) = record s { direction = d }
store s (edge_detection e) = record s { edge_detection = e }
store s (bias b) = record s { bias = b }
store s (drive d) = record s { drive = d }
store s (active_low b) = record s { active_low = b }
store s (debounce_period_us n) = record s { debounce_period_us = n }
store s (event_clock c) = record s { event_clock = c }
store s (output_value v) = record s { output_value = v }
store s reset = settings_reset

-- The same call with the default of gpiod_line_settings_reset for its argument.
abbrev pub with_default : SettingsCall → SettingsCall
with_default (direction d) = direction settings_reset.direction
with_default (edge_detection e) = edge_detection settings_reset.edge_detection
with_default (bias b) = bias settings_reset.bias
with_default (drive d) = drive settings_reset.drive
with_default (event_clock c) = event_clock settings_reset.event_clock
with_default (output_value v) = output_value settings_reset.output_value
with_default c = c

-- An accepted value is stored and the call succeeds; for any other value the call fails with
-- EINVAL and stores the setting's default. No other setting changes.
pub call_lem :
    (s : LineSettings) (c : SettingsCall)
    → call s c ≡ (if accepts c then (store s c, ok tt) else (store s (with_default c), err einval))
unfolding call set_direction set_edge_detection set_bias set_drive set_event_clock set_output_value
call_lem s (direction d) = ground arith
call_lem s (output_value v) = ground arith
call_lem s _ = ground arith

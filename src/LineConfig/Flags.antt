-- ===== src/LineConfig/Flags.antt =====
-- make_kernel_flags and settings_equal of lib/line-config.c.
pub mod Laws
use libgpiod.Prelude.{ℕ, ◌==◌, bit_or, Bool, true, false, ◌&&◌, if◌then◌else◌}
use libgpiod.Enums.{
  LineDirection, input, output, LineEdge, rising, falling, both, LineBias, disabled, pull_up,
  pull_down, LineDrive, open_drain, open_source, LineClock, realtime, hte, direction_code,
  edge_code, bias_code, drive_code, clock_code,
}
use libgpiod.Uapi.{
  flag_active_low, flag_input, flag_output, flag_edge_rising, flag_edge_falling, flag_open_drain,
  flag_open_source, flag_bias_pull_up, flag_bias_pull_down, flag_bias_disabled,
  flag_event_clock_realtime, flag_event_clock_hte,
}
use libgpiod.LineSettings.{
  LineSettings, get_direction, get_edge_detection, get_bias, get_drive, get_active_low,
  get_event_clock,
}

-- Each switch of make_kernel_flags, on the flags so far.
pub or_direction : ℕ → LineDirection → ℕ
or_direction flags input = bit_or flags flag_input
or_direction flags output = bit_or flags flag_output
or_direction flags _ = flags

pub or_edge : ℕ → LineEdge → ℕ
or_edge flags falling = bit_or flags (bit_or flag_edge_falling flag_input)
or_edge flags rising = bit_or flags (bit_or flag_edge_rising flag_input)
or_edge flags both = bit_or flags (bit_or (bit_or flag_edge_falling flag_edge_rising) flag_input)
or_edge flags _ = flags

pub or_drive : ℕ → LineDrive → ℕ
or_drive flags open_drain = bit_or flags flag_open_drain
or_drive flags open_source = bit_or flags flag_open_source
or_drive flags _ = flags

pub or_bias : ℕ → LineBias → ℕ
or_bias flags disabled = bit_or flags flag_bias_disabled
or_bias flags pull_up = bit_or flags flag_bias_pull_up
or_bias flags pull_down = bit_or flags flag_bias_pull_down
or_bias flags _ = flags

pub or_active_low : ℕ → Bool → ℕ
or_active_low flags true = bit_or flags flag_active_low
or_active_low flags false = flags

pub or_clock : ℕ → LineClock → ℕ
or_clock flags realtime = bit_or flags flag_event_clock_realtime
or_clock flags hte = bit_or flags flag_event_clock_hte
or_clock flags _ = flags

unfoldable pub make_kernel_flags : LineSettings → ℕ
unfolding or_direction or_edge or_drive or_bias or_active_low or_clock
make_kernel_flags s =
    let directed = or_direction 0 (get_direction s) in
    let edged = or_edge directed (get_edge_detection s) in
    let driven = or_drive edged (get_drive s) in
    let biased = or_bias driven (get_bias s) in
    let active = or_active_low biased (get_active_low s) in or_clock active (get_event_clock s)

pub bool_code : Bool → ℕ
bool_code false = 0
bool_code true = 1

-- settings_equal: the early returns, in their order. The debounce period and the output value are
-- not compared.
unfoldable pub settings_equal : LineSettings → LineSettings → Bool
unfolding bool_code
settings_equal left right =
    (direction_code (get_direction left) == direction_code (get_direction right))
    && (edge_code (get_edge_detection left) == edge_code (get_edge_detection right))
    && (bias_code (get_bias left) == bias_code (get_bias right))
    && (drive_code (get_drive left) == drive_code (get_drive right))
    && (bool_code (get_active_low left) == bool_code (get_active_low right))
    && (clock_code (get_event_clock left) == clock_code (get_event_clock right))

-- ===== src/Enums.antt =====
-- The enumerations of include/gpiod.h. An argument of such a type may hold any integer in C:
-- `other n` is a value that the enumeration does not name.
use libgpiod.Prelude.{ℕ, ◌+◌, Bool, true, false}

pub data LineValue : Type 0 where
  error inactive active : LineValue
  other : ℕ → LineValue

pub data LineDirection : Type 0 where
  as_is input output : LineDirection
  other : ℕ → LineDirection

pub data LineEdge : Type 0 where
  edge_none rising falling both : LineEdge
  other : ℕ → LineEdge

pub data LineBias : Type 0 where
  as_is unknown disabled pull_up pull_down : LineBias
  other : ℕ → LineBias

pub data LineDrive : Type 0 where
  push_pull open_drain open_source : LineDrive
  other : ℕ → LineDrive

pub data LineClock : Type 0 where
  monotonic realtime hte : LineClock
  other : ℕ → LineClock

pub data InfoEventType : Type 0 where
  line_requested line_released line_config_changed : InfoEventType

pub data EdgeEventType : Type 0 where
  rising_edge falling_edge : EdgeEventType

-- C compares enumerations as integers. The named constants are numbered as in gpiod.h, and the
-- others after them, so that equal numbers are equal values.
abbrev pub direction_code : LineDirection → ℕ
direction_code LineDirection.as_is = 1
direction_code input = 2
direction_code output = 3
direction_code (LineDirection.other n) = 4 + n

abbrev pub edge_code : LineEdge → ℕ
edge_code edge_none = 1
edge_code rising = 2
edge_code falling = 3
edge_code both = 4
edge_code (LineEdge.other n) = 5 + n

abbrev pub bias_code : LineBias → ℕ
bias_code LineBias.as_is = 1
bias_code unknown = 2
bias_code disabled = 3
bias_code pull_up = 4
bias_code pull_down = 5
bias_code (LineBias.other n) = 6 + n

abbrev pub drive_code : LineDrive → ℕ
drive_code push_pull = 1
drive_code open_drain = 2
drive_code open_source = 3
drive_code (LineDrive.other n) = 4 + n

abbrev pub clock_code : LineClock → ℕ
clock_code monotonic = 1
clock_code realtime = 2
clock_code hte = 3
clock_code (LineClock.other n) = 4 + n

-- `value == GPIOD_LINE_VALUE_ACTIVE`
abbrev pub value_is_active : LineValue → Bool
value_is_active active = true
value_is_active _ = false

-- The conversion of a value to `bool`: GPIOD_LINE_VALUE_INACTIVE alone is 0.
abbrev pub value_is_nonzero : LineValue → Bool
value_is_nonzero inactive = false
value_is_nonzero _ = true

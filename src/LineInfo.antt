-- ===== src/LineInfo.antt =====
-- lib/line-info.c. The name and the consumer are arrays of GPIO_MAX_NAME_SIZE bytes.
pub mod RoundTrip
mod Tests
use libgpiod.Prelude.{
  ℕ, ◌==◌, bit_and, Bool, true, false, not, ◌&&◌, if◌then◌else◌, Option, none, some, List, [], ◌∷◌,
}
use libgpiod.Prelude.Chars.{text, strncpy}
use libgpiod.Enums.{
  LineDirection, input, output, LineEdge, edge_none, rising, falling, both, LineBias, unknown,
  disabled, pull_up, pull_down, LineDrive, push_pull, open_drain, open_source, LineClock, monotonic,
  realtime, hte,
}
use libgpiod.Uapi.{
  gpio_max_name_size, LineAttribute, attr_debounce, V2LineInfo, flag_used, flag_active_low,
  flag_output, flag_edge_rising, flag_edge_falling, flag_open_drain, flag_open_source,
  flag_bias_pull_up, flag_bias_pull_down, flag_bias_disabled, flag_event_clock_realtime,
  flag_event_clock_hte,
}

pub record LineInfo : Type 0 where
  pub offset : ℕ
  pub name : List ℕ
  pub used : Bool
  pub consumer : List ℕ
  pub direction : LineDirection
  pub active_low : Bool
  pub bias : LineBias
  pub drive : LineDrive
  pub edge : LineEdge
  pub event_clock : LineClock
  pub debounced : Bool
  pub debounce_period_us : ℕ

-- gpiod_line_info_copy
abbrev pub info_copy : Bool → LineInfo → Option LineInfo
info_copy true i = some i
info_copy false i = none

abbrev pub get_offset : LineInfo → ℕ
get_offset i = i.offset

-- The text of an array, or NULL if it begins with '\0'.
abbrev pub text_or_null : List ℕ → Option (List ℕ)
text_or_null t = elim t [ [] ↦ none | x ∷ xs ↦ some (x ∷ xs) ]

unfoldable pub get_name : LineInfo → Option (List ℕ)
get_name i = text_or_null (text i.name)

abbrev pub is_used : LineInfo → Bool
is_used i = i.used

unfoldable pub get_consumer : LineInfo → Option (List ℕ)
get_consumer i = text_or_null (text i.consumer)

abbrev pub get_direction : LineInfo → LineDirection
get_direction i = i.direction

abbrev pub is_active_low : LineInfo → Bool
is_active_low i = i.active_low

abbrev pub get_bias : LineInfo → LineBias
get_bias i = i.bias

abbrev pub get_drive : LineInfo → LineDrive
get_drive i = i.drive

abbrev pub get_edge_detection : LineInfo → LineEdge
get_edge_detection i = i.edge

abbrev pub get_event_clock : LineInfo → LineClock
get_event_clock i = i.event_clock

abbrev pub is_debounced : LineInfo → Bool
is_debounced i = i.debounced

abbrev pub get_debounce_period_us : LineInfo → ℕ
get_debounce_period_us i = i.debounce_period_us

-- `flags & flag` as a condition.
unfoldable pub has_flag : ℕ → ℕ → Bool
has_flag flags flag = not (bit_and flags flag == 0)

-- The if-else chains of gpiod_line_info_from_uapi.
pub read_direction : ℕ → LineDirection
unfolding has_flag
read_direction flags = if has_flag flags flag_output then output else input

pub read_bias : ℕ → LineBias
unfolding has_flag
read_bias flags =
    if has_flag flags flag_bias_pull_up
    then pull_up
    else if has_flag flags flag_bias_pull_down
    then pull_down
    else if has_flag flags flag_bias_disabled
    then disabled
    else unknown

pub read_drive : ℕ → LineDrive
unfolding has_flag
read_drive flags =
    if has_flag flags flag_open_drain
    then open_drain
    else if has_flag flags flag_open_source
    then open_source
    else push_pull

pub read_edge : ℕ → LineEdge
unfolding has_flag
read_edge flags =
    if has_flag flags flag_edge_rising && has_flag flags flag_edge_falling
    then both
    else if has_flag flags flag_edge_rising
    then rising
    else if has_flag flags flag_edge_falling
    then falling
    else edge_none

pub read_clock : ℕ → LineClock
unfolding has_flag
read_clock flags =
    if has_flag flags flag_event_clock_realtime
    then realtime
    else if has_flag flags flag_event_clock_hte
    then hte
    else monotonic

-- The loop over the attributes: the last debounce attribute, if any.
pub read_debounce : List LineAttribute → Bool × ℕ → Bool × ℕ
read_debounce [] d = d
read_debounce (attr_debounce period ∷ attrs) d = read_debounce attrs (true, period)
read_debounce (_ ∷ attrs) d = read_debounce attrs d

-- What gpiod_line_info_from_uapi writes to the object.
pub described : V2LineInfo → LineInfo
unfolding read_direction read_bias read_drive read_edge read_clock read_debounce has_flag
described uapi =
    let d = read_debounce uapi.attrs (false, 0) in
    record {
      offset = uapi.offset;
      name = strncpy gpio_max_name_size uapi.name;
      used = has_flag uapi.flags flag_used;
      consumer = strncpy gpio_max_name_size uapi.consumer;
      direction = read_direction uapi.flags;
      active_low = has_flag uapi.flags flag_active_low;
      bias = read_bias uapi.flags;
      drive = read_drive uapi.flags;
      edge = read_edge uapi.flags;
      event_clock = read_clock uapi.flags;
      debounced = d.0;
      debounce_period_us = d.1;
    }

-- gpiod_line_info_from_uapi; the Boolean tells whether malloc gives memory.
unfoldable pub line_info_from_uapi : Bool → V2LineInfo → Option LineInfo
unfolding described
line_info_from_uapi false uapi = none
line_info_from_uapi true uapi = some (described uapi)

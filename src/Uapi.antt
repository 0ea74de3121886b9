-- ===== src/Uapi.antt =====
-- The kernel's structures and constants of lib/uapi/gpio.h that the library fills in or reads.
-- A `char name[32]` is the list of its 32 bytes. A prefix of an array that a count delimits is
-- the list of the entries in use, so the count is the list's length.
use libgpiod.Prelude.{ℕ, ◌^◌, List}

abbrev pub gpio_max_name_size : ℕ
gpio_max_name_size = 32

abbrev pub gpio_v2_lines_max : ℕ
gpio_v2_lines_max = 64

abbrev pub gpio_v2_line_num_attrs_max : ℕ
gpio_v2_line_num_attrs_max = 10

-- enum gpio_v2_line_flag: each flag is `1 << n`.
abbrev pub flag_used : ℕ
flag_used = 2 ^ 0

abbrev pub flag_active_low : ℕ
flag_active_low = 2 ^ 1

abbrev pub flag_input : ℕ
flag_input = 2 ^ 2

abbrev pub flag_output : ℕ
flag_output = 2 ^ 3

abbrev pub flag_edge_rising : ℕ
flag_edge_rising = 2 ^ 4

abbrev pub flag_edge_falling : ℕ
flag_edge_falling = 2 ^ 5

abbrev pub flag_open_drain : ℕ
flag_open_drain = 2 ^ 6

abbrev pub flag_open_source : ℕ
flag_open_source = 2 ^ 7

abbrev pub flag_bias_pull_up : ℕ
flag_bias_pull_up = 2 ^ 8

abbrev pub flag_bias_pull_down : ℕ
flag_bias_pull_down = 2 ^ 9

abbrev pub flag_bias_disabled : ℕ
flag_bias_disabled = 2 ^ 10

abbrev pub flag_event_clock_realtime : ℕ
flag_event_clock_realtime = 2 ^ 11

abbrev pub flag_event_clock_hte : ℕ
flag_event_clock_hte = 2 ^ 12

-- struct gpio_v2_line_attribute: the union with the id that selects its member; `unknown_attr`
-- has another id.
pub data LineAttribute : Type 0 where
  attr_flags attr_output_values attr_debounce : ℕ → LineAttribute
  unknown_attr : ℕ → LineAttribute

pub record LineConfigAttribute : Type 0 where
  pub attr : LineAttribute
  pub mask : ℕ

pub record V2LineConfig : Type 0 where
  pub flags : ℕ
  pub attrs : List LineConfigAttribute

pub record V2LineRequest : Type 0 where
  pub offsets : List ℕ
  pub consumer : List ℕ
  pub config : V2LineConfig
  pub event_buffer_size : ℕ
  pub fd : ℕ

pub record V2LineInfo : Type 0 where
  pub name : List ℕ
  pub consumer : List ℕ
  pub offset : ℕ
  pub flags : ℕ
  pub attrs : List LineAttribute

pub record V2LineInfoChanged : Type 0 where
  pub info : V2LineInfo
  pub timestamp_ns : ℕ
  pub event_type : ℕ

pub record V2LineEvent : Type 0 where
  pub timestamp_ns : ℕ
  pub id : ℕ
  pub offset : ℕ
  pub seqno : ℕ
  pub line_seqno : ℕ

pub record V2LineValues : Type 0 where
  pub bits : ℕ
  pub mask : ℕ

pub record GpiochipInfo : Type 0 where
  pub name : List ℕ
  pub label : List ℕ
  pub lines : ℕ

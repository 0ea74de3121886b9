-- ===== src/InfoEvent.antt =====
-- lib/info-event.c.
pub mod Laws
mod Tests
use libgpiod.Prelude.{
  ℕ, ◌==◌, ◌%◌, ◌^◌, ltb, Bool, true, false, if◌then◌else◌, Option, none, some, Result, ok, err,
  enomem, enomsg, eio,
}
use libgpiod.Enums.{InfoEventType, line_requested, line_released, line_config_changed}
use libgpiod.Uapi.{V2LineInfoChanged}
use libgpiod.Kernel.{Kernel}
use libgpiod.LineInfo.{LineInfo, line_info_from_uapi}

pub record InfoEvent : Type 0 where
  pub event_type : InfoEventType
  pub timestamp : ℕ
  pub info : LineInfo

-- The switch over the kernel's event type; `none` is the default branch.
pub event_type_from_uapi : ℕ → Option InfoEventType
event_type_from_uapi n =
    if n == 1
    then some line_requested
    else if n == 2
    then some line_released
    else if n == 3
    then some line_config_changed
    else none

attach_info : InfoEventType → ℕ → Option LineInfo → Result InfoEvent
attach_info t timestamp none = err enomem
attach_info t timestamp (some info) =
    ok (record { event_type = t; timestamp = timestamp; info = info })

typed_event : Option InfoEventType → Bool → V2LineInfoChanged → Result InfoEvent
unfolding attach_info
typed_event none info_memory uapi = err enomsg
typed_event (some t) info_memory uapi =
    attach_info t uapi.timestamp_ns (line_info_from_uapi info_memory uapi.info)

-- gpiod_info_event_from_uapi; the Booleans tell whether the two allocations give memory.
unfoldable pub info_event_from_uapi : Bool → Bool → V2LineInfoChanged → Result InfoEvent
unfolding event_type_from_uapi typed_event
info_event_from_uapi false info_memory uapi = err enomem
info_event_from_uapi true info_memory uapi =
    typed_event (event_type_from_uapi uapi.event_type) info_memory uapi

abbrev pub get_event_type : InfoEvent → InfoEventType
get_event_type e = e.event_type

abbrev pub get_timestamp_ns : InfoEvent → ℕ
get_timestamp_ns e = e.timestamp

abbrev pub get_line_info : InfoEvent → LineInfo
get_line_info e = e.info

-- sizeof(struct gpio_v2_line_info_changed)
abbrev pub sizeof_info_changed : ℕ
sizeof_info_changed = 288

-- After the read of `rd` bytes.
unfoldable pub info_event_after_read : Result ℕ → Bool → Bool → V2LineInfoChanged → Result InfoEvent
info_event_after_read (err e) m n uapi = err e
info_event_after_read (ok rd) m n uapi =
    if ltb (rd % 2 ^ 32) sizeof_info_changed then err eio else info_event_from_uapi m n uapi

module _ (kernel : Kernel) where
  open kernel use {World, read_info_event}

  -- gpiod_info_event_read_fd
  unfoldable pub info_event_read_fd : World → ℕ → Bool → Bool → World × Result InfoEvent
  unfolding info_event_after_read
  info_event_read_fd w fd m n =
      let (w', rd, uapi) = read_info_event w fd in (w', info_event_after_read rd m n uapi)

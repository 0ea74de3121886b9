-- ===== src/InfoEvent/Tests.antt =====
-- Events about lines, read from a kernel.
use libgpiod.Prelude.{◌≡◌, ◌≢◌, refl, true, none, some, ◌∷◌, ok, err, eio, arith, false, replicate}
use libgpiod.Enums.{
  input, unknown, push_pull, edge_none, monotonic, InfoEventType, line_requested, line_released,
  line_config_changed,
}
use libgpiod.Uapi.{V2LineInfoChanged}
use libgpiod.Fakes.{fake_kernel, fake_line}
use libgpiod.Prelude.Chars.{strncpy}
use libgpiod.LineInfo.{LineInfo, line_info_from_uapi}
use libgpiod.InfoEvent.{
  InfoEvent, event_type_from_uapi, info_event_from_uapi, info_event_after_read, info_event_read_fd,
}
use libgpiod.InfoEvent.Laws.{uapi_type, info_event_from_uapi-uapi_type}

abbrev released : V2LineInfoChanged
released = record { info = fake_line 1; timestamp_ns = 9; event_type = 2 }

abbrev strange : V2LineInfoChanged
strange = record released { event_type = 4 }

abbrev line : LineInfo
line = record {
  offset = 1;
  name = b'b' ∷ replicate 31 0;
  used = false;
  consumer = replicate 32 0;
  direction = input;
  active_low = false;
  bias = unknown;
  drive = push_pull;
  edge = edge_none;
  event_clock = monotonic;
  debounced = false;
  debounce_period_us = 0;
}

abbrev released_event : InfoEvent
released_event = record { event_type = line_released; timestamp = 9; info = line }

types : (event_type_from_uapi 1 ≡ some line_requested) × (event_type_from_uapi 0 ≡ none)
unfolding event_type_from_uapi
types = (refl, refl)

read_released : info_event_read_fd fake_kernel 6 5 true true ≡ (6, ok released_event)
unfolding info_event_read_fd info_event_from_uapi line_info_from_uapi strncpy
read_released = refl

short_read : info_event_after_read (ok 287) true true released ≡ err eio
unfolding info_event_after_read
short_read = refl

info_event_from_uapi-uapi_type_example : info_event_from_uapi true true released ≡ ok released_event
unfolding line_info_from_uapi strncpy
info_event_from_uapi-uapi_type_example =
    info_event_from_uapi-uapi_type released line_released line refl refl

no_type : (t : InfoEventType) → 4 ≢ uapi_type t
no_type line_requested = omega arith
no_type line_released = omega arith
no_type line_config_changed = omega arith

-- ===== src/InfoEvent/Laws.antt =====
-- Which of the kernel's events the library takes.
use libgpiod.Prelude.{ℕ, ◌≡◌, ◌≢◌, Bool, true, some, ok, err, enomsg, arith}
use libgpiod.Enums.{InfoEventType, line_requested, line_released, line_config_changed}
use libgpiod.Uapi.{V2LineInfoChanged}
use libgpiod.LineInfo.{LineInfo, line_info_from_uapi}
use libgpiod.InfoEvent.{typed_event, attach_info, info_event_from_uapi}

-- The kernel's number of an event type.
abbrev pub uapi_type : InfoEventType → ℕ
uapi_type line_requested = 1
uapi_type line_released = 2
uapi_type line_config_changed = 3

-- With memory, a kernel event with the number of a type becomes an event of that type, with the
-- kernel's time stamp and the line's info.
pub info_event_from_uapi-uapi_type :
    (uapi : V2LineInfoChanged) (t : InfoEventType) (info : LineInfo)
    → uapi.event_type ≡ uapi_type t
    → line_info_from_uapi true uapi.info ≡ some info
    → info_event_from_uapi true true uapi
      ≡ ok (record { event_type = t; timestamp = uapi.timestamp_ns; info = info })
unfolding info_event_from_uapi attach_info
info_event_from_uapi-uapi_type uapi line_requested info e i =
    rw (e, typed_event) (rw (i, attach_info))
info_event_from_uapi-uapi_type uapi line_released info e i =
    rw (e, typed_event) (rw (i, attach_info))
info_event_from_uapi-uapi_type uapi line_config_changed info e i =
    rw (e, typed_event) (rw (i, attach_info))

-- A kernel event with no type's number is refused with ENOMSG.
pub info_event_from_uapi-unknown :
    (uapi : V2LineInfoChanged) (memory : Bool)
    → ((t : InfoEventType) → uapi.event_type ≢ uapi_type t)
    → info_event_from_uapi true memory uapi ≡ err enomsg
unfolding info_event_from_uapi
info_event_from_uapi-unknown uapi memory h =
    ground (arith, h line_requested, h line_released, h line_config_changed)

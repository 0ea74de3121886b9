-- ===== src/EdgeEvent.antt =====
-- lib/edge-event.c. `events` is the array of `capacity` events, of which the first `num_events`
-- count. The array of the kernel's events is filled and read within one call.
pub mod Laws
mod Tests
use libgpiod.Prelude.{
  ℕ, zero, suc, ◌*◌, ◌/◌, ◌%◌, ◌^◌, ◌==◌, ltb, leb, Bool, true, false, if◌then◌else◌, Option, none,
  some, List, [], ◌∷◌, ◌++◌, map, length, take, replicate, get_elem?, Result, ok, err, einval,
  enomem, eio,
}
use libgpiod.Enums.{EdgeEventType, rising_edge, falling_edge}
use libgpiod.Uapi.{V2LineEvent, gpio_v2_lines_max}
use libgpiod.Kernel.{Kernel}

abbrev pub event_buffer_max_capacity : ℕ
event_buffer_max_capacity = gpio_v2_lines_max * 16

pub record EdgeEvent : Type 0 where
  pub event_type : EdgeEventType
  pub timestamp : ℕ
  pub line_offset : ℕ
  pub global_seqno : ℕ
  pub line_seqno : ℕ

-- A slot of the array: an event, or the zero bytes of calloc and memset, whose type 0 is no
-- enumerator.
abbrev pub Slot : Type 0
Slot = Option EdgeEvent

pub record EventBuffer : Type 0 where
  pub capacity : ℕ
  pub num_events : ℕ
  pub events : List Slot

-- gpiod_edge_event_copy
abbrev pub event_copy : Bool → EdgeEvent → Option EdgeEvent
event_copy true e = some e
event_copy false e = none

abbrev pub get_event_type : EdgeEvent → EdgeEventType
get_event_type e = e.event_type

abbrev pub get_timestamp_ns : EdgeEvent → ℕ
get_timestamp_ns e = e.timestamp

abbrev pub get_line_offset : EdgeEvent → ℕ
get_line_offset e = e.line_offset

abbrev pub get_global_seqno : EdgeEvent → ℕ
get_global_seqno e = e.global_seqno

abbrev pub get_line_seqno : EdgeEvent → ℕ
get_line_seqno e = e.line_seqno

pub clamped : ℕ → ℕ
clamped capacity =
    let wanted = if capacity == 0 then 64 else capacity in
    if ltb event_buffer_max_capacity wanted then event_buffer_max_capacity else wanted

-- gpiod_edge_event_buffer_new; the Booleans tell whether the three allocations give memory.
unfoldable pub buffer_new : ℕ → Bool → Bool → Bool → Option EventBuffer
unfolding clamped
buffer_new capacity true true true = some (record {
  capacity = clamped capacity;
  num_events = 0;
  events = replicate (clamped capacity) none;
})
buffer_new capacity _ _ _ = none

abbrev pub get_capacity : EventBuffer → ℕ
get_capacity b = b.capacity

abbrev pub get_num_events : EventBuffer → ℕ
get_num_events b = b.num_events

-- gpiod_edge_event_buffer_get_event. An entry past the array is no object of C: `none` inside
-- `some` is an index that the test lets through although the array is shorter.
unfoldable pub get_event : EventBuffer → ℕ → Result (Option Slot)
get_event b index = if leb b.num_events index then err einval else ok (get_elem? b.events index)

-- sizeof(struct gpio_v2_line_event)
abbrev pub sizeof_line_event : ℕ
sizeof_line_event = 48

-- The body of the loop over the events that were read.
unfoldable pub event_from_uapi : V2LineEvent → EdgeEvent
event_from_uapi curr = record {
  event_type = if curr.id == 1 then rising_edge else falling_edge;
  timestamp = curr.timestamp_ns;
  line_offset = curr.offset;
  global_seqno = curr.seqno;
  line_seqno = curr.line_seqno;
}

-- The loop writes the first slots and leaves the others zero.
pub fill : ℕ → List V2LineEvent → List Slot
unfolding event_from_uapi
fill zero evs = []
fill (suc n) [] = none ∷ fill n []
fill (suc n) (e ∷ evs) = some (event_from_uapi e) ∷ fill n evs

-- After the read: `rd` bytes stand in `event_data`. A short count is compared as unsigned int.
pub after_read : EventBuffer → Result ℕ → List V2LineEvent → EventBuffer × Result ℕ
unfolding fill
after_read b (err e) evs = (record b { events = replicate b.capacity none }, err e)
after_read b (ok rd) evs =
    let count = rd / sizeof_line_event in
    if ltb (rd % 2 ^ 32) sizeof_line_event
    then (record b { events = replicate b.capacity none }, err eio)
    else (record b { num_events = count; events = fill b.capacity (take count evs) }, ok count)

module _ (kernel : Kernel) where
  open kernel use {World, read_events}

  -- gpiod_edge_event_buffer_read_fd
  unfoldable pub read_fd :
      World → ℕ → Option EventBuffer → ℕ → World × Option EventBuffer × Result ℕ
  unfolding after_read
  read_fd w fd none max_events = (w, none, err einval)
  read_fd w fd (some b) max_events =
      let count = if ltb b.capacity max_events then b.capacity else max_events in
      let (w', rd, evs) = read_events w fd (count * sizeof_line_event) in
      let (b', answer) = after_read b rd evs in (w', some b', answer)

-- ===== src/EdgeEvent/Tests.antt =====
-- Runs of the event buffer, and the theorems about it at concrete reads.
use libgpiod.Prelude.{
  ◌≡◌, ◌≤◌, ◌<◌, ◌⊎◌, refl, true, none, some, [], ◌∷◌, ok, err, einval, eio, arith,
}
use libgpiod.Enums.{rising_edge}
use libgpiod.Fakes.{fake_event, fake_kernel}
use libgpiod.EdgeEvent.{
  EventBuffer, EdgeEvent, Slot, buffer_new, clamped, get_event, event_from_uapi, fill, after_read,
  read_fd,
}
use libgpiod.EdgeEvent.Laws.{
  IsValid, ReadsAtMost, get_event_bounds, read_fd-IsValid, read_fd_lem, get_event-failed_read,
}

abbrev read_event : EdgeEvent
read_event = record {
  event_type = rising_edge;
  timestamp = 70;
  line_offset = 2;
  global_seqno = 1;
  line_seqno = 1;
}

abbrev empty_buffer : EventBuffer
empty_buffer = record { capacity = 3; num_events = 0; events = none ∷ none ∷ none ∷ [] }

abbrev filled : EventBuffer
filled = record {
  capacity = 3;
  num_events = 2;
  events = some read_event ∷ some read_event ∷ none ∷ [];
}

empty_buffer-IsValid : IsValid empty_buffer
empty_buffer-IsValid = record {
  some_room = omega arith;
  bounded = omega arith;
  allocated = refl;
  counted = omega arith;
}

filled-IsValid : IsValid filled
filled-IsValid = record {
  some_room = omega arith;
  bounded = omega arith;
  allocated = refl;
  counted = omega arith;
}

made : buffer_new 3 true true true ≡ some empty_buffer
unfolding buffer_new
made = refl

clamps : clamped 5000 ≡ 1024
unfolding clamped
clamps = refl

read_two : read_fd fake_kernel 8 5 (some empty_buffer) 2 ≡ (8, some filled, ok 2)
unfolding read_fd
read_two = refl

one_filled : fill 2 (fake_event ∷ []) ≡ some (event_from_uapi fake_event) ∷ none ∷ []
unfolding fill
one_filled = refl

short_read : (after_read filled (ok 47) []).1 ≡ err eio
unfolding after_read
short_read = refl

get_event_bounds_example :
    ((1 < 2) × (s : Slot) × (get_event filled 1 ≡ ok (some s)))
    ⊎ ((2 ≤ 1) × (get_event filled 1 ≡ err einval))
get_event_bounds_example = get_event_bounds filled 1 filled-IsValid

reads_at_most : ReadsAtMost fake_kernel
reads_at_most w fd n = omega arith

read_fd-IsValid_example :
    (b' : EventBuffer) × ((read_fd fake_kernel 8 5 (some empty_buffer) 20).1 ≡ some b') × IsValid b'
read_fd-IsValid_example =
    read_fd-IsValid fake_kernel 8 5 empty_buffer 20 reads_at_most empty_buffer-IsValid

read_fd_lem_example :
    (b' : EventBuffer) × (read_fd fake_kernel 8 5 (some empty_buffer) 2 ≡ (8, some b', ok 2))
    × (get_event b' 1 ≡ ok (some (some read_event)))
read_fd_lem_example =
    read_fd_lem fake_kernel 8 8 5 empty_buffer 2 96 (fake_event ∷ fake_event ∷ []) 1 fake_event
      rising_edge empty_buffer-IsValid refl (omega arith) (omega arith) refl refl

get_event-failed_read_example : get_event (after_read filled (ok 47) []).0 1 ≡ ok (some none)
get_event-failed_read_example =
    get_event-failed_read filled (ok 47) [] 1 filled-IsValid short_read (omega arith)

-- ===== src/EdgeEvent/Laws.antt =====
-- Bounds of the event buffer, and what can be taken from it after a read.
use libgpiod.Prelude.{
  ℕ, zero, suc, ◌*◌, ◌/◌, ◌≤◌, ◌<◌, ◌≡◌, refl, ap, Bool, true, false, none, some, List, [], ◌∷◌,
  length, take, replicate, get_elem?, get_elem?-some, length-replicate, min, ltb, if◌then◌else◌,
  Result, Errno, ok, err, einval, arith, leb, ◌⊎◌, inl, inr, Bool-cases,
}
use libgpiod.Enums.{EdgeEventType, rising_edge, falling_edge}
use libgpiod.Uapi.{V2LineEvent}
use libgpiod.Kernel.{Kernel}
use libgpiod.EdgeEvent.{
  EventBuffer, EdgeEvent, Slot, read_fd, buffer_new, clamped, get_event, event_from_uapi, fill,
  after_read, event_buffer_max_capacity, sizeof_line_event,
}

pub record IsValid (b : EventBuffer) : Type 0 where
  pub some_room : 0 < b.capacity
  pub bounded : b.capacity ≤ event_buffer_max_capacity
  pub allocated : length b.events ≡ b.capacity
  pub counted : b.num_events ≤ b.capacity

clamped_bounds :
    (capacity : ℕ) → (0 < clamped capacity) × (clamped capacity ≤ event_buffer_max_capacity)
unfolding clamped
clamped_bounds capacity = ground arith

-- A buffer that is made has between 1 and 1024 entries, whatever capacity was asked for, and holds
-- no event.
pub buffer_new-IsValid :
    (capacity : ℕ) (m n o : Bool) {b : EventBuffer}
    → buffer_new capacity m n o ≡ some b
    → IsValid b × (b.num_events ≡ 0)
unfolding buffer_new
buffer_new-IsValid capacity true true true {b} h =
    ground (arith, clamped_bounds capacity, length-replicate {A = Slot} (clamped capacity) none)
buffer_new-IsValid capacity true true false h = cc
buffer_new-IsValid capacity true false o h = cc
buffer_new-IsValid capacity false n o h = cc

length-fill : (n : ℕ) (evs : List V2LineEvent) → length (fill n evs) ≡ n
unfolding fill
length-fill zero evs = refl
length-fill (suc n) [] = ap suc (length-fill n [])
length-fill (suc n) (e ∷ evs) = ap suc (length-fill n evs)

get_elem?-fill :
    (n : ℕ) (evs : List V2LineEvent) (i : ℕ) (e : V2LineEvent)
    → i < n
    → get_elem? evs i ≡ some e
    → get_elem? (fill n evs) i ≡ some (some (event_from_uapi e))
unfolding fill
get_elem?-fill zero evs i e h g = elim h [ ]
get_elem?-fill (suc n) [] i e h g = cc
get_elem?-fill (suc n) (x ∷ evs) zero e h g = ground arith
get_elem?-fill (suc n) (x ∷ evs) (suc i) e h g = get_elem?-fill n evs i e (omega arith) g

get_elem?-take :
    (n : ℕ) (evs : List V2LineEvent) (i : ℕ) → i < n → get_elem? (take n evs) i ≡ get_elem? evs i
get_elem?-take zero evs i h = elim h [ ]
get_elem?-take (suc n) [] i h = refl
get_elem?-take (suc n) (x ∷ evs) zero h = refl
get_elem?-take (suc n) (x ∷ evs) (suc i) h = get_elem?-take n evs i (omega arith)

get_elem?-replicate : (n i : ℕ) → i < n → get_elem? (replicate {A = Slot} n none) i ≡ some none
get_elem?-replicate zero i h = elim h [ ]
get_elem?-replicate (suc n) zero h = refl
get_elem?-replicate (suc n) (suc i) h = get_elem?-replicate n i (omega arith)

abbrev pub WithinBuffer : EventBuffer → Result ℕ → Type 0
WithinBuffer b (err e) = Unit {0}
WithinBuffer b (ok rd) = rd ≤ b.capacity * sizeof_line_event

after_read-IsValid :
    (b : EventBuffer) (rd : Result ℕ) (evs : List V2LineEvent)
    → WithinBuffer b rd
    → IsValid b
    → IsValid (after_read b rd evs).0
unfolding after_read
after_read-IsValid b (err e) evs h v = ground (arith, length-replicate {A = Slot} b.capacity none)
after_read-IsValid b (ok rd) evs h v = ground (
  arith,
  length-replicate {A = Slot} b.capacity none,
  length-fill b.capacity (take (rd / sizeof_line_event) evs),
)

-- In a well-formed buffer an index below the number of events is answered by an entry inside the
-- array, and any other by EINVAL.
pub get_event_bounds :
    (b : EventBuffer) (i : ℕ)
    → IsValid b
    → ((i < b.num_events) × (s : Slot) × (get_event b i ≡ ok (some s)))
      ⊎ ((b.num_events ≤ i) × (get_event b i ≡ err einval))
unfolding get_event
get_event_bounds b i v = elim (Bool-cases (leb b.num_events i)) [
  | inl e ↦ inr (ground arith, rw e)
  | inr e ↦
      let (s, g) = get_elem?-some b.events i (ground arith) in inl (ground arith, s, ground arith)
]

-- After a read that fails, the well-formed buffer still counts the events of the read before, and each of them
-- is zero bytes.
pub get_event-failed_read :
    (b : EventBuffer) (rd : Result ℕ) (evs : List V2LineEvent) (i : ℕ) {e : Errno}
    → IsValid b
    → (after_read b rd evs).1 ≡ err e
    → i < b.num_events
    → get_event (after_read b rd evs).0 i ≡ ok (some none)
unfolding after_read get_event
get_event-failed_read b (err x) evs i v r l = ground (arith, get_elem?-replicate b.capacity i)
get_event-failed_read b (ok rd) evs i v r l = ground (arith, get_elem?-replicate b.capacity i)

-- The number by which the kernel names an edge.
abbrev pub edge_id : EdgeEventType → ℕ
edge_id rising_edge = 1
edge_id falling_edge = 2

-- An event as the kernel tells it.
abbrev pub told : V2LineEvent → EdgeEventType → EdgeEvent
told e edge = record {
  event_type = edge;
  timestamp = e.timestamp_ns;
  line_offset = e.offset;
  global_seqno = e.seqno;
  line_seqno = e.line_seqno;
}

event_from_uapi-told :
    (e : V2LineEvent) (edge : EdgeEventType) → e.id ≡ edge_id edge → event_from_uapi e ≡ told e edge
unfolding event_from_uapi
event_from_uapi-told e rising_edge h = rw h refl
event_from_uapi-told e falling_edge h = rw h refl

get_event-after_read :
    (b : EventBuffer) (rd : ℕ) (evs : List V2LineEvent) (i : ℕ) (e : V2LineEvent)
    → rd ≤ b.capacity * sizeof_line_event
    → IsValid b
    → suc i * sizeof_line_event ≤ rd
    → get_elem? evs i ≡ some e
    → ((after_read b (ok rd) evs).1 ≡ ok (rd / sizeof_line_event))
      × (get_event (after_read b (ok rd) evs).0 i ≡ ok (some (some (event_from_uapi e))))
unfolding after_read get_event
get_event-after_read b rd evs i e h v l g = ground (
  arith,
  get_elem?-fill b.capacity (take (rd / sizeof_line_event) evs) i e,
  get_elem?-take (rd / sizeof_line_event) evs i,
)

-- read(2) stores at most as many bytes as it is asked for.
abbrev pub AtMost : ℕ → Result ℕ → Type 0
AtMost n (err e) = Unit {0}
AtMost n (ok rd) = rd ≤ n

module _ (kernel : Kernel) where
  open kernel use {World, read_events}

  abbrev pub ReadsAtMost : Type 0
  ReadsAtMost = (w : World) (fd n : ℕ) → AtMost n (read_events w fd n).1

  -- Through a kernel whose reads store at most the bytes that they are asked for, a read into a
  -- well-formed buffer leaves one, for any number of events wanted and whether it succeeds or not.
  pub read_fd-IsValid :
      (w : World) (fd : ℕ) (b : EventBuffer) (max_events : ℕ)
      → ReadsAtMost
      → IsValid b
      → (b' : EventBuffer) × ((read_fd kernel w fd (some b) max_events).1 ≡ some b') × IsValid b'
  unfolding read_fd
  read_fd-IsValid w fd b max_events small v =
      let count = if ltb b.capacity max_events then b.capacity else max_events in
      let (w', rd, evs) = read_events w fd (count * sizeof_line_event) in
      (
        (after_read b rd evs).0,
        refl,
        after_read-IsValid b rd evs (within rd (small w fd (count * sizeof_line_event))) v,
      )
    where
      within :
          (rd : Result ℕ)
          → AtMost
              ((if ltb b.capacity max_events then b.capacity else max_events) * sizeof_line_event)
              rd
          → WithinBuffer b rd
      within (err e) h = tt
      within (ok rd) h = ground arith

  -- The kernel is asked for as many events as are wanted and fit into the well-formed buffer. If it
  -- stores rd bytes, no more than that, the read returns the number of whole events in them, and
  -- each of those is in the buffer at its place with the edge, the time stamp, the line and the two
  -- sequence numbers that the kernel tells.
  pub read_fd_lem :
      (w w' : World) (fd : ℕ) (b : EventBuffer) (max_events rd : ℕ) (evs : List V2LineEvent) (i : ℕ)
      (e : V2LineEvent) (edge : EdgeEventType)
      → IsValid b
      → read_events w fd (min max_events b.capacity * sizeof_line_event) ≡ (w', ok rd, evs)
      → rd ≤ min max_events b.capacity * sizeof_line_event
      → suc i * sizeof_line_event ≤ rd
      → get_elem? evs i ≡ some e
      → e.id ≡ edge_id edge
      → (b' : EventBuffer) × (read_fd kernel w fd (some b) max_events
          ≡ (w', some b', ok (rd / sizeof_line_event)))
        × (get_event b' i ≡ ok (some (some (told e edge))))
  unfolding read_fd
  read_fd_lem w w' fd b max_events rd evs i e edge v r small l g h =
      let clamp : (if ltb b.capacity max_events then b.capacity else max_events)
          ≡ min max_events b.capacity =
        ground arith in
      let (returned, got) = get_event-after_read b rd evs i e (omega arith) v l g in
      (
        (after_read b (ok rd) evs).0,
        rw (clamp, read_fd) (rw r (rw returned refl)),
        rw got (ap (λ x. ok (some (some x))) (event_from_uapi-told e edge h)),
      )

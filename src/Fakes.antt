-- ===== src/Fakes.antt =====
-- A kernel and a file system for the tests: one chip with three named lines, and line values that
-- are remembered as they are written.
use libgpiod.Prelude.{ℕ, zero, suc, ◌+◌, min, List, [], ◌∷◌, ok}
use libgpiod.Uapi.{GpiochipInfo, V2LineInfo, V2LineEvent}
use libgpiod.Kernel.{Kernel, IoctlReturn}

abbrev pub fake_chip : GpiochipInfo
fake_chip = record { name = b'c' ∷ 0 ∷ []; label = 0 ∷ []; lines = 3 }

-- Lines 1 and 2 are both named "b".
abbrev pub fake_name : ℕ → List ℕ
fake_name zero = b'a' ∷ 0 ∷ []
fake_name (suc n) = b'b' ∷ 0 ∷ []

abbrev pub fake_line : ℕ → V2LineInfo
fake_line n = record { name = fake_name n; consumer = 0 ∷ []; offset = n; flags = 4; attrs = [] }

abbrev pub fake_event : V2LineEvent
fake_event = record { timestamp_ns = 70; id = 1; offset = 2; seqno = 1; line_seqno = 1 }

-- The state is the word of line values.
abbrev pub fake_kernel : Kernel
fake_kernel = record {
  World = ℕ;
  get_chipinfo = λ w fd. (w, fake_chip, IoctlReturn.zero);
  get_lineinfo = λ w fd watch offset. (w, fake_line offset, IoctlReturn.zero);
  unwatch_lineinfo = λ w fd offset. (w, IoctlReturn.zero);
  get_line = λ w fd uapi. (w, record uapi { fd = 5 }, IoctlReturn.zero);
  set_config = λ w fd config. (w, IoctlReturn.zero);
  get_values = λ w fd values. (w, record { bits = w; mask = values.mask }, IoctlReturn.zero);
  set_values = λ w fd values. (values.bits, IoctlReturn.zero);
  open_path = λ w path. (w, ok 3);
  close = λ w fd. w + 1;
  read_events = λ w fd count. (w, ok (min 96 count), fake_event ∷ fake_event ∷ []);
  read_info_event =
      λ w fd. (w, ok 288, record { info = fake_line 1; timestamp_ns = 9; event_type = 2 });
  ppoll = λ w fd timeout. (w, ok 1);
  nanosleep = λ w sec nsec. w + sec;
}

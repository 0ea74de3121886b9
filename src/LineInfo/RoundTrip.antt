-- ===== src/LineInfo/RoundTrip.antt =====
-- The flags that line-config.c writes for the kernel are read back by line-info.c.
use libgpiod.Prelude.{subst, ℕ, ◌≡◌, refl, true, false, ◌||◌, some, arith}
use mathlib.Core.Option.{some-injective}
use libgpiod.Mask.{mask_test_bit}
use libgpiod.Enums.{LineDirection, input, output, LineBias, unknown}
use libgpiod.Uapi.{V2LineInfo}
use libgpiod.LineSettings.{LineSettings}
use libgpiod.LineSettings.Laws.{IsValid}
use libgpiod.LineConfig.Flags.{make_kernel_flags}
use libgpiod.LineConfig.Flags.Laws.{
  make_kernel_flags-bit, direction_bit, edge_bit, drive_bit, bias_bit, active_low_bit, clock_bit,
}
use libgpiod.LineInfo.{
  get_offset, LineInfo, described, has_flag, read_direction, read_bias, read_drive, read_edge,
  read_clock, line_info_from_uapi,
}

abbrev only_output : LineDirection → LineDirection
only_output output = output
only_output _ = input

abbrev known_bias : LineBias → LineBias
known_bias LineBias.as_is = unknown
known_bias b = b

flag_read :
    (s : LineSettings) (k : ℕ)
    → mask_test_bit (make_kernel_flags s) k ≡ (
        clock_bit s.event_clock k
        || (active_low_bit s.active_low k
            || (bias_bit s.bias k
                || (drive_bit s.drive k
                    || (edge_bit s.edge_detection k || direction_bit s.direction k)))))
flag_read = make_kernel_flags-bit

module _ (s : LineSettings) (v : IsValid s) where
  read_direction-make_kernel_flags : read_direction (make_kernel_flags s) ≡ only_output s.direction
  unfolding read_direction has_flag mask_test_bit
  read_direction-make_kernel_flags = ground (arith, flag_read s 3)

  read_edge-make_kernel_flags : read_edge (make_kernel_flags s) ≡ s.edge_detection
  unfolding read_edge has_flag mask_test_bit
  read_edge-make_kernel_flags = ground (arith, flag_read s 4, flag_read s 5)

  read_drive-make_kernel_flags : read_drive (make_kernel_flags s) ≡ s.drive
  unfolding read_drive has_flag mask_test_bit
  read_drive-make_kernel_flags = ground (arith, flag_read s 6, flag_read s 7)

  read_bias-make_kernel_flags : read_bias (make_kernel_flags s) ≡ known_bias s.bias
  unfolding read_bias has_flag mask_test_bit
  read_bias-make_kernel_flags = ground (arith, flag_read s 8, flag_read s 9, flag_read s 10)

  read_clock-make_kernel_flags : read_clock (make_kernel_flags s) ≡ s.event_clock
  unfolding read_clock has_flag mask_test_bit
  read_clock-make_kernel_flags = ground (arith, flag_read s 11, flag_read s 12)

  active_low-make_kernel_flags : has_flag (make_kernel_flags s) 2 ≡ s.active_low
  unfolding has_flag mask_test_bit
  active_low-make_kernel_flags = ground (arith, flag_read s 1)

  used-make_kernel_flags : has_flag (make_kernel_flags s) 1 ≡ false
  unfolding has_flag mask_test_bit
  used-make_kernel_flags = ground (arith, flag_read s 0)

-- A line that the kernel reports with the flags written for valid settings is described by the
-- same edge detection, drive, clock and polarity; its bias reads UNKNOWN where it was left as is,
-- and its direction reads INPUT unless it is OUTPUT. The USED flag is not among those written.
pub line_info_from_uapi-make_kernel_flags :
    (s : LineSettings) (uapi : V2LineInfo) (info : LineInfo)
    → IsValid s
    → uapi.flags ≡ make_kernel_flags s
    → line_info_from_uapi true uapi ≡ some info
    → (info.edge ≡ s.edge_detection)
      × (info.drive ≡ s.drive)
      × (info.event_clock ≡ s.event_clock)
      × (info.active_low ≡ s.active_low)
      × (info.bias ≡ known_bias s.bias)
      × (info.direction ≡ only_output s.direction)
      × (info.used ≡ false)
unfolding line_info_from_uapi described
line_info_from_uapi-make_kernel_flags s uapi info v f h = subst Reads (some-injective _ _ h) (
    rw f (
      read_edge-make_kernel_flags s v,
      read_drive-make_kernel_flags s v,
      read_clock-make_kernel_flags s v,
      active_low-make_kernel_flags s v,
      read_bias-make_kernel_flags s v,
      read_direction-make_kernel_flags s v,
      used-make_kernel_flags s v,
    ))
  where
    Reads : LineInfo → Type 0
    Reads i =
        (i.edge ≡ s.edge_detection)
        × (i.drive ≡ s.drive)
        × (i.event_clock ≡ s.event_clock)
        × (i.active_low ≡ s.active_low)
        × (i.bias ≡ known_bias s.bias)
        × (i.direction ≡ only_output s.direction)
        × (i.used ≡ false)

pub get_offset-described : (uapi : V2LineInfo) → get_offset (described uapi) ≡ uapi.offset
unfolding described
get_offset-described uapi = refl

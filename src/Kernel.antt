-- ===== src/Kernel.antt =====
-- The kernel and the C library as the rest of the library calls them. A kernel is a parameter: its
-- state and what each call answers. Each call is one of lib/uapi/gpio.h or of POSIX; a structure
-- that the kernel writes to is the argument that goes in and the result that comes out.
use libgpiod.Prelude.{ℕ, Bool, List, Result, Errno, ok, err, ebade}
use libgpiod.Uapi.{
  GpiochipInfo, V2LineInfo, V2LineRequest, V2LineConfig, V2LineValues, V2LineEvent,
  V2LineInfoChanged,
}

-- What ioctl returns: -1 with errno, 0, or a positive number.
pub data IoctlReturn : Type 0 where
  failed : Errno → IoctlReturn
  zero : IoctlReturn
  positive : ℕ → IoctlReturn

-- The timespec of ppoll, or NULL.
pub data PollTimeout : Type 0 where
  forever : PollTimeout
  after : (sec nsec : ℕ) → PollTimeout

pub record Kernel : Type 1 where
  pub World : Type 0
  pub get_chipinfo : World → ℕ → World × GpiochipInfo × IoctlReturn
  pub get_lineinfo : World → ℕ → Bool → ℕ → World × V2LineInfo × IoctlReturn
  pub unwatch_lineinfo : World → ℕ → ℕ → World × IoctlReturn
  pub get_line : World → ℕ → V2LineRequest → World × V2LineRequest × IoctlReturn
  pub set_config : World → ℕ → V2LineConfig → World × IoctlReturn
  pub get_values : World → ℕ → V2LineValues → World × V2LineValues × IoctlReturn
  pub set_values : World → ℕ → V2LineValues → World × IoctlReturn
  pub open_path : World → List ℕ → World × Result ℕ
  pub close : World → ℕ → World
  -- read on a line request: the bytes read, and the events that stand in the buffer.
  pub read_events : World → ℕ → ℕ → World × Result ℕ × List V2LineEvent
  -- read on a chip: the bytes read, and the structure.
  pub read_info_event : World → ℕ → World × Result ℕ × V2LineInfoChanged
  -- ppoll for input: the timeout in seconds and nanoseconds, if any, and the number of ready files.
  pub ppoll : World → ℕ → PollTimeout → World × Result ℕ
  -- nanosleep: seconds and nanoseconds.
  pub nanosleep : World → ℕ → ℕ → World

-- gpiod_ioctl: a positive answer is an error.
abbrev pub gpiod_ioctl : IoctlReturn → Result (Unit {0})
gpiod_ioctl (failed e) = err e
gpiod_ioctl zero = ok tt
gpiod_ioctl (positive n) = err ebade

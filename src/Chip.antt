-- ===== src/Chip.antt =====
-- lib/chip.c, gpiod_poll_fd of lib/internal.c. A call that reaches the kernel takes the kernel's state and returns
-- the next one.
pub mod Laws
mod Tests
use libgpiod.Prelude.{
  ℕ, zero, suc, ◌+◌, ◌-◌, ◌*◌, ◌/◌, ◌%◌, ◌==◌, Bool, true, false, if◌then◌else◌, Option, none, some,
  List, [], ◌∷◌, Result, ok, err, einval, enomem, enoent, ◌>>=◌,
}
use libgpiod.Prelude.Chars.{str_equal}
use libgpiod.Uapi.{GpiochipInfo, V2LineInfo, V2LineRequest}
use libgpiod.Kernel.{Kernel, gpiod_ioctl, PollTimeout, forever, after}
use libgpiod.ChipInfo.{ChipInfo, chip_info_from_uapi}
use libgpiod.LineInfo.{LineInfo, line_info_from_uapi}
use libgpiod.InfoEvent.{InfoEvent, info_event_read_fd}
use libgpiod.RequestConfig.{RequestConfig, config_to_uapi}
use libgpiod.LineConfig.{LineConfig}
use libgpiod.LineConfig.ToUapi.{to_uapi}
use libgpiod.LineRequest.{LineRequest, request_from_uapi, cleared}

pub record Chip : Type 0 where
  pub fd : ℕ
  pub path : List ℕ

-- An int64_t number of nanoseconds: at least 0, or negative.
pub data Timeout : Type 0 where
  nanoseconds : ℕ → Timeout
  negative : Timeout

pub poll_timeout : Timeout → PollTimeout
poll_timeout negative = forever
poll_timeout (nanoseconds n) = after (n / 1_000_000_000) (n % 1_000_000_000)

-- The result of gpiod_poll_fd: 1 for any number of ready files.
pub poll_result : Result ℕ → Result ℕ
poll_result (err e) = err e
poll_result (ok n) = if n == 0 then ok 0 else ok 1

abbrev pub from_memory {ℓ} : {A : Type ℓ} → Option A → Result A
from_memory none = err enomem
from_memory (some a) = ok a

abbrev pub get_path : Chip → List ℕ
get_path c = c.path

abbrev pub get_fd : Chip → ℕ
get_fd c = c.fd

-- The structure that gpiod_chip_request_lines hands to the kernel.
pub request_uapi : Option RequestConfig → LineConfig → Result V2LineRequest
request_uapi none line_cfg = to_uapi line_cfg cleared
request_uapi (some req_cfg) line_cfg = to_uapi line_cfg (config_to_uapi req_cfg cleared)

module _ (kernel : Kernel) where
  open kernel use {
    World, get_chipinfo, get_lineinfo, unwatch_lineinfo, get_line, open_path, close, ppoll,
  }

  -- gpiod_poll_fd
  unfoldable pub poll_fd : World → ℕ → Timeout → World × Result ℕ
  unfolding poll_timeout poll_result
  poll_fd w fd timeout =
      let (w', answer) = ppoll w fd (poll_timeout timeout) in (w', poll_result answer)

  pub make_chip : World → ℕ → List ℕ → Bool → Bool → World × Result Chip
  make_chip w fd path true true = (w, ok (record { fd = fd; path = path }))
  make_chip w fd path _ _ = (close w fd, err enomem)

  pub open_checked : World × Result ℕ → List ℕ → Bool → Bool → World × Result Chip
  unfolding make_chip
  open_checked (w, err e) path m n = (w, err e)
  open_checked (w, ok fd) path m n = make_chip w fd path m n

  -- gpiod_chip_open; `check` is the answer of gpiod_check_gpiochip_device.
  pub chip_open :
      World → Option (List ℕ) → (List ℕ → Result (Unit {0})) → Bool → Bool → World × Result Chip
  unfolding open_checked
  chip_open w none check m n = (w, err einval)
  chip_open w (some path) check m n = elim (check path) [
    | err e ↦ (w, err e)
    | ok _ ↦ open_checked (open_path w path) path m n
  ]

  -- gpiod_chip_close
  unfoldable pub chip_close : World → Option Chip → World
  chip_close w none = w
  chip_close w (some c) = close w c.fd

  pub read_chip_info : World → ℕ → World × Result GpiochipInfo
  read_chip_info w fd =
      let (w', info, answer) = get_chipinfo w fd in (w', gpiod_ioctl answer >>= λ _. ok info)

  -- gpiod_chip_get_info
  pub chip_get_info : World → Chip → Bool → World × Result ChipInfo
  unfolding read_chip_info
  chip_get_info w c memory =
      let (w', answer) = read_chip_info w c.fd in
      (w', answer >>= λ info. from_memory (chip_info_from_uapi memory info))

  pub chip_read_line_info : World → ℕ → ℕ → Bool → World × Result V2LineInfo
  chip_read_line_info w fd offset watch =
      let (w', info, answer) = get_lineinfo w fd watch offset in
      (w', gpiod_ioctl answer >>= λ _. ok info)

  pub chip_line_info : World → Chip → ℕ → Bool → Bool → World × Result LineInfo
  unfolding chip_read_line_info
  chip_line_info w c offset watch memory =
      let (w', answer) = chip_read_line_info w c.fd offset watch in
      (w', answer >>= λ info. from_memory (line_info_from_uapi memory info))

  -- gpiod_chip_get_line_info
  pub chip_get_line_info : World → Chip → ℕ → Bool → World × Result LineInfo
  unfolding chip_line_info
  chip_get_line_info w c offset memory = chip_line_info w c offset false memory

  -- gpiod_chip_watch_line_info
  pub chip_watch_line_info : World → Chip → ℕ → Bool → World × Result LineInfo
  unfolding chip_line_info
  chip_watch_line_info w c offset memory = chip_line_info w c offset true memory

  -- gpiod_chip_unwatch_line_info
  pub chip_unwatch_line_info : World → Chip → ℕ → World × Result (Unit {0})
  chip_unwatch_line_info w c offset =
      let (w', answer) = unwatch_lineinfo w c.fd offset in (w', gpiod_ioctl answer)

  -- gpiod_chip_wait_info_event
  pub chip_wait_info_event : World → Chip → Timeout → World × Result ℕ
  unfolding poll_fd
  chip_wait_info_event w c timeout = poll_fd w c.fd timeout

  -- gpiod_chip_read_info_event
  pub chip_read_info_event : World → Chip → Bool → Bool → World × Result InfoEvent
  unfolding info_event_read_fd
  chip_read_info_event w c m n = info_event_read_fd kernel w c.fd m n

  -- The loop of gpiod_chip_get_line_offset_from_name from an offset on, over the lines left.
  pub find_name : ℕ → World → ℕ → ℕ → List ℕ → World × Result ℕ
  find_name zero w fd offset name = (w, err enoent)
  find_name (suc left) w fd offset name =
      let (w', answer) = chip_read_line_info w fd offset false in
      let rest = find_name left w' fd (suc offset) name in
      elim answer [
        | err e ↦ (w', err e)
        | ok info ↦ (if str_equal name info.name then (w', ok offset) else rest)
      ]

  pub find_line : World × Result GpiochipInfo → ℕ → List ℕ → World × Result ℕ
  unfolding find_name
  find_line (w, err e) fd name = (w, err e)
  find_line (w, ok info) fd name = find_name info.lines w fd 0 name

  -- gpiod_chip_get_line_offset_from_name
  pub get_line_offset_from_name : World → Chip → Option (List ℕ) → World × Result ℕ
  unfolding find_line
  get_line_offset_from_name w c none = (w, err einval)
  get_line_offset_from_name w c (some name) = find_line (read_chip_info w c.fd) c.fd name

  -- The request object, or the kernel's descriptor closed again.
  pub keep_or_close : World → V2LineRequest → Option LineRequest → World × Result LineRequest
  keep_or_close w uapi none = (close w uapi.fd, err enomem)
  keep_or_close w uapi (some r) = (w, ok r)

  pub requested :
      World × V2LineRequest × Result (Unit {0}) → List ℕ → Bool → Bool → World × Result LineRequest
  requested (w, uapi, err e) name m n = (w, err e)
  requested (w, uapi, ok _) name m n = keep_or_close w uapi (request_from_uapi uapi name m n)

  pub ioctl_get_line : World → ℕ → V2LineRequest → World × V2LineRequest × Result (Unit {0})
  ioctl_get_line w fd uapi =
      let (w', out, answer) = get_line w fd uapi in (w', out, gpiod_ioctl answer)

  pub request_with :
      World × Result GpiochipInfo → Chip → V2LineRequest → Bool → Bool → World × Result LineRequest
  request_with (w, err e) c uapi m n = (w, err e)
  request_with (w, ok info) c uapi m n = requested (ioctl_get_line w c.fd uapi) info.name m n

  -- gpiod_chip_request_lines
  pub request_lines :
      World
      → Chip
      → Option RequestConfig
      → Option LineConfig
      → Bool
      → Bool
      → World × Result LineRequest
  request_lines w c req_cfg none m n = (w, err einval)
  request_lines w c req_cfg (some line_cfg) m n = elim (request_uapi req_cfg line_cfg) [
    | err e ↦ (w, err e)
    | ok uapi ↦ request_with (read_chip_info w c.fd) c uapi m n
  ]

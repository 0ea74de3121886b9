-- ===== src/Device.antt =====
-- gpiod_check_gpiochip_device of lib/internal.c and gpiod_is_gpiochip_device of lib/misc.c. The
-- file system is a parameter.
pub mod Laws
mod Tests
use libgpiod.Prelude.{
  ℕ, Bool, true, false, if◌then◌else◌, Option, none, some, List, [], ◌∷◌, Result, Errno, ok, err,
  einval, enomem, enotty, enodev, ◌>>=◌,
}
use libgpiod.Prelude.Chars.{same_bytes}

pub data FileKind : Type 0 where
  symbolic_link character_device other_kind : FileKind

pub record FileStat : Type 0 where
  pub kind : FileKind
  pub major : ℕ
  pub minor : ℕ

-- The calls of POSIX that the check makes. `subsystem a b` is realpath on
-- /sys/dev/char/a:b/subsystem.
pub record Files : Type 0 where
  pub lstat : List ℕ → Result FileStat
  pub stat : List ℕ → Result FileStat
  pub realpath : List ℕ → Result (List ℕ)
  pub subsystem : ℕ → ℕ → Result (List ℕ)

-- The bytes of "/sys/bus/gpio".
abbrev pub gpio_bus : List ℕ
gpio_bus =
    b'/' ∷ b's' ∷ b'y' ∷ b's' ∷ b'/' ∷ b'b' ∷ b'u' ∷ b's' ∷ b'/' ∷ b'g' ∷ b'p' ∷ b'i' ∷ b'o' ∷ []

pub strdup : Bool → List ℕ → Result (List ℕ)
strdup true path = ok path
strdup false path = err enomem

-- The name of the file behind a path: a symbolic link is resolved.
pub real_name : Files → Bool → List ℕ → FileKind → Result (List ℕ)
unfolding strdup
real_name files memory path symbolic_link = files.realpath path
real_name files memory path _ = strdup memory path

pub check_bus : List ℕ → Result (Unit {0})
check_bus sysfsp = if same_bytes sysfsp gpio_bus then ok tt else err enodev

pub check_stat : Files → FileStat → Result (Unit {0})
unfolding check_bus
check_stat files st = elim st.kind [
  | character_device ↦ files.subsystem st.major st.minor >>= check_bus
  | _ ↦ err enotty
]

-- The body of the check; an error is the errno that it leaves.
pub check_gpiochip_device : Files → Bool → Option (List ℕ) → Result (Unit {0})
unfolding real_name check_stat
check_gpiochip_device files memory none = err einval
check_gpiochip_device files memory (some path) = files.lstat path >>= λ st.
    real_name files memory path st.kind >>= λ name. files.stat name >>= check_stat files

abbrev pub verdict : Result (Unit {0}) → Bool
verdict (ok _) = true
verdict (err e) = false

abbrev pub errno_of : Result (Unit {0}) → Option Errno
errno_of (ok _) = none
errno_of (err e) = some e

-- gpiod_check_gpiochip_device: the verdict, and errno where it is not 0.
pub check_device : Files → Bool → Option (List ℕ) → Bool → Bool × Option Errno
unfolding check_gpiochip_device
check_device files memory path set_errno =
    let answer = check_gpiochip_device files memory path in
    (verdict answer, if set_errno then errno_of answer else none)

-- gpiod_is_gpiochip_device
pub is_gpiochip_device : Files → Bool → Option (List ℕ) → Bool
unfolding check_device
is_gpiochip_device files memory path = (check_device files memory path false).0

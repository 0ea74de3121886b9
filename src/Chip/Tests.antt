-- ===== src/Chip/Tests.antt =====
-- Runs of the chip's operations through a kernel with one chip, and the theorems about them.
use libgpiod.Prelude.Chars.{strncpy}
use libgpiod.Prelude.{
  ℕ, ◌≡◌, ◌≤◌, ◌<◌, refl, true, false, none, some, List, [], ◌∷◌, ok, err, enomem, enoent, enodev,
  arith, replicate,
}
use libgpiod.Prelude.Chars.{str_equal}
use libgpiod.Kernel.{forever, after}
use libgpiod.Fakes.{fake_kernel, fake_chip, fake_line}
use libgpiod.ChipInfo.{chip_info_from_uapi}
use libgpiod.LineConfig.Samples.{mixed}
use libgpiod.LineConfig.ToUapi.Samples.{mixed_uapi, mixed_translated}
use libgpiod.LineRequest.{request_from_uapi}
use libgpiod.InfoEvent.{info_event_from_uapi}
use libgpiod.Chip.{
  Chip, nanoseconds, negative, poll_timeout, poll_result, poll_fd, request_uapi, chip_open,
  chip_close, chip_get_info, chip_get_line_info, chip_watch_line_info, chip_unwatch_line_info,
  chip_wait_info_event, chip_read_info_event, find_name, find_line, get_line_offset_from_name,
  request_lines, request_with, requested, keep_or_close, read_chip_info, chip_read_line_info,
  ioctl_get_line, open_checked,
}
use libgpiod.Chip.Laws.{
  Answers, get_line_offset_from_name-found, get_line_offset_from_name-ok, request_lines_granted,
}

abbrev chip : Chip
chip = record { fd = 3; path = b'p' ∷ [] }

abbrev chip_name : List ℕ
chip_name = b'c' ∷ 0 ∷ []

abbrev wanted : List ℕ
wanted = b'b' ∷ 0 ∷ []

timeouts :
    (poll_timeout negative ≡ forever) × (poll_timeout (nanoseconds 2_000_000_005) ≡ after 2 5)
unfolding poll_timeout
timeouts = (refl, refl)

polled : (poll_result (ok 3) ≡ ok 1) × (poll_fd fake_kernel 1 3 negative ≡ (1, ok 1))
unfolding poll_result poll_fd
polled = (refl, refl)

opened : chip_open fake_kernel 1 (some (b'p' ∷ [])) (λ path. ok tt) true true ≡ (1, ok chip)
unfolding chip_open
opened = refl

no_chip :
    chip_open fake_kernel 1 (some (b'p' ∷ [])) (λ path. err enodev) true true ≡ (1, err enodev)
unfolding chip_open
no_chip = refl

-- Without memory the descriptor is closed again.
no_memory : open_checked fake_kernel (1, ok 3) (b'p' ∷ []) true false ≡ (2, err enomem)
unfolding open_checked
no_memory = refl

closed : chip_close fake_kernel 1 (some chip) ≡ 2
unfolding chip_close
closed = refl

chip_info :
    (chip_get_info fake_kernel 1 chip true).1
    ≡ ok (record {
      num_lines = 3;
      name = b'c' ∷ replicate 31 0;
      label = b'u' ∷ b'n' ∷ b'k' ∷ b'n' ∷ b'o' ∷ b'w' ∷ b'n' ∷ replicate 25 0;
    })
unfolding chip_get_info chip_info_from_uapi strncpy
chip_info = refl

line_info :
    chip_get_line_info fake_kernel 1 chip 2 true ≡ chip_watch_line_info fake_kernel 1 chip 2 true
unfolding chip_get_line_info chip_watch_line_info
line_info = refl

unwatched : chip_unwatch_line_info fake_kernel 1 chip 2 ≡ (1, ok tt)
unfolding chip_unwatch_line_info
unwatched = refl

waited : chip_wait_info_event fake_kernel 1 chip (nanoseconds 0) ≡ (1, ok 1)
unfolding chip_wait_info_event
waited = refl

no_event : chip_read_info_event fake_kernel 1 chip false true ≡ (1, err enomem)
unfolding chip_read_info_event info_event_from_uapi
no_event = refl

found_first : get_line_offset_from_name fake_kernel 1 chip (some wanted) ≡ (1, ok 1)
unfolding get_line_offset_from_name find_line find_name chip_read_line_info read_chip_info str_equal
found_first = refl

not_found : get_line_offset_from_name fake_kernel 1 chip (some (b'z' ∷ [])) ≡ (1, err enoent)
unfolding get_line_offset_from_name find_line find_name chip_read_line_info read_chip_info str_equal
not_found = refl

translated : request_uapi none mixed ≡ ok mixed_uapi
unfolding request_uapi
translated = mixed_translated

requested_lines :
    request_lines fake_kernel 1 chip none (some mixed) true true
    ≡ (1, ok (record { chip_name = chip_name; offsets = 4 ∷ 9 ∷ 7 ∷ []; fd = 5 }))
unfolding request_lines request_uapi request_with requested keep_or_close read_chip_info
    ioctl_get_line request_from_uapi
requested_lines = rw (translated, request_lines) refl

answers : Answers fake_kernel 3 fake_chip fake_line
answers = ((λ w. refl), (λ w offset. refl))

get_line_offset_from_name-found_example :
    (n : ℕ) × (get_line_offset_from_name fake_kernel 1 chip (some wanted) ≡ (1, ok n))
    × (n ≤ 2)
    × (str_equal wanted (fake_line n).name ≡ true)
unfolding str_equal
get_line_offset_from_name-found_example =
    get_line_offset_from_name-found fake_kernel 1 chip fake_chip fake_line wanted 2 answers
      (omega arith) refl

get_line_offset_from_name-ok_example : (1 < 3) × (str_equal wanted (fake_line 1).name ≡ true)
unfolding get_line_offset_from_name find_line find_name chip_read_line_info read_chip_info str_equal
get_line_offset_from_name-ok_example =
    get_line_offset_from_name-ok fake_kernel 1 chip fake_chip fake_line wanted 1 answers refl

request_lines_granted_example :
    request_lines fake_kernel 1 chip none (some mixed) true false ≡ (2, err enomem)
request_lines_granted_example =
    request_lines_granted fake_kernel 1 1 1 chip none mixed mixed_uapi
      (record mixed_uapi { fd = 5 }) fake_chip true false translated refl refl

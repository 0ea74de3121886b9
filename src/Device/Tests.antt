-- ===== src/Device/Tests.antt =====
-- Checks of paths in a small file system.
use libgpiod.Prelude.{
  ℕ, ◌≡◌, ◌⊎◌, Errno, ◌==◌, refl, true, false, none, some, List, [], ◌∷◌, if◌then◌else◌, Result, ok,
  err, einval,
}
use libgpiod.Prelude.Chars.{same_bytes}
use libgpiod.Device.{
  symbolic_link, character_device, FileStat, Files, gpio_bus, check_device, is_gpiochip_device,
}
use libgpiod.Device.Laws.{IsChip, check_device_lem}

abbrev chip_path : List ℕ
chip_path = b'g' ∷ []

abbrev link_path : List ℕ
link_path = b'l' ∷ b'g' ∷ []

abbrev device : FileStat
device = record { kind = character_device; major = 254; minor = 0 }

-- A path that starts with `l` is a link to the rest; device 254 is the chip.
abbrev fake_stat : List ℕ → Result FileStat
fake_stat [] = err einval
fake_stat (c ∷ cs) = if c == b'l' then ok (record device { kind = symbolic_link }) else ok device

abbrev fake_target : List ℕ → Result (List ℕ)
fake_target [] = err einval
fake_target (c ∷ cs) = if c == b'l' then ok cs else ok (c ∷ cs)

abbrev fake_files : Files
fake_files = record {
  lstat = fake_stat;
  stat = λ path. ok device;
  realpath = fake_target;
  subsystem = λ major minor. if major == 254 then ok gpio_bus else ok [];
}

accepted : check_device fake_files true (some link_path) true ≡ (true, none)
unfolding check_device same_bytes
accepted = refl

refused : check_device fake_files true none true ≡ (false, some einval)
unfolding check_device
refused = refl

is_chip : is_gpiochip_device fake_files true (some chip_path) ≡ true
unfolding is_gpiochip_device same_bytes
is_chip = refl

check_device_lem_example :
    ((check_device fake_files true (some link_path) true ≡ (true, none))
      × IsChip fake_files link_path)
    ⊎ ((e : Errno) × (check_device fake_files true (some link_path) true ≡ (false, some e))
        × (¬ IsChip fake_files link_path))
check_device_lem_example = check_device_lem fake_files link_path true

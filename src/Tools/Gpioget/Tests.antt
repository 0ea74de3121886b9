-- ===== src/Tools/Gpioget/Tests.antt =====
-- Runs of gpioget's functions.
use libgpiod.LineRequest.{release}
use libgpiod.Mask.{mask_test_bit}
use libgpiod.Chip.{chip_close}
use libgpiod.Prelude.{ℕ, ◌≡◌, refl, true, false, none, some, [], ◌∷◌, ok}
use libgpiod.Enums.{LineValue, inactive, active, input}
use libgpiod.Fakes.{fake_kernel}
use libgpiod.Tools.Strings.{bytes}
use libgpiod.Tools.Exit.{going}
use libgpiod.Tools.Resolver.{ResolvedLine, line_init}
use libgpiod.Tools.Gpioget.{GetOptions, values_text, hold, read_requested}

abbrev options : GetOptions
options = record {
  active_low = true;
  by_name = false;
  numeric = true;
  strict = false;
  unquoted = false;
  bias = none;
  direction = input;
  hold_period_us = 0;
  chip_id = none;
  consumer = bytes "gpioget";
}

abbrev line : ℕ → LineValue → ResolvedLine
line offset value = record (line_init true (bytes "a")) {
  resolved = true;
  chip_num = none;
  offset = offset;
  value = value;
}

abbrev on_chip_0 : ResolvedLine → ResolvedLine
on_chip_0 line = record line { chip_num = some 0 }

printed : values_text options (line 1 active ∷ line 2 inactive ∷ []) ≡ bytes "1 0\n"
unfolding values_text
printed = refl

quoted :
    values_text (record options { numeric = false }) (line 1 active ∷ []) ≡ bytes "\"a\"=active\n"
unfolding values_text
quoted = refl

-- The word of values is 2: the first line reads 0 and the second 1. Two descriptors are closed.
read :
    read_requested fake_kernel
      (2, ok (record { chip_name = []; offsets = 4 ∷ 9 ∷ []; fd = 5 }))
      0
      (record { fd = 3; path = [] })
      []
      (on_chip_0 (line 4 active) ∷ on_chip_0 (line 9 inactive) ∷ [])
      0
    ≡ (4, going (on_chip_0 (line 4 inactive) ∷ on_chip_0 (line 9 active) ∷ []))
unfolding read_requested chip_close mask_test_bit release
read = refl

-- The fake kernel's word of values is the seconds that passed.
held : (hold fake_kernel 0 2_000_007 ≡ 2) × (hold fake_kernel 1 0 ≡ 1)
unfolding hold
held = (refl, refl)

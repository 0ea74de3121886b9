-- ===== src/Tools/Gpiodetect/Tests.antt =====
-- Runs of gpiodetect's functions.
use libgpiod.Chip.{chip_close}
use libgpiod.Prelude.{◌≡◌, refl, true, false, [], ok, err, enoent}
use libgpiod.Fakes.{fake_kernel}
use libgpiod.Tools.Strings.{bytes}
use libgpiod.Tools.Exit.{going}
use libgpiod.Tools.Gpiodetect.{chip_text, print_opened, print_read_info}

titled :
    chip_text (record { num_lines = 54; name = bytes "gpiochip0"; label = bytes "soc" })
    ≡ bytes "gpiochip0 [soc] (54 lines)\n"
unfolding chip_text
titled = refl

-- The chip is closed again.
printed :
    print_read_info fake_kernel
      (1, ok (record { num_lines = 3; name = bytes "c"; label = bytes "l" }))
      (record { fd = 3; path = [] })
    ≡ (2, going (bytes "c [l] (3 lines)\n", true))
unfolding print_read_info chip_close
printed = refl

not_opened : print_opened fake_kernel (1, err enoent) ≡ (1, going ([], false))
unfolding print_opened
not_opened = refl

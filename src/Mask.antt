-- ===== src/Mask.antt =====
-- The 64-bit line masks of lib/internal.c. A mask is a number below 2 ^ 64. The C code shifts by
-- a line's index, which is below 64.
pub mod Laws
mod Tests
use libgpiod.Prelude.{ℕ, ◌-◌, ◌^◌, ◌==◌, bit_and, bit_or, Bool, not, if◌then◌else◌}

-- gpiod_line_mask_zero
abbrev pub mask_zero : ℕ
mask_zero = 0

-- gpiod_line_mask_test_bit: the conversion of the word to `bool`.
unfoldable pub mask_test_bit : ℕ → ℕ → Bool
mask_test_bit mask nr = not (bit_and mask (2 ^ nr) == 0)

-- gpiod_line_mask_set_bit
unfoldable pub mask_set_bit : ℕ → ℕ → ℕ
mask_set_bit mask nr = bit_or mask (2 ^ nr)

-- gpiod_line_mask_assign_bit; `~(1ULL << nr)` is 2 ^ 64 - 1 - 2 ^ nr.
unfoldable pub mask_assign_bit : ℕ → ℕ → Bool → ℕ
unfolding mask_set_bit
mask_assign_bit mask nr value =
    if value then mask_set_bit mask nr else bit_and mask (2 ^ 64 - 1 - 2 ^ nr)

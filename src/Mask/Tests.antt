-- ===== src/Mask/Tests.antt =====
-- Runs of the masks.
use libgpiod.Prelude.{◌≡◌, refl, false}
use libgpiod.Mask.{mask_zero, mask_set_bit, mask_assign_bit}

set_runs :
    mask_assign_bit (mask_set_bit (mask_set_bit mask_zero 3) 63) 3 false ≡ 0x8000_0000_0000_0000
unfolding mask_set_bit mask_assign_bit
set_runs = refl

-- ===== src/LineRequest/Tests.antt =====
-- Runs of the operations on a request, and the theorems about them through a kernel that remembers
-- the values.
use libgpiod.Mask.{mask_assign_bit}
use libgpiod.Mask.{mask_set_bit}
use libgpiod.Prelude.{
  ℕ, ◌≡◌, ◌≢◌, ◌⊎◌, refl, true, none, some, List, [], ◌∷◌, ok, err, einval, arith,
}
use libgpiod.Mask.{mask_test_bit}
use libgpiod.Enums.{LineValue, error, inactive, active}
use libgpiod.Fakes.{fake_kernel}
use libgpiod.LineConfig.Samples.{mixed, watched, entry}
use libgpiod.LineConfig.Flags.{make_kernel_flags}
use libgpiod.LineConfig.ToUapi.{config_offsets}
use libgpiod.LineConfig.ToUapi.Effective.{line_flags}
use libgpiod.LineConfig.ToUapi.Samples.{mixed_uapi, mixed_translated}
use libgpiod.LineRequest.{
  LineRequest, get_requested_offsets, offset_to_bit, read_mask, write_masks, values_of, get_value,
  get_all_values, set_value, set_all_values, get_values_subset, set_values_subset,
  reconfigure_lines, release,
}
use libgpiod.Chip.{negative}
use libgpiod.LineRequest.Events.{wait_edge_events, read_edge_events}
use libgpiod.LineRequest.Bits.{last_write}
use libgpiod.LineRequest.Values.{
  values_subset-refused, Remembers, get_values_subset-set_values_subset,
}
use libgpiod.LineRequest.Reconfigure.{reconfigure_lines_lem}

abbrev three : LineRequest
three = record { chip_name = b'c' ∷ []; offsets = 4 ∷ 9 ∷ 7 ∷ []; fd = 5 }

abbrev writes : List (ℕ × LineValue)
writes = (7, active) ∷ (4, active) ∷ (7, inactive) ∷ []

first_two : get_requested_offsets three (some 2) ≡ 4 ∷ 9 ∷ []
unfolding get_requested_offsets
first_two = refl

bit_of_seven : offset_to_bit (4 ∷ 9 ∷ 7 ∷ []) 7 ≡ some 2
unfolding offset_to_bit last_write
bit_of_seven = refl

masks : write_masks (4 ∷ 9 ∷ 7 ∷ []) writes 0 0 ≡ ok (record { bits = 1; mask = 5 })
unfolding write_masks offset_to_bit mask_assign_bit mask_set_bit
masks = refl

read_mask_of : read_mask (4 ∷ 9 ∷ 7 ∷ []) (9 ∷ 7 ∷ []) 0 ≡ ok 6
unfolding read_mask mask_set_bit
read_mask_of = refl

values_read : values_of (4 ∷ 9 ∷ 7 ∷ []) 4 (9 ∷ 7 ∷ []) ≡ inactive ∷ active ∷ []
unfolding values_of offset_to_bit mask_test_bit
values_read = refl

one_value : get_value fake_kernel 2 three 9 ≡ (2, active)
unfolding get_value mask_test_bit
one_value = refl

no_value : get_value fake_kernel 2 three 8 ≡ (2, error)
unfolding get_value
no_value = refl

all_read : get_all_values fake_kernel 2 three true ≡ (2, ok (inactive ∷ active ∷ inactive ∷ []))
unfolding get_all_values mask_test_bit
all_read = refl

one_set : set_value fake_kernel 0 three 7 active ≡ (4, ok tt)
unfolding set_value offset_to_bit mask_assign_bit
one_set = refl

all_set : set_all_values fake_kernel 0 three (some (active ∷ active ∷ inactive ∷ [])) ≡ (3, ok tt)
unfolding set_all_values offset_to_bit mask_assign_bit
all_set = refl

subset_set : set_values_subset fake_kernel 0 three (some writes) ≡ (1, ok tt)
unfolding set_values_subset offset_to_bit mask_assign_bit
subset_set = refl

subset_got :
    get_values_subset fake_kernel 1 three (some (7 ∷ 4 ∷ [])) ≡ (1, ok (inactive ∷ active ∷ []))
unfolding get_values_subset mask_test_bit
subset_got = refl

no_config : reconfigure_lines fake_kernel 1 three none ≡ (1, err einval)
unfolding reconfigure_lines
no_config = refl

closed : release fake_kernel 1 (some three) ≡ 2
unfolding release
closed = refl

waited : wait_edge_events fake_kernel 1 three negative ≡ (1, ok 1)
unfolding wait_edge_events
waited = refl

nothing_read : read_edge_events fake_kernel 1 three none 4 ≡ (1, none, err einval)
unfolding read_edge_events
nothing_read = refl

remembers : Remembers fake_kernel 5
remembers w values mask = (refl, values.bits, values.bits, refl, λ j h k. refl)

get_values_subset-set_values_subset_example :
    ((set_values_subset fake_kernel 0 three (some writes)).1 ≡ ok tt)
    × ((get_values_subset fake_kernel
          (set_values_subset fake_kernel 0 three (some writes)).0
          three
          (some (7 ∷ 4 ∷ 7 ∷ []))).1
        ≡ ok (inactive ∷ active ∷ inactive ∷ []))
unfolding offset_to_bit last_write
get_values_subset-set_values_subset_example =
    get_values_subset-set_values_subset fake_kernel 0 three writes remembers (omega arith) refl

values_subset-refused_example :
    (set_values_subset fake_kernel 0 three (some ((4, active) ∷ (8, active) ∷ []))
      ≡ (0, err einval))
    × (get_values_subset fake_kernel 0 three (some (4 ∷ 8 ∷ [])) ≡ (0, err einval))
unfolding offset_to_bit last_write
values_subset-refused_example =
    values_subset-refused fake_kernel 0 three ((4, active) ∷ (8, active) ∷ []) refl

reconfigure_lines_lem_example :
    ((config_offsets mixed ≡ three.offsets)
      × (reconfigure_lines fake_kernel 0 three (some mixed) ≡ (0, ok tt))
      × (line_flags mixed_uapi.config 1 ≡ make_kernel_flags watched))
    ⊎ ((config_offsets mixed ≢ three.offsets)
        × (reconfigure_lines fake_kernel 0 three (some mixed) ≡ (0, err einval)))
reconfigure_lines_lem_example =
    reconfigure_lines_lem fake_kernel 0 three mixed mixed_uapi 1 (entry 9 watched) mixed_translated
      refl

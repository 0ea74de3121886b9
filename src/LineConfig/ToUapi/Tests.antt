-- ===== src/LineConfig/ToUapi/Tests.antt =====
-- Translations of concrete configs, and the theorems about them.
use libgpiod.Prelude.{◌≡◌, refl, ◌≤◌, true, some, err, e2big, length}
use libgpiod.LineRequest.{cleared}
use libgpiod.LineConfig.{num_configs}
use libgpiod.LineConfig.Samples.{mixed, crowded, driven, watched, entry, mixed-IsValid}
use libgpiod.LineConfig.Flags.{make_kernel_flags}
use libgpiod.Mask.{mask_test_bit, mask_set_bit}
use libgpiod.LineConfig.ToUapi.Samples.{mixed_uapi, mixed_translated}
use libgpiod.LineConfig.ToUapi.{to_uapi, config_offsets, debounce_round}
use libgpiod.LineConfig.ToUapi.Effective.{line_flags, line_debounce, line_value}
use libgpiod.LineConfig.ToUapi.Request.{
  to_uapi-shape, to_uapi-flags, to_uapi-debounce, to_uapi-value,
}
use libgpiod.LineConfig.ToUapi.Total.{to_uapi-err}

crowded_refused : to_uapi crowded cleared ≡ err e2big
unfolding to_uapi debounce_round mask_test_bit mask_set_bit
crowded_refused = refl

to_uapi-shape_example :
    (mixed_uapi.offsets ≡ config_offsets mixed)
    × (length mixed_uapi.config.attrs ≤ 10)
    × (mixed_uapi.consumer ≡ cleared.consumer)
    × (mixed_uapi.event_buffer_size ≡ cleared.event_buffer_size)
to_uapi-shape_example = to_uapi-shape mixed cleared mixed_translated

to_uapi-flags_example : line_flags mixed_uapi.config 1 ≡ make_kernel_flags watched
to_uapi-flags_example = to_uapi-flags mixed cleared mixed_translated 1 (entry 9 watched) refl

to_uapi-debounce_example : line_debounce mixed_uapi.config 1 ≡ 5000
to_uapi-debounce_example = to_uapi-debounce mixed cleared mixed_translated 1 (entry 9 watched) refl

-- Line 2 has no global value, and is driven active by its own settings.
to_uapi-value_example : line_value mixed_uapi.config 2 ≡ some true
to_uapi-value_example =
    to_uapi-value mixed cleared mixed_translated 2 (entry 7 driven) mixed-IsValid refl refl

to_uapi-err_example : (e2big ≡ e2big) × (6 ≤ num_configs crowded)
to_uapi-err_example = to_uapi-err crowded cleared crowded_refused

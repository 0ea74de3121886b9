-- ===== src/LineConfig/Tests.antt =====
-- Runs of lib/line-config.c, and the theorems about it at concrete configs.
use libgpiod.Prelude.{◌≡◌, refl, true, none, some, [], ◌∷◌, ok, err, einval, arith}
use libgpiod.Mask.{mask_test_bit}
use libgpiod.Enums.{error, inactive, active}
use libgpiod.LineSettings.{settings_reset}
use libgpiod.LineConfig.{
  LineConfig, config_empty, config_reset, add_line_settings, set_output_values, get_line_settings,
  get_configured_offsets, find_config,
}
use libgpiod.LineConfig.Flags.{make_kernel_flags}
use libgpiod.LineConfig.Flags.Laws.{make_kernel_flags-bit}
use libgpiod.LineConfig.Invariant.{IsValid, add_line_settings-IsValid, set_output_values-IsValid}
use libgpiod.LineConfig.Lookup.{
  get_line_settings-add_line_settings, get_line_settings-set_output_values,
}
use libgpiod.LineConfig.Samples.{driven, watched, mixed, mixed-IsValid, driven-IsValid}

abbrev plain : LineConfig
plain = record mixed { output_values = [] }

added : (add_line_settings config_empty (some (4 ∷ 9 ∷ 4 ∷ [])) none true true).1 ≡ ok tt
unfolding add_line_settings
added = refl

two_offsets :
    get_configured_offsets
      (add_line_settings config_empty (some (4 ∷ 9 ∷ 4 ∷ [])) none true true).0
      (some 64)
    ≡ 4 ∷ 9 ∷ []
unfolding add_line_settings get_configured_offsets
two_offsets = refl

reset_frees : (config_reset mixed).1 ≡ watched ∷ driven ∷ []
unfolding config_reset
reset_frees = refl

overridden : get_line_settings mixed 4 true ≡ ok (record driven { output_value = inactive })
unfolding get_line_settings
overridden = refl

values_refused : set_output_values mixed (some (active ∷ error ∷ [])) ≡ (plain, err einval)
unfolding set_output_values
values_refused = refl

add_line_settings-IsValid_example :
    IsValid (add_line_settings mixed (some (7 ∷ 12 ∷ [])) (some driven) true true).0
add_line_settings-IsValid_example =
    add_line_settings-IsValid mixed (some (7 ∷ 12 ∷ [])) (some driven) true true (omega arith)
      driven-IsValid mixed-IsValid

set_output_values-IsValid_example :
    IsValid (set_output_values mixed (some (active ∷ active ∷ []))).0
set_output_values-IsValid_example =
    set_output_values-IsValid mixed (some (active ∷ active ∷ [])) mixed-IsValid

get_line_settings-add_line_settings_example :
    ((add_line_settings plain (some (7 ∷ 12 ∷ [])) none true true).1 ≡ ok tt)
    × (get_line_settings (add_line_settings plain (some (7 ∷ 12 ∷ [])) none true true).0 12 true
        ≡ ok settings_reset)
get_line_settings-add_line_settings_example =
    get_line_settings-add_line_settings plain (7 ∷ 12 ∷ []) none 12 refl (omega arith) (omega arith)

get_line_settings-set_output_values_example :
    get_line_settings (set_output_values plain (some (active ∷ active ∷ []))).0 9 true
    ≡ ok (record watched { output_value = active })
unfolding find_config
get_line_settings-set_output_values_example =
    get_line_settings-set_output_values plain (active ∷ active ∷ []) 9 (omega arith) (omega arith)
      refl

make_kernel_flags-bit_example : mask_test_bit (make_kernel_flags driven) 6 ≡ true
make_kernel_flags-bit_example = make_kernel_flags-bit driven 6

-- ===== src/LineSettings/Tests.antt =====
-- Runs of the setters, and the theorems about them at concrete settings.
use libgpiod.Prelude.{◌≡◌, refl, List, [], ◌∷◌, true, err, einval}
use libgpiod.Enums.{output, LineBias, unknown, LineValue}
use libgpiod.LineSettings.{
  settings_reset, set_debounce_period_us, set_active_low, set_direction, set_bias, set_output_value,
}
use libgpiod.LineSettings.Laws.{
  IsValid, SettingsCall, call, run, call_lem, run-IsValid, settings_reset-IsValid,
}

abbrev calls : List SettingsCall
calls =
    SettingsCall.direction output
    ∷ SettingsCall.bias unknown
    ∷ SettingsCall.output_value (LineValue.other 7)
    ∷ []

runs : run settings_reset calls ≡ record settings_reset { direction = output }
unfolding run call set_direction set_bias set_output_value
runs = refl

stored :
    set_active_low (set_debounce_period_us settings_reset 9) true
    ≡ record settings_reset { active_low = true; debounce_period_us = 9 }
unfolding set_active_low set_debounce_period_us
stored = refl

call_lem_example :
    call (record settings_reset { bias = LineBias.pull_up }) (SettingsCall.bias unknown)
    ≡ (settings_reset, err einval)
call_lem_example =
    call_lem (record settings_reset { bias = LineBias.pull_up }) (SettingsCall.bias unknown)

run-IsValid_example : IsValid (run settings_reset calls)
run-IsValid_example = run-IsValid settings_reset calls settings_reset-IsValid

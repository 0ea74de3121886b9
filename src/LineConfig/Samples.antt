-- ===== src/LineConfig/Samples.antt =====
-- Concrete configs for the tests.
use libgpiod.Prelude.{ℕ, zero, suc, List, [], ◌∷◌, refl, inl, inr, arith}
use libgpiod.LineSettings.Laws.{IsValid as SettingsValid}
use libgpiod.LineConfig.Invariant.{IsValid}
use libgpiod.Enums.{inactive, active, input, output, both, open_drain, pull_up, realtime}
use libgpiod.LineSettings.{LineSettings, settings_reset}
use libgpiod.LineConfig.{PerLineConfig, LineConfig}

abbrev pub driven : LineSettings
driven = record settings_reset { direction = output; drive = open_drain; output_value = active }

abbrev pub watched : LineSettings
watched = record settings_reset {
  direction = input;
  edge_detection = both;
  bias = pull_up;
  event_clock = realtime;
  debounce_period_us = 5000;
}

abbrev pub entry : ℕ → LineSettings → PerLineConfig
entry o s = record { offset = o; node = record { settings = s } }

-- Offsets 4 and 7 are driven, 9 is watched; the first line has a global value.
abbrev pub mixed : LineConfig
mixed = record {
  line_configs = entry 4 driven ∷ entry 9 watched ∷ entry 7 driven ∷ [];
  output_values = inactive ∷ [];
  sref_list = record { settings = watched } ∷ record { settings = driven } ∷ [];
}

-- Lines that each want their own debounce period.
abbrev pub debounced_lines : ℕ → List PerLineConfig
debounced_lines zero = []
debounced_lines (suc n) =
    entry n (record settings_reset { debounce_period_us = suc n }) ∷ debounced_lines n

abbrev pub crowded : LineConfig
crowded = record { line_configs = debounced_lines 11; output_values = []; sref_list = [] }

pub driven-IsValid : SettingsValid driven
driven-IsValid = ground arith

pub watched-IsValid : SettingsValid watched
watched-IsValid = ground arith

pub mixed-IsValid : IsValid mixed
mixed-IsValid = record {
  bounded = omega arith;
  distinct = omega arith;
  owned = (inr (inl refl), (inl refl, (inr (inl refl), tt)));
  sound = (watched-IsValid, (driven-IsValid, tt));
  values_bounded = omega arith;
  values_ok = (refl, tt);
}

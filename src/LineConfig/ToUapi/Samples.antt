-- ===== src/LineConfig/ToUapi/Samples.antt =====
-- The translation of a concrete config, for the tests.
use libgpiod.Prelude.{◌≡◌, refl, [], ◌∷◌, ok}
use libgpiod.Mask.{mask_test_bit, mask_set_bit, mask_assign_bit}
use libgpiod.Uapi.{V2LineRequest, attr_flags, attr_debounce, attr_output_values}
use libgpiod.LineRequest.{cleared}
use libgpiod.LineConfig.Samples.{mixed}
use libgpiod.LineConfig.Flags.{make_kernel_flags, settings_equal}
use libgpiod.LineConfig.ToUapi.{to_uapi, debounce_round, flags_round}

-- The flags 72 are OUTPUT | OPEN_DRAIN; the watched line has an attribute of its own.
abbrev pub mixed_uapi : V2LineRequest
mixed_uapi = record cleared {
  offsets = 4 ∷ 9 ∷ 7 ∷ [];
  config = record {
    flags = 72;
    attrs =
        record { attr = attr_output_values 4; mask = 5 }
        ∷ record { attr = attr_debounce 5000; mask = 2 }
        ∷ record { attr = attr_flags 2356; mask = 2 }
        ∷ [];
  };
}

pub mixed_translated : to_uapi mixed cleared ≡ ok mixed_uapi
unfolding to_uapi debounce_round flags_round mask_test_bit mask_set_bit mask_assign_bit
    settings_equal make_kernel_flags
mixed_translated = refl

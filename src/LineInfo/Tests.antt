-- ===== src/LineInfo/Tests.antt =====
-- A line that the kernel describes, and what is read back of written flags.
use libgpiod.Prelude.{◌≡◌, refl, true, false, none, some, [], ◌∷◌}
use libgpiod.Enums.{output, edge_none, open_drain, monotonic, unknown}
use libgpiod.Uapi.{V2LineInfo, attr_flags, attr_debounce}
use libgpiod.LineConfig.Samples.{driven, driven-IsValid}
use libgpiod.Prelude.Chars.{text, strncpy}
use libgpiod.LineConfig.Flags.{make_kernel_flags}
use libgpiod.LineInfo.{
  LineInfo, described, get_name, get_consumer, read_direction, read_bias, read_drive, read_edge,
  read_clock, read_debounce, line_info_from_uapi,
}
use libgpiod.LineInfo.RoundTrip.{line_info_from_uapi-make_kernel_flags}

-- An open-drain output.
abbrev reported : V2LineInfo
reported = record {
  name = b'a' ∷ 0 ∷ [];
  consumer = 0 ∷ b'x' ∷ [];
  offset = 4;
  flags = 72;
  attrs = attr_flags 0 ∷ attr_debounce 40 ∷ [];
}

abbrev decoded : LineInfo
unfolding described
decoded = described reported

named : get_name decoded ≡ some (b'a' ∷ [])
unfolding get_name decoded text strncpy
named = refl

unused : get_consumer decoded ≡ none
unfolding get_consumer decoded text strncpy
unused = refl

attrs_read : read_debounce reported.attrs (false, 0) ≡ (true, 40)
unfolding read_debounce
attrs_read = refl

debounced : (decoded.debounced ≡ true) × (decoded.debounce_period_us ≡ 40)
unfolding decoded
debounced = (refl, refl)

read_flags :
    (read_direction 72 ≡ output)
    × (read_bias 72 ≡ unknown)
    × (read_drive 72 ≡ open_drain)
    × (read_edge 72 ≡ edge_none)
    × (read_clock 72 ≡ monotonic)
unfolding read_direction read_bias read_drive read_edge read_clock
read_flags = (refl, refl, refl, refl, refl)

line_info_from_uapi-make_kernel_flags_example :
    (decoded.edge ≡ edge_none)
    × (decoded.drive ≡ open_drain)
    × (decoded.event_clock ≡ monotonic)
    × (decoded.active_low ≡ false)
    × (decoded.bias ≡ unknown)
    × (decoded.direction ≡ output)
    × (decoded.used ≡ false)
unfolding line_info_from_uapi make_kernel_flags decoded
line_info_from_uapi-make_kernel_flags_example =
    line_info_from_uapi-make_kernel_flags driven reported decoded driven-IsValid refl refl

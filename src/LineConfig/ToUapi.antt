-- ===== src/LineConfig/ToUapi.antt =====
-- gpiod_line_config_to_uapi of lib/line-config.c: a line config as the kernel's structure.
-- The kernel's `attrs` array is the list of its used entries, so `attr_idx` is the length of the
-- list. Line i is entry i of the config; a loop over the entries from i on takes the list's rest.
pub mod Effective
pub mod Groups
pub mod Debounce
pub mod FlagRounds
pub mod FlagGroups
pub mod Outputs
pub mod Request
pub mod Total
pub mod Samples
mod Tests
use libgpiod.Prelude.{
  ℕ, suc, ◌%◌, ◌^◌, ◌==◌, Bool, true, false, not, if◌then◌else◌, List, [], ◌∷◌, ◌++◌, map, length,
  Result, ok, err, e2big, ◌>>=◌,
}
use libgpiod.Mask.{mask_zero, mask_test_bit, mask_set_bit, mask_assign_bit}
use libgpiod.Enums.{LineValue, LineDirection, direction_code, output, value_is_active}
use libgpiod.Uapi.{
  LineConfigAttribute, attr_flags, attr_output_values, attr_debounce, V2LineRequest,
  gpio_v2_line_num_attrs_max,
}
use libgpiod.LineSettings.{LineSettings, get_direction, get_output_value, get_debounce_period_us}
use libgpiod.LineConfig.{PerLineConfig, LineConfig}
use libgpiod.LineConfig.Flags.{make_kernel_flags, settings_equal}

abbrev pub is_output : PerLineConfig → Bool
is_output p = direction_code (get_direction p.node.settings) == direction_code output

-- set_offsets: the offsets, whose number is `num_lines`.
abbrev pub config_offsets : LineConfig → List ℕ
config_offsets c = map (λ p. p.offset) c.line_configs

pub has_at_least_one_output_direction : List PerLineConfig → Bool
has_at_least_one_output_direction [] = false
has_at_least_one_output_direction (p ∷ ps) =
    if is_output p then true else has_at_least_one_output_direction ps

-- set_output_value
pub assign_output_value : ℕ → ℕ → LineValue → ℕ
assign_output_value vals bit value = mask_assign_bit vals bit (value_is_active value)

-- The first loop of set_kernel_output_values, at index i: the mask and the values.
pub line_output_values : ℕ → List PerLineConfig → ℕ × ℕ → ℕ × ℕ
unfolding assign_output_value
line_output_values i [] (mask, vals) = (mask, vals)
line_output_values i (p ∷ ps) (mask, vals) = line_output_values (suc i) ps (
    if is_output p
    then (mask_set_bit mask i, assign_output_value vals i (get_output_value p.node.settings))
    else (mask, vals))

-- The second loop: the "global" values override those of the lines.
pub global_output_values : ℕ → List LineValue → ℕ × ℕ → ℕ × ℕ
unfolding assign_output_value
global_output_values i [] (mask, vals) = (mask, vals)
global_output_values i (v ∷ vs) (mask, vals) =
    global_output_values (suc i) vs (mask_set_bit mask i, assign_output_value vals i v)

pub set_kernel_output_values : LineConfig → ℕ × ℕ
unfolding line_output_values global_output_values
set_kernel_output_values c =
    global_output_values 0 c.output_values
      (line_output_values 0 c.line_configs (mask_zero, mask_zero))

-- set_output_values of line-config.c: one attribute, unless no line is an output.
pub output_attrs : LineConfig → List LineConfigAttribute
unfolding has_at_least_one_output_direction set_kernel_output_values
output_attrs c =
    let (mask, vals) = set_kernel_output_values c in
    if has_at_least_one_output_direction c.line_configs
    then record { attr = attr_output_values vals; mask = mask } ∷ []
    else []

-- The inner loops `for (j = i; …)` of set_debounce_periods and set_flags, on one of the masks that
-- they fill: bit j is set for each entry that the test joins to entry i.
pub mark_equal : (PerLineConfig → Bool) → ℕ → List PerLineConfig → ℕ → ℕ
mark_equal test j [] mask = mask
mark_equal test j (p ∷ ps) mask =
    mark_equal test (suc j) ps (if test p then mask_set_bit mask j else mask)

abbrev pub period : PerLineConfig → ℕ
period p = get_debounce_period_us p.node.settings

abbrev pub same_period : PerLineConfig → PerLineConfig → Bool
same_period p q = period p == period q

-- `debounce_period_us` is a __u32 of the kernel's structure.
abbrev pub u32 : ℕ → ℕ
u32 n = n % 2 ^ 32

-- One round of the outer loop of set_debounce_periods: the lines done and the attributes so far.
pub debounce_round :
    ℕ
    → PerLineConfig
    → List PerLineConfig
    → ℕ
    → List LineConfigAttribute
    → Result (ℕ × List LineConfigAttribute)
unfolding mark_equal
debounce_round i p ps done attrs =
    let marked = mask_set_bit done i in
    let mates = same_period p in
    let attr : LineConfigAttribute = record {
      attr = attr_debounce (u32 (period p));
      mask = mark_equal mates i (p ∷ ps) (mask_set_bit mask_zero i);
    } in
    if mask_test_bit done i
    then ok (done, attrs)
    else if period p == 0
    then ok (marked, attrs)
    else if length attrs == gpio_v2_line_num_attrs_max
    then err e2big
    else ok (mark_equal mates i (p ∷ ps) marked, attrs ++ attr ∷ [])

pub set_debounce_periods :
    ℕ → List PerLineConfig → ℕ → List LineConfigAttribute → Result (List LineConfigAttribute)
set_debounce_periods i [] done attrs = ok attrs
set_debounce_periods i (p ∷ ps) done attrs =
    debounce_round i p ps done attrs >>= λ s. set_debounce_periods (suc i) ps s.0 s.1

-- The variables of set_flags and the fields that it fills.
pub record FlagsState : Type 0 where
  pub globals_taken : Bool
  pub flags : ℕ
  pub done : ℕ
  pub attrs : List LineConfigAttribute

abbrev pub same_settings : PerLineConfig → PerLineConfig → Bool
same_settings p q = settings_equal p.node.settings q.node.settings

-- One round of the outer loop of set_flags.
pub flags_round : ℕ → PerLineConfig → List PerLineConfig → FlagsState → Result FlagsState
unfolding mark_equal
flags_round i p ps s =
    let marked = mask_set_bit s.done i in
    let mates = same_settings p in
    let attr : LineConfigAttribute = record {
      attr = attr_flags (make_kernel_flags p.node.settings);
      mask = mark_equal mates i (p ∷ ps) (mask_set_bit mask_zero i);
    } in
    if mask_test_bit s.done i
    then ok s
    else if not s.globals_taken
    then ok (record s {
      globals_taken = true;
      flags = make_kernel_flags p.node.settings;
      done = mark_equal mates i (p ∷ ps) marked;
    })
    else if length s.attrs == gpio_v2_line_num_attrs_max
    then err e2big
    else ok (record s { done = mark_equal mates i (p ∷ ps) marked; attrs = s.attrs ++ attr ∷ [] })

pub set_flags : ℕ → List PerLineConfig → FlagsState → Result FlagsState
set_flags i [] s = ok s
set_flags i (p ∷ ps) s = flags_round i p ps s >>= λ t. set_flags (suc i) ps t

abbrev pub flags_start : ℕ → List LineConfigAttribute → FlagsState
flags_start flags attrs = record {
  globals_taken = false;
  flags = flags;
  done = mask_zero;
  attrs = attrs;
}

-- gpiod_line_config_to_uapi. The caller has cleared the structure, so the flags of an empty config
-- are those that stand in it, and no attributes are in use. On an error the caller drops it.
pub to_uapi : LineConfig → V2LineRequest → Result V2LineRequest
unfolding set_debounce_periods set_flags output_attrs
to_uapi c uapi = do
  debounced ← set_debounce_periods 0 c.line_configs mask_zero (output_attrs c)
  s ← set_flags 0 c.line_configs (flags_start uapi.config.flags debounced)
  ok (record uapi {
    offsets = config_offsets c;
    config = record { flags = s.flags; attrs = s.attrs };
  })

-- ===== src/LineConfig/ToUapi/Effective.antt =====
-- How the kernel reads the structure of gpio_v2_line_config (lib/uapi/gpio.h): for line k it takes
-- the first attribute of a kind whose mask has bit k.
use libgpiod.Prelude.{ℕ, Bool, ◌≡◌, if◌then◌else◌, Option, none, some, List, [], ◌∷◌, ◌++◌, arith}
use libgpiod.Mask.{mask_test_bit}
use libgpiod.Uapi.{
  LineAttribute, LineConfigAttribute, attr_flags, attr_output_values, attr_debounce, V2LineConfig,
}

abbrev pub select_flags : LineAttribute → Option ℕ
select_flags (attr_flags f) = some f
select_flags _ = none

abbrev pub select_values : LineAttribute → Option ℕ
select_values (attr_output_values v) = some v
select_values _ = none

abbrev pub select_debounce : LineAttribute → Option ℕ
select_debounce (attr_debounce d) = some d
select_debounce _ = none

abbrev pub or_else : Option ℕ → Option ℕ → Option ℕ
or_else none p = p
or_else (some v) p = some v

abbrev pub when : Bool → Option ℕ → Option ℕ
when b o = if b then o else none

-- The first attribute of a kind for line k.
abbrev pub attr_at : (LineAttribute → Option ℕ) → List LineConfigAttribute → ℕ → Option ℕ
attr_at select [] k = none
attr_at select (a ∷ attrs) k =
    or_else (when (mask_test_bit a.mask k) (select a.attr)) (attr_at select attrs k)

abbrev pub value_or : Option ℕ → ℕ → ℕ
value_or none d = d
value_or (some v) d = v

-- The flags, the debounce period and the output value of line k. Without an attribute a line has
-- the flags of the request, no debounce period, and no output value.
abbrev pub line_flags : V2LineConfig → ℕ → ℕ
line_flags c k = value_or (attr_at select_flags c.attrs k) c.flags

abbrev pub line_debounce : V2LineConfig → ℕ → ℕ
line_debounce c k = value_or (attr_at select_debounce c.attrs k) 0

-- Bit k of a values word.
abbrev pub value_bit : ℕ → Option ℕ → Option Bool
value_bit k none = none
value_bit k (some v) = some (mask_test_bit v k)

abbrev pub line_value : V2LineConfig → ℕ → Option Bool
line_value c k = value_bit k (attr_at select_values c.attrs k)

pub attr_at-append :
    (select : LineAttribute → Option ℕ) (attrs : List LineConfigAttribute) (a : LineConfigAttribute)
    (k : ℕ)
    → attr_at select (attrs ++ a ∷ []) k
      ≡ or_else (attr_at select attrs k) (when (mask_test_bit a.mask k) (select a.attr))
attr_at-append select [] a k = ground arith
attr_at-append select (b ∷ attrs) a k = ground (arith, attr_at-append select attrs a k)

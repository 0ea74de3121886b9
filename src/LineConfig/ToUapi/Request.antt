-- ===== src/LineConfig/ToUapi/Request.antt =====
-- gpiod_line_config_to_uapi as a whole: what the kernel reads from the structure, line by line.
use libgpiod.Prelude.{
  ℕ, ◌≤◌, ◌≡◌, refl, ◌∙◌, ap, true, false, Option, none, some, List, length, get_elem?, ok, bind-ok,
  arith, Bool-cases, inl, inr,
}
use libgpiod.Mask.{mask_zero, mask_test_bit}
use libgpiod.Mask.Laws.{mask_test_bit-zero}
use libgpiod.Enums.{LineValue, value_is_active}
use libgpiod.Uapi.{LineAttribute, LineConfigAttribute, V2LineRequest, gpio_v2_line_num_attrs_max}
use libgpiod.LineConfig.{PerLineConfig, LineConfig}
use libgpiod.LineConfig.Flags.{make_kernel_flags}
use libgpiod.LineConfig.Invariant.{IsValid}
use libgpiod.LineConfig.ToUapi.{
  is_output, period, u32, config_offsets, has_at_least_one_output_direction,
  set_kernel_output_values, output_attrs, set_debounce_periods, FlagsState, set_flags, flags_start,
  to_uapi,
}
use libgpiod.LineConfig.ToUapi.Effective.{
  attr_at, select_flags, select_values, select_debounce, value_or, value_bit, line_flags,
  line_debounce, line_value,
}
use libgpiod.LineConfig.ToUapi.Debounce.{wanted, debounce-wanted, debounce-others, debounce-length}
use libgpiod.LineConfig.ToUapi.FlagGroups.{flags-wanted, flags-others, flags-length}
use libgpiod.LineConfig.ToUapi.Outputs.{
  set_kernel_output_values-bits, has_output-at, line_bits, global_bits, bits_at,
}
use libgpiod.LineConfig.ToUapi.Groups.{Grouped}

output_attrs-other :
    (select : LineAttribute → Option ℕ) (c : LineConfig) (n : ℕ)
    → ((w : ℕ) → select (LineAttribute.attr_output_values w) ≡ none)
    → attr_at select (output_attrs c) n ≡ none
unfolding output_attrs
output_attrs-other select c n o =
    elim (Bool-cases (has_at_least_one_output_direction c.line_configs)) [
      | inl e ↦ rw e (ground (arith, o (set_kernel_output_values c).1))
      | inr e ↦ rw e
    ]

pub length-output_attrs : (c : LineConfig) → length (output_attrs c) ≤ 1
unfolding output_attrs
length-output_attrs c = elim (Bool-cases (has_at_least_one_output_direction c.line_configs)) [
  | inl e ↦ rw e (omega arith)
  | inr e ↦ rw e (omega arith)
]

-- The three stages of a translation that succeeds.
abbrev Stages : LineConfig → V2LineRequest → V2LineRequest → Type 0
Stages c uapi out =
    (debounced : List LineConfigAttribute) × (s : FlagsState) × (set_debounce_periods 0
        c.line_configs mask_zero (output_attrs c)
      ≡ ok debounced)
    × (set_flags 0 c.line_configs (flags_start uapi.config.flags debounced) ≡ ok s)
    × (out ≡ record uapi {
      offsets = config_offsets c;
      config = record { flags = s.flags; attrs = s.attrs };
    })

to_uapi-Stages :
    (c : LineConfig) (uapi : V2LineRequest) {out : V2LineRequest}
    → to_uapi c uapi ≡ ok out
    → Stages c uapi out
unfolding to_uapi
to_uapi-Stages c uapi h =
    let (debounced, first, rest) =
      bind-ok (set_debounce_periods 0 c.line_configs mask_zero (output_attrs c)) _ h in
    let (s, second, last) =
      bind-ok (set_flags 0 c.line_configs (flags_start uapi.config.flags debounced)) _ rest in
    (debounced, s, first, second, ground arith)

wanted-period : (q : PerLineConfig) → value_or (wanted q) 0 ≡ u32 (period q)
wanted-period q = ground arith

-- Before the loop over the debounce periods no line is done.
nothing_done :
    (c : LineConfig)
    → Grouped select_debounce (λ q o. o ≡ wanted q) 0 c.line_configs mask_zero (output_attrs c)
nothing_done c k t q e n =
    rw (mask_test_bit-zero t) (λ h. cc, λ _. output_attrs-other select_debounce c t (λ w. refl))

abbrev pub chosen_value : Option LineValue → LineValue → LineValue
chosen_value none own = own
chosen_value (some v) own = v

line_bits_output :
    (q : PerLineConfig) (g : Option LineValue)
    → is_output q ≡ true
    → global_bits g (line_bits q (false, false))
      ≡ (true, value_is_active (chosen_value g q.node.settings.output_value))
line_bits_output q none o = rw o
line_bits_output q (some v) o = refl

output_attrs-value :
    (c : LineConfig) (k : ℕ) (q : PerLineConfig)
    → IsValid c
    → get_elem? c.line_configs k ≡ some q
    → is_output q ≡ true
    → value_bit k (attr_at select_values (output_attrs c) k)
      ≡ some (
          value_is_active (chosen_value (get_elem? c.output_values k) q.node.settings.output_value))
unfolding output_attrs
output_attrs-value c k q v e o =
    let bits : bits_at (set_kernel_output_values c) k ≡ (
      true,
      value_is_active (chosen_value (get_elem? c.output_values k) q.node.settings.output_value),
    ) =
      set_kernel_output_values-bits c k q v.bounded v.values_bounded e
      ∙ line_bits_output q (get_elem? c.output_values k) o in
    let masked : mask_test_bit (set_kernel_output_values c).0 k ≡ true = ap (λ w. w.0) bits in
    rw (has_output-at c.line_configs k q e o, masked) (ap (λ w. some w.1) bits)

module _ (c : LineConfig) (uapi : V2LineRequest) {out : V2LineRequest}
    (h : to_uapi c uapi ≡ ok out) where
  -- The request that a successful translation gives lists the configured offsets in order, uses at
  -- most ten attributes, and keeps the consumer and the buffer size that the caller put there.
  pub to_uapi-shape :
      (out.offsets ≡ config_offsets c)
      × (length out.config.attrs ≤ gpio_v2_line_num_attrs_max)
      × (out.consumer ≡ uapi.consumer)
      × (out.event_buffer_size ≡ uapi.event_buffer_size)
  to_uapi-shape =
      let (debounced, s, first, second, last) = to_uapi-Stages c uapi h in
      let few : length debounced ≤ 10 =
        debounce-length 0 c.line_configs mask_zero (output_attrs c)
          (omega (arith, length-output_attrs c)) first in
      rw last (refl, flags-length uapi.config.flags debounced c.line_configs few second, refl, refl)

  -- After a successful translation the kernel reads for every line the flags of that line's own
  -- settings, however the lines are grouped.
  pub to_uapi-flags :
      (k : ℕ) (q : PerLineConfig)
      → get_elem? c.line_configs k ≡ some q
      → line_flags out.config k ≡ make_kernel_flags q.node.settings
  to_uapi-flags k q e =
      let (debounced, s, first, second, last) = to_uapi-Stages c uapi h in
      rw last (
        flags-wanted uapi.config.flags debounced c.line_configs k q (no_flags debounced first)
          second e)
    where
      no_flags :
          (debounced : List LineConfigAttribute)
          → set_debounce_periods 0 c.line_configs mask_zero (output_attrs c) ≡ ok debounced
          → (n : ℕ) → attr_at select_flags debounced n ≡ none
      no_flags debounced first n =
          debounce-others select_flags 0 c.line_configs mask_zero (output_attrs c) n (λ d. refl)
            first
          ∙ output_attrs-other select_flags c n (λ w. refl)

  -- After a successful translation the kernel reads for every line that line's own debounce period,
  -- in the low 32 bits that its structure holds.
  pub to_uapi-debounce :
      (k : ℕ) (q : PerLineConfig)
      → get_elem? c.line_configs k ≡ some q
      → line_debounce out.config k ≡ u32 (period q)
  to_uapi-debounce k q e =
      let (debounced, s, first, second, last) = to_uapi-Stages c uapi h in
      let kept : attr_at select_debounce s.attrs k ≡ attr_at select_debounce debounced k =
        flags-others uapi.config.flags debounced select_debounce c.line_configs k (λ d. refl)
          second in
      let made : attr_at select_debounce debounced k ≡ wanted q =
        debounce-wanted 0 c.line_configs mask_zero (output_attrs c) k k q first (nothing_done c) e
          (omega arith) in
      rw (last, kept, made) (wanted-period q)

  -- After a successful translation of a well-formed config the kernel reads for every output line
  -- the global value at the line's index, where one is set, and else the output value of the line's
  -- own settings.
  pub to_uapi-value :
      (k : ℕ) (q : PerLineConfig)
      → IsValid c
      → get_elem? c.line_configs k ≡ some q
      → is_output q ≡ true
      → line_value out.config k
        ≡ some (
            value_is_active
              (chosen_value (get_elem? c.output_values k) q.node.settings.output_value))
  to_uapi-value k q v e o =
      let (debounced, s, first, second, last) = to_uapi-Stages c uapi h in
      let kept : attr_at select_values s.attrs k ≡ attr_at select_values (output_attrs c) k =
        flags-others uapi.config.flags debounced select_values c.line_configs k (λ d. refl) second
        ∙ debounce-others select_values 0 c.line_configs mask_zero (output_attrs c) k (λ d. refl)
            first in
      rw (last, kept) (output_attrs-value c k q v e o)

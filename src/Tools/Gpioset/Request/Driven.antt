-- ===== src/Tools/Gpioset/Request/Driven.antt =====
-- What the config for a chip drives: each resolved line at its offset, with its value.
use libgpiod.Prelude.{
  ℕ, zero, suc, ◌≤◌, ◌<◌, ◌==◌, ◌≡◌, refl, ◌∙◌, ap, sym, subst, true, false, Option, none, some,
  List, [], ◌∷◌, map, length, get_elem?, ok, arith, Bool-cases, inl, inr, length-map,
}
use libgpiod.Enums.{LineValue, output, LineBias, LineDrive}
use libgpiod.Uapi.{V2LineRequest}
use libgpiod.Enums.{value_is_active}
use libgpiod.LineSettings.Laws.{
  IsValid as SettingsValid, SettingsCall, run, call, settings_reset-IsValid, run-IsValid,
}
use libgpiod.LineConfig.{config_empty}
use libgpiod.LineConfig.Invariant.{
  IsValid, add_line_settings-IsValid, set_output_values-IsValid, config_reset-IsValid,
}
use libgpiod.LineConfig.Flags.{make_kernel_flags}
use libgpiod.LineConfig.ToUapi.{to_uapi, is_output}
use libgpiod.LineConfig.ToUapi.Effective.{line_flags, line_value}
use libgpiod.LineConfig.ToUapi.Request.{to_uapi-shape, to_uapi-flags, to_uapi-value}
use libgpiod.LineSettings.{LineSettings, settings_reset, set_direction}
use libgpiod.LineConfig.{LineConfig, lines_max, config_reset}
use libgpiod.LineConfig.Invariant.{all_values}
use libgpiod.LineConfig.Lookup.{contains}
use libgpiod.LineConfig.Fresh.{
  entry, fresh_config, distinct, add_line_settings-fresh, set_output_values-fresh,
}
use libgpiod.Tools.Exit.{going}
use libgpiod.Tools.Resolver.{ResolvedLine, on_chip, get_line_offsets_and_values}
use libgpiod.Tools.Resolver.Validate.{same_chip, none_same, all_distinct}
use libgpiod.Tools.Resolver.Values.{offsets_on, values_on}
use libgpiod.Tools.Gpioset.Request.{
  LineOptions, with_bias, with_drive, gpioset_settings, chip_config,
}

on_chip-same :
    (line later : ResolvedLine) (chip_num : ℕ)
    → on_chip line chip_num ≡ true
    → on_chip later chip_num ≡ true
    → same_chip line.chip_num later.chip_num ≡ true
unfolding same_chip
on_chip-same line later chip_num h k = go line.chip_num later.chip_num h k
  where
    go :
        (a b : Option ℕ)
        → (elim a [ none ↦ false | some c ↦ c == chip_num ]) ≡ true
        → (elim b [ none ↦ false | some c ↦ c == chip_num ]) ≡ true
        → same_chip a b ≡ true
    go none b h k = cc
    go (some a) none h k = cc
    go (some a) (some b) h k = ground arith

-- A line that none of the others is the same as has an offset that they do not have.
none_same-contains :
    (line : ResolvedLine) (lines : List ResolvedLine) (chip_num : ℕ)
    → on_chip line chip_num ≡ true
    → line.resolved ≡ true
    → none_same line lines ≡ true
    → contains (offsets_on lines chip_num) line.offset ≡ false
unfolding get_line_offsets_and_values
none_same-contains line [] chip_num h r n = refl
none_same-contains line (later ∷ lines) chip_num h r n =
    elim (Bool-cases (on_chip later chip_num)) [
      | inl e ↦
          let rest : contains (offsets_on lines chip_num) line.offset ≡ false =
            none_same-contains line lines chip_num h r (ground arith) in
          let s : same_chip line.chip_num later.chip_num ≡ true =
            on_chip-same line later chip_num h e in
          rw e (ground arith)
      | inr e ↦ rw e (none_same-contains line lines chip_num h r (ground arith))
    ]

offsets_on-distinct :
    (lines : List ResolvedLine) (chip_num : ℕ)
    → all_distinct lines ≡ true
    → distinct (offsets_on lines chip_num) ≡ true
unfolding get_line_offsets_and_values
offsets_on-distinct [] chip_num h = refl
offsets_on-distinct (line ∷ lines) chip_num h = elim (Bool-cases (on_chip line chip_num)) [
  | inl e ↦
      let rest : distinct (offsets_on lines chip_num) ≡ true =
        offsets_on-distinct lines chip_num (ground arith) in
      let new : contains (offsets_on lines chip_num) line.offset ≡ false =
        none_same-contains line lines chip_num e (ground arith) (ground arith) in
      rw e (ground arith)
  | inr e ↦ rw e (offsets_on-distinct lines chip_num (ground arith))
]

length-values_on :
    (lines : List ResolvedLine) (chip_num : ℕ)
    → length (values_on lines chip_num) ≡ length (offsets_on lines chip_num)
length-values_on lines chip_num =
    length-map (λ e. e.1) (get_line_offsets_and_values lines chip_num)
    ∙ sym (length-map (λ e. e.0) (get_line_offsets_and_values lines chip_num))

-- For resolved and distinct lines with values, at least one and at most 64 of them on the chip, the
-- config is made from the settings, one entry for each offset on the chip, and the values.
pub chip_config_lem :
    (s : LineSettings) (c : LineConfig) (lines : List ResolvedLine) (chip_num : ℕ)
    → all_distinct lines ≡ true
    → 0 < length (offsets_on lines chip_num)
    → length (offsets_on lines chip_num) ≤ lines_max
    → all_values (values_on lines chip_num) ≡ true
    → chip_config s c lines chip_num
      ≡ going (fresh_config s (offsets_on lines chip_num) (values_on lines chip_num))
unfolding chip_config config_reset
chip_config_lem s c lines chip_num d h k a =
    let same = length-values_on lines chip_num in
    rw
      (add_line_settings-fresh s (offsets_on lines chip_num) h k
        (offsets_on-distinct lines chip_num d))
      (rw
        (set_output_values-fresh s (offsets_on lines chip_num) (values_on lines chip_num)
          (omega (arith, same)) (omega (arith, same)) a)
        refl)

with_bias-IsValid :
    (b : Option LineBias) (s : LineSettings) → SettingsValid s → SettingsValid (with_bias b s)
unfolding run call
with_bias-IsValid none s v = v
with_bias-IsValid (some b) s v = run-IsValid s (SettingsCall.bias b ∷ []) v

with_drive-IsValid :
    (d : Option LineDrive) (s : LineSettings) → SettingsValid s → SettingsValid (with_drive d s)
unfolding run call
with_drive-IsValid none s v = v
with_drive-IsValid (some d) s v = run-IsValid s (SettingsCall.drive d ∷ []) v

gpioset_settings-IsValid : (options : LineOptions) → SettingsValid (gpioset_settings options)
unfolding gpioset_settings run call
gpioset_settings-IsValid options =
    let s = with_drive options.drive (with_bias options.bias settings_reset) in
    let v : SettingsValid s =
      with_drive-IsValid options.drive (with_bias options.bias settings_reset)
        (with_bias-IsValid options.bias settings_reset settings_reset-IsValid) in
    elim (Bool-cases options.active_low) [
      | inl e ↦
          rw e (run-IsValid s (SettingsCall.active_low true ∷ SettingsCall.direction output ∷ []) v)
      | inr e ↦ rw e (run-IsValid s (SettingsCall.direction output ∷ []) v)
    ]

gpioset_settings-output :
    (options : LineOptions) (o : ℕ) → is_output (entry (gpioset_settings options) o) ≡ true
unfolding gpioset_settings set_direction
gpioset_settings-output options o = refl

get_elem?-map {ℓ κ} :
    {A : Type ℓ} {B : Type κ} (f : A → B) (xs : List A) (k : ℕ) {a : A}
    → get_elem? xs k ≡ some a
    → get_elem? (map f xs) k ≡ some (f a)
get_elem?-map f [] k h = cc
get_elem?-map f (x ∷ xs) zero h = cc
get_elem?-map f (x ∷ xs) (suc k) h = get_elem?-map f xs k h

fresh_config-IsValid :
    (s : LineSettings) (os : List ℕ) (values : List LineValue)
    → SettingsValid s
    → 0 < length os
    → length os ≤ lines_max
    → 0 < length values
    → length values ≤ lines_max
    → distinct os ≡ true
    → all_values values ≡ true
    → IsValid (fresh_config s os values)
unfolding config_reset
fresh_config-IsValid s os values v g h j k d a =
    let added : IsValid (fresh_config s os []) =
      subst (λ r. IsValid r.0) (add_line_settings-fresh s os g h d)
        (add_line_settings-IsValid config_empty (some os) (some s) true true (omega arith) v
          (config_reset-IsValid config_empty)) in
    subst (λ r. IsValid r.0) (set_output_values-fresh s os values j k a)
      (set_output_values-IsValid (fresh_config s os []) (some values) added)

going-injective {ℓ} : {A : Type ℓ} {a b : A} → going a ≡ going b → a ≡ b
going-injective h = cc

-- The kernel's request that comes from the config for a chip has the k-th line on the chip at its
-- own offset, drives it to its own value and gives it the flags of the settings of the options. The
-- lines are resolved and distinct and have values, and there are at least one and at most 64 on the
-- chip.
pub chip_config-driven :
    (options : LineOptions) (c c' : LineConfig) (lines : List ResolvedLine) (chip_num : ℕ)
    (uapi out : V2LineRequest) (k o : ℕ) (v : LineValue)
    → all_distinct lines ≡ true
    → 0 < length (offsets_on lines chip_num)
    → length (offsets_on lines chip_num) ≤ lines_max
    → all_values (values_on lines chip_num) ≡ true
    → chip_config (gpioset_settings options) c lines chip_num ≡ going c'
    → to_uapi c' uapi ≡ ok out
    → get_elem? (get_line_offsets_and_values lines chip_num) k ≡ some (o, v)
    → (get_elem? out.offsets k ≡ some o)
      × (line_value out.config k ≡ some (value_is_active v))
      × (line_flags out.config k ≡ make_kernel_flags (gpioset_settings options))
chip_config-driven options c c' lines chip_num uapi out k o v d h b a e t g =
    let os = offsets_on lines chip_num in
    let values = values_on lines chip_num in
    let s = gpioset_settings options in
    let same = length-values_on lines chip_num in
    let made : c' ≡ fresh_config s os values =
      going-injective (sym e ∙ chip_config_lem s c lines chip_num d h b a) in
    let t' : to_uapi (fresh_config s os values) uapi ≡ ok out =
      subst (λ x. to_uapi x uapi ≡ ok out) made t in
    let valid : IsValid (fresh_config s os values) =
      fresh_config-IsValid s os values (gpioset_settings-IsValid options) h b (omega (arith, same))
        (omega (arith, same)) (offsets_on-distinct lines chip_num d) a in
    let at : get_elem? os k ≡ some o =
      get_elem?-map (λ x. x.0) (get_line_offsets_and_values lines chip_num) k g in
    let value : get_elem? values k ≡ some v =
      get_elem?-map (λ x. x.1) (get_line_offsets_and_values lines chip_num) k g in
    let place : get_elem? (map (entry s) os) k ≡ some (entry s o) =
      get_elem?-map (entry s) os k at in
    (
      ap (λ x. get_elem? x k) (to_uapi-shape (fresh_config s os values) uapi t').0
          ∙ get_elem?-map (λ p. p.offset) (map (entry s) os) k place,
      to_uapi-value (fresh_config s os values) uapi t' k (entry s o) valid place
            (gpioset_settings-output options o)
          ∙ rw value refl,
      to_uapi-flags (fresh_config s os values) uapi t' k (entry s o) place,
    )

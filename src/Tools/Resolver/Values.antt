-- ===== src/Tools/Resolver/Values.antt =====
-- The values of the lines on a chip, in their order: what is stored reads back.
use libgpiod.Prelude.{
  ℕ, ◌≡◌, ◌≢◌, refl, ap, List, [], ◌∷◌, map, length, arith, Bool-cases, inl, inr,
}
use libgpiod.Enums.{LineValue}
use libgpiod.Tools.Resolver.{ResolvedLine, on_chip, get_line_offsets_and_values, set_line_values}

abbrev pub offsets_on : List ResolvedLine → ℕ → List ℕ
offsets_on lines chip_num = map (λ e. e.0) (get_line_offsets_and_values lines chip_num)

abbrev pub values_on : List ResolvedLine → ℕ → List LineValue
values_on lines chip_num = map (λ e. e.1) (get_line_offsets_and_values lines chip_num)

set_line_values-same :
    (lines : List ResolvedLine) (chip_num : ℕ) (values : List LineValue)
    → length values ≡ length (offsets_on lines chip_num)
    → (values_on (set_line_values lines chip_num values) chip_num ≡ values)
      × (offsets_on (set_line_values lines chip_num values) chip_num ≡ offsets_on lines chip_num)
unfolding get_line_offsets_and_values set_line_values
set_line_values-same [] chip_num [] h = (refl, refl)
set_line_values-same [] chip_num (v ∷ values) h = absurd (omega (arith, h))
set_line_values-same (line ∷ lines) chip_num [] h = elim (Bool-cases (on_chip line chip_num)) [
  | inl e ↦ absurd (omega (arith, rw e at h))
  | inr e ↦ (rw e (no_values (get_line_offsets_and_values lines chip_num) (rw e at h)), refl)
]
  where
    no_values :
        (entries : List (ℕ × LineValue))
        → 0 ≡ length (map (λ d. d.0) entries)
        → map (λ d. d.1) entries ≡ []
    no_values [] h = refl
    no_values (entry ∷ entries) h = absurd (omega (arith, h))
set_line_values-same (line ∷ lines) chip_num (v ∷ values) h =
    elim (Bool-cases (on_chip line chip_num)) [
      | inl e ↦
          let rest = set_line_values-same lines chip_num values (omega (arith, rw e at h)) in
          rw e (rw e (ap (λ vs. v ∷ vs) rest.0, ap (λ os. line.offset ∷ os) rest.1))
      | inr e ↦ rw e (rw e (set_line_values-same lines chip_num (v ∷ values) (rw e at h)))
    ]

set_line_values-other :
    (lines : List ResolvedLine) (chip_num other : ℕ) (values : List LineValue)
    → other ≢ chip_num
    → get_line_offsets_and_values (set_line_values lines chip_num values) other
      ≡ get_line_offsets_and_values lines other
unfolding get_line_offsets_and_values set_line_values
set_line_values-other [] chip_num other values h = refl
set_line_values-other (line ∷ lines) chip_num other [] h = refl
set_line_values-other (line ∷ lines) chip_num other (v ∷ values) h = ground (
  arith,
  set_line_values-other lines chip_num other values h,
  set_line_values-other lines chip_num other (v ∷ values) h,
)

-- After storing a value for each line on a chip, the lines on it give these values, in order, at
-- the same offsets; and the lines on another chip give what they gave.
pub get_line_offsets_and_values-set_line_values :
    (lines : List ResolvedLine) (chip_num other : ℕ) (values : List LineValue)
    → length values ≡ length (offsets_on lines chip_num)
    → other ≢ chip_num
    → (values_on (set_line_values lines chip_num values) chip_num ≡ values)
      × (offsets_on (set_line_values lines chip_num values) chip_num ≡ offsets_on lines chip_num)
      × (get_line_offsets_and_values (set_line_values lines chip_num values) other
          ≡ get_line_offsets_and_values lines other)
get_line_offsets_and_values-set_line_values lines chip_num other values h g =
    let (same, places) = set_line_values-same lines chip_num values h in
    (same, places, set_line_values-other lines chip_num other values g)

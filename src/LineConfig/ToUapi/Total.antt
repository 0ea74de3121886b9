-- ===== src/LineConfig/ToUapi/Total.antt =====
-- When gpiod_line_config_to_uapi succeeds, and how it fails.
use libgpiod.Prelude.{
  ℕ, suc, ◌+◌, ◌≤◌, ◌<◌, ◌≡◌, refl, inl, inr, true, List, [], ◌∷◌, length, length-append, Result,
  Errno, ok, err, e2big, bind-ok, bind-err, arith,
}
use libgpiod.Mask.{mask_zero}
use libgpiod.Uapi.{LineConfigAttribute, V2LineRequest, gpio_v2_line_num_attrs_max}
use libgpiod.LineConfig.{PerLineConfig, LineConfig, num_configs}
use libgpiod.LineConfig.ToUapi.{
  debounce_round, set_debounce_periods, FlagsState, flags_round, set_flags, flags_start,
  output_attrs, to_uapi,
}
use libgpiod.LineConfig.ToUapi.Request.{length-output_attrs}
use libgpiod.LineConfig.ToUapi.Debounce.{Round, round_attr, debounce_round-Round}
use libgpiod.LineConfig.ToUapi.FlagRounds
use libgpiod.LineConfig.ToUapi.FlagGroups.{taken, first_round}

debounce_round-err :
    (i : ℕ) (p : PerLineConfig) (ps : List PerLineConfig) (done : ℕ)
    (attrs : List LineConfigAttribute) {e : Errno}
    → debounce_round i p ps done attrs ≡ err e
    → (e ≡ e2big) × (length attrs ≡ gpio_v2_line_num_attrs_max)
unfolding debounce_round
debounce_round-err i p ps done attrs h = ground arith

debounce_round-grows :
    (i : ℕ) (p : PerLineConfig) (ps : List PerLineConfig) (done : ℕ)
    (attrs : List LineConfigAttribute) {s : ℕ × List LineConfigAttribute}
    → debounce_round i p ps done attrs ≡ ok s
    → length s.1 ≤ suc (length attrs)
debounce_round-grows i p ps done attrs {s} h = grown (debounce_round-Round i p ps done attrs s h)
  where
    grown : Round i p ps done attrs s → length s.1 ≤ suc (length attrs)
    grown (inl (d, e)) = rw e (omega arith)
    grown (inr (inl (d, z, e))) = rw e (omega arith)
    grown (inr (inr (d, z, l, e))) =
        rw e (omega (arith, length-append attrs (round_attr i p ps ∷ [])))

-- The loop adds at most one attribute for each line, and fails only past ten.
set_debounce_periods-grows :
    (i : ℕ) (ps : List PerLineConfig) (done : ℕ) (attrs : List LineConfigAttribute)
    {out : List LineConfigAttribute}
    → set_debounce_periods i ps done attrs ≡ ok out
    → length out ≤ length attrs + length ps
unfolding set_debounce_periods
set_debounce_periods-grows i [] done attrs h = ground arith
set_debounce_periods-grows i (p ∷ ps) done attrs h =
    let (s, first, rest) = bind-ok (debounce_round i p ps done attrs) _ h in
    omega (
      arith,
      debounce_round-grows i p ps done attrs first,
      set_debounce_periods-grows (suc i) ps s.0 s.1 rest,
    )

set_debounce_periods-err :
    (i : ℕ) (ps : List PerLineConfig) (done : ℕ) (attrs : List LineConfigAttribute) {e : Errno}
    → set_debounce_periods i ps done attrs ≡ err e
    → (e ≡ e2big) × (gpio_v2_line_num_attrs_max < length attrs + length ps)
unfolding set_debounce_periods
set_debounce_periods-err i [] done attrs h = cc
set_debounce_periods-err i (p ∷ ps) done attrs h =
    elim (bind-err (debounce_round i p ps done attrs) _ h) [
      | inl f ↦ let (big, full) = debounce_round-err i p ps done attrs f in (big, omega arith)
      | inr (s, first, rest) ↦
          let (big, full) = set_debounce_periods-err (suc i) ps s.0 s.1 rest in
          (big, omega (arith, debounce_round-grows i p ps done attrs first))
    ]

flags_round-err :
    (i : ℕ) (p : PerLineConfig) (ps : List PerLineConfig) (s : FlagsState) {e : Errno}
    → flags_round i p ps s ≡ err e
    → (e ≡ e2big) × (length s.attrs ≡ gpio_v2_line_num_attrs_max)
unfolding flags_round
flags_round-err i p ps s h = ground arith

set_flags-err :
    (i : ℕ) (ps : List PerLineConfig) (s : FlagsState) {e : Errno}
    → s.globals_taken ≡ true
    → set_flags i ps s ≡ err e
    → (e ≡ e2big) × (gpio_v2_line_num_attrs_max < length s.attrs + length ps)
unfolding set_flags
set_flags-err i [] s g h = cc
set_flags-err i (p ∷ ps) s g h = elim (bind-err (flags_round i p ps s) _ h) [
  | inl f ↦ let (big, full) = flags_round-err i p ps s f in (big, omega arith)
  | inr (t, first, rest) ↦
      let r : FlagRounds.Round i p ps s t = FlagRounds.flags_round-Round i p ps s t g first in
      let taken : t.globals_taken ≡ true = (FlagRounds.Round-fixed s.flags i p ps s t g refl r).0 in
      let (big, full) = set_flags-err (suc i) ps t taken rest in (big, omega (arith, grown r))
]
  where
    grown : {t : FlagsState} → FlagRounds.Round i p ps s t → length t.attrs ≤ suc (length s.attrs)
    grown (inl (d, e)) = rw e (omega arith)
    grown (inr (d, l, e)) =
        rw e (omega (arith, length-append s.attrs (FlagRounds.round_attr i p ps ∷ [])))

set_flags_start-err :
    (ps : List PerLineConfig) (flags : ℕ) (attrs : List LineConfigAttribute) {e : Errno}
    → set_flags 0 ps (flags_start flags attrs) ≡ err e
    → (e ≡ e2big) × (suc gpio_v2_line_num_attrs_max < length attrs + length ps)
unfolding set_flags
set_flags_start-err [] flags attrs h = cc
set_flags_start-err (p ∷ ps) flags attrs h =
    let (big, full) =
      set_flags-err 1 ps (taken p ps attrs) refl (rw (first_round p ps flags attrs) at h) in
    (big, omega arith)

-- A translation fails only with E2BIG, and only for a config of six lines or more.
pub to_uapi-err :
    (c : LineConfig) (uapi : V2LineRequest) {e : Errno}
    → to_uapi c uapi ≡ err e
    → (e ≡ e2big) × (6 ≤ num_configs c)
unfolding to_uapi
to_uapi-err c uapi h =
    elim (bind-err (set_debounce_periods 0 c.line_configs mask_zero (output_attrs c)) _ h) [
      | inl f ↦
          let (big, full) =
            set_debounce_periods-err 0 c.line_configs mask_zero (output_attrs c) f in
          (big, omega (arith, length-output_attrs c))
      | inr (debounced, first, rest) ↦
          elim (bind-err (set_flags 0 c.line_configs (flags_start uapi.config.flags debounced)) _
            rest) [
              | inl f ↦
                  let (big, full) =
                    set_flags_start-err c.line_configs uapi.config.flags debounced f in
                  (
                    big,
                    omega (
                      arith,
                      length-output_attrs c,
                      set_debounce_periods-grows 0 c.line_configs mask_zero (output_attrs c) first,
                    ),
                  )
              | inr (s, second, last) ↦ cc
            ]
    ]

-- A config of at most five lines is always translated.
pub to_uapi-small :
    (c : LineConfig) (uapi : V2LineRequest)
    → num_configs c ≤ 5
    → (out : V2LineRequest) × (to_uapi c uapi ≡ ok out)
to_uapi-small c uapi h = succeeds (to_uapi c uapi) refl
  where
    succeeds :
        (r : Result V2LineRequest)
        → to_uapi c uapi ≡ r
        → (out : V2LineRequest) × (to_uapi c uapi ≡ ok out)
    succeeds (ok out) e = (out, e)
    succeeds (err x) e = absurd (omega (arith, (to_uapi-err c uapi e).1))

-- ===== src/LineConfig/ToUapi/Debounce.antt =====
-- The debounce attributes that set_debounce_periods makes give each line its own period.
use libgpiod.Prelude.{
  ℕ, zero, suc, ◌+◌, ◌≤◌, ◌<◌, ◌==◌, ◌≡◌, ◌≢◌, ◌⊎◌, refl, ◌∙◌, ap, inl, inr, true, false,
  if◌then◌else◌, Option, none, some, List, [], ◌∷◌, ◌++◌, length, length-append, get_elem?, ok,
  bind-ok, arith,
}
use libgpiod.Mask.{mask_zero, mask_test_bit, mask_set_bit}
use libgpiod.Uapi.{LineAttribute, LineConfigAttribute, attr_debounce, gpio_v2_line_num_attrs_max}
use libgpiod.LineConfig.{PerLineConfig}
use libgpiod.LineConfig.ToUapi.{
  mark_equal, period, same_period, u32, debounce_round, set_debounce_periods,
}
use libgpiod.LineConfig.ToUapi.Effective.{attr_at, select_debounce}
use libgpiod.LineConfig.ToUapi.Groups.{
  Grouped, skip-Grouped, mark-Grouped, group-Grouped, group_self, append-below, append-other,
}

-- What the kernel is to see for an entry: no attribute for a period of zero.
abbrev pub wanted : PerLineConfig → Option ℕ
wanted q = if period q == 0 then none else some (u32 (period q))

abbrev Good : PerLineConfig → Option ℕ → Type 0
Good q o = o ≡ wanted q

abbrev pub round_attr : ℕ → PerLineConfig → List PerLineConfig → LineConfigAttribute
round_attr i p ps = record {
  attr = attr_debounce (u32 (period p));
  mask = mark_equal (same_period p) i (p ∷ ps) (mask_set_bit mask_zero i);
}

-- The three ways through a round.
abbrev pub Round :
    ℕ
    → PerLineConfig
    → List PerLineConfig
    → ℕ
    → List LineConfigAttribute
    → ℕ × List LineConfigAttribute
    → Type 0
Round i p ps done attrs s =
    ((mask_test_bit done i ≡ true) × (s ≡ (done, attrs)))
    ⊎ ((mask_test_bit done i ≡ false)
        × ((period p == 0) ≡ true)
        × (s ≡ (mask_set_bit done i, attrs)))
    ⊎ ((mask_test_bit done i ≡ false)
        × ((period p == 0) ≡ false)
        × (length attrs ≢ gpio_v2_line_num_attrs_max)
        × (s ≡ (
          mark_equal (same_period p) i (p ∷ ps) (mask_set_bit done i),
          attrs ++ round_attr i p ps ∷ [],
        )))

pub debounce_round-Round :
    (i : ℕ) (p : PerLineConfig) (ps : List PerLineConfig) (done : ℕ)
    (attrs : List LineConfigAttribute) (s : ℕ × List LineConfigAttribute)
    → debounce_round i p ps done attrs ≡ ok s
    → Round i p ps done attrs s
unfolding debounce_round
debounce_round-Round i p ps done attrs s h = ground arith

-- A round adds nothing to what the lines before it have.
Round-below :
    (select : LineAttribute → Option ℕ) (i : ℕ) (p : PerLineConfig) (ps : List PerLineConfig)
    (done : ℕ) (attrs : List LineConfigAttribute) (s : ℕ × List LineConfigAttribute) (t : ℕ)
    → t < i
    → Round i p ps done attrs s
    → attr_at select s.1 t ≡ attr_at select attrs t
Round-below select i p ps done attrs s t b (inl (d, e)) = rw e
Round-below select i p ps done attrs s t b (inr (inl (d, z, e))) = rw e
Round-below select i p ps done attrs s t b (inr (inr (d, z, l, e))) =
    rw e (append-below select (same_period p) i (p ∷ ps) attrs (round_attr i p ps) t refl b)

Round-Grouped :
    (i : ℕ) (p : PerLineConfig) (ps : List PerLineConfig) (done : ℕ)
    (attrs : List LineConfigAttribute) (s : ℕ × List LineConfigAttribute)
    → Grouped select_debounce Good i (p ∷ ps) done attrs
    → Round i p ps done attrs s
    → Grouped select_debounce Good (suc i) ps s.0 s.1
Round-Grouped i p ps done attrs s g (inl (d, e)) =
    rw e (skip-Grouped select_debounce Good i p ps done attrs g)
Round-Grouped i p ps done attrs s g (inr (inl (d, z, e))) =
    rw e (mark-Grouped select_debounce Good i p ps done attrs g)
Round-Grouped i p ps done attrs s g (inr (inr (d, z, l, e))) = rw e (
    group-Grouped select_debounce Good i p ps done attrs (same_period p) g (round_attr i p ps)
      (u32 (period p)) refl refl mates)
  where
    mates : (q : PerLineConfig) → same_period p q ≡ true → Good q (some (u32 (period p)))
    mates q m = ground arith

Round-self :
    (i : ℕ) (p : PerLineConfig) (ps : List PerLineConfig) (done : ℕ)
    (attrs : List LineConfigAttribute) (s : ℕ × List LineConfigAttribute)
    → Grouped select_debounce Good i (p ∷ ps) done attrs
    → Round i p ps done attrs s
    → Good p (attr_at select_debounce s.1 i)
Round-self i p ps done attrs s g (inl (d, e)) = rw e ((g zero i p refl (omega arith)).0 d)
Round-self i p ps done attrs s g (inr (inl (d, z, e))) =
    rw (e, z) ((g zero i p refl (omega arith)).1 d)
Round-self i p ps done attrs s g (inr (inr (d, z, l, e))) =
    rw (e, z)
      (group_self select_debounce Good i p ps done attrs (same_period p) g (round_attr i p ps)
        (u32 (period p)) d refl refl)

loop-below :
    (select : LineAttribute → Option ℕ) (i : ℕ) (ps : List PerLineConfig) (done : ℕ)
    (attrs : List LineConfigAttribute) {out : List LineConfigAttribute} (t : ℕ)
    → t < i
    → set_debounce_periods i ps done attrs ≡ ok out
    → attr_at select out t ≡ attr_at select attrs t
unfolding set_debounce_periods
loop-below select i [] done attrs t b h = cc
loop-below select i (p ∷ ps) done attrs t b h =
    let (s, first, rest) = bind-ok (debounce_round i p ps done attrs) _ h in
    loop-below select (suc i) ps s.0 s.1 t (omega arith) rest
    ∙ Round-below select i p ps done attrs s t b (debounce_round-Round i p ps done attrs s first)

pub debounce-wanted :
    (i : ℕ) (ps : List PerLineConfig) (done : ℕ) (attrs : List LineConfigAttribute)
    {out : List LineConfigAttribute} (k t : ℕ) (q : PerLineConfig)
    → set_debounce_periods i ps done attrs ≡ ok out
    → Grouped select_debounce Good i ps done attrs
    → get_elem? ps k ≡ some q
    → t ≡ i + k
    → attr_at select_debounce out t ≡ wanted q
unfolding set_debounce_periods
debounce-wanted i [] done attrs k t q h g e n = cc
debounce-wanted i (p ∷ ps) done attrs {out} zero t q h g e n =
    let (s, first, rest) = bind-ok (debounce_round i p ps done attrs) _ h in
    let r : Round i p ps done attrs s = debounce_round-Round i p ps done attrs s first in
    let here : t ≡ i = omega arith in
    let same : p ≡ q = ground arith in
    rw here (
      loop-below select_debounce (suc i) ps s.0 s.1 i (omega arith) rest
      ∙ Round-self i p ps done attrs s g r
      ∙ ap wanted same)
debounce-wanted i (p ∷ ps) done attrs (suc k) t q h g e n =
    let (s, first, rest) = bind-ok (debounce_round i p ps done attrs) _ h in
    let r : Round i p ps done attrs s = debounce_round-Round i p ps done attrs s first in
    debounce-wanted (suc i) ps s.0 s.1 k t q rest (Round-Grouped i p ps done attrs s g r) e
      (omega arith)

-- The loop only adds debounce attributes, at most one for each line, and never passes ten.
Round-others :
    (select : LineAttribute → Option ℕ) (i : ℕ) (p : PerLineConfig) (ps : List PerLineConfig)
    (done : ℕ) (attrs : List LineConfigAttribute) (s : ℕ × List LineConfigAttribute) (t : ℕ)
    → ((d : ℕ) → select (attr_debounce d) ≡ none)
    → Round i p ps done attrs s
    → attr_at select s.1 t ≡ attr_at select attrs t
Round-others select i p ps done attrs s t o (inl (d, e)) = rw e
Round-others select i p ps done attrs s t o (inr (inl (d, z, e))) = rw e
Round-others select i p ps done attrs s t o (inr (inr (d, z, l, e))) =
    rw e (append-other select attrs (round_attr i p ps) t (o (u32 (period p))))

pub debounce-others :
    (select : LineAttribute → Option ℕ) (i : ℕ) (ps : List PerLineConfig) (done : ℕ)
    (attrs : List LineConfigAttribute) {out : List LineConfigAttribute} (t : ℕ)
    → ((d : ℕ) → select (attr_debounce d) ≡ none)
    → set_debounce_periods i ps done attrs ≡ ok out
    → attr_at select out t ≡ attr_at select attrs t
unfolding set_debounce_periods
debounce-others select i [] done attrs t o h = cc
debounce-others select i (p ∷ ps) done attrs t o h =
    let (s, first, rest) = bind-ok (debounce_round i p ps done attrs) _ h in
    debounce-others select (suc i) ps s.0 s.1 t o rest
    ∙ Round-others select i p ps done attrs s t o (debounce_round-Round i p ps done attrs s first)

Round-length :
    (i : ℕ) (p : PerLineConfig) (ps : List PerLineConfig) (done : ℕ)
    (attrs : List LineConfigAttribute) (s : ℕ × List LineConfigAttribute)
    → length attrs ≤ gpio_v2_line_num_attrs_max
    → Round i p ps done attrs s
    → length s.1 ≤ gpio_v2_line_num_attrs_max
Round-length i p ps done attrs s b (inl (d, e)) = rw e b
Round-length i p ps done attrs s b (inr (inl (d, z, e))) = rw e b
Round-length i p ps done attrs s b (inr (inr (d, z, l, e))) =
    rw e (omega (arith, length-append attrs (round_attr i p ps ∷ [])))

pub debounce-length :
    (i : ℕ) (ps : List PerLineConfig) (done : ℕ) (attrs : List LineConfigAttribute)
    {out : List LineConfigAttribute}
    → length attrs ≤ gpio_v2_line_num_attrs_max
    → set_debounce_periods i ps done attrs ≡ ok out
    → length out ≤ gpio_v2_line_num_attrs_max
unfolding set_debounce_periods
debounce-length i [] done attrs b h = ground arith
debounce-length i (p ∷ ps) done attrs b h =
    let (s, first, rest) = bind-ok (debounce_round i p ps done attrs) _ h in
    debounce-length (suc i) ps s.0 s.1
      (Round-length i p ps done attrs s b (debounce_round-Round i p ps done attrs s first)) rest

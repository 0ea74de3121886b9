-- ===== src/LineConfig/ToUapi/FlagGroups.antt =====
-- The flags that set_flags makes, for all lines or by attributes, give each line its own flags.
use libgpiod.Prelude.{
  ℕ, zero, suc, ◌+◌, ◌≤◌, ◌<◌, ◌≡◌, refl, ◌∙◌, ap, true, ◌||◌, Option, none, some, List, [], ◌∷◌,
  length, get_elem?, ok, bind-ok, ||-false, arith,
}
use libgpiod.Mask.{mask_zero, mask_test_bit, mask_set_bit}
use libgpiod.Mask.Laws.{mask_test_bit-zero}
use libgpiod.Uapi.{LineAttribute, LineConfigAttribute, attr_flags, gpio_v2_line_num_attrs_max}
use libgpiod.LineConfig.{PerLineConfig}
use libgpiod.LineConfig.ToUapi.{
  FlagsState, mark_equal, same_settings, flags_round, set_flags, flags_start,
}
use libgpiod.LineConfig.ToUapi.Effective.{attr_at, value_or, select_flags}
use libgpiod.LineConfig.ToUapi.Groups.{mark_equal-at, set_bit-keeps, Grouped}
use libgpiod.LineConfig.ToUapi.FlagRounds.{
  kernel_flags, Good, Round, flags_round-Round, mates-flags, Round-fixed, Round-below,
  Round-Grouped, Round-self, Round-others, Round-length,
}

loop-fixed :
    (flags i : ℕ) (ps : List PerLineConfig) (s : FlagsState) {out : FlagsState}
    → s.globals_taken ≡ true
    → s.flags ≡ flags
    → set_flags i ps s ≡ ok out
    → out.flags ≡ flags
unfolding set_flags
loop-fixed flags i [] s g f h = ground arith
loop-fixed flags i (p ∷ ps) s g f h =
    let (t, first, rest) = bind-ok (flags_round i p ps s) _ h in
    let fixed : (t.globals_taken ≡ true) × (t.flags ≡ flags) =
      Round-fixed flags i p ps s t g f (flags_round-Round i p ps s t g first) in
    loop-fixed flags (suc i) ps t fixed.0 fixed.1 rest

loop-below :
    (select : LineAttribute → Option ℕ) (i : ℕ) (ps : List PerLineConfig) (s : FlagsState)
    {out : FlagsState} (n : ℕ)
    → n < i
    → s.globals_taken ≡ true
    → set_flags i ps s ≡ ok out
    → attr_at select out.attrs n ≡ attr_at select s.attrs n
unfolding set_flags
loop-below select i [] s n b g h = ground arith
loop-below select i (p ∷ ps) s n b g h =
    let (t, first, rest) = bind-ok (flags_round i p ps s) _ h in
    let r : Round i p ps s t = flags_round-Round i p ps s t g first in
    loop-below select (suc i) ps t n (omega arith) (Round-fixed s.flags i p ps s t g refl r).0 rest
    ∙ Round-below s.flags i p ps s t select n b r

loop-wanted :
    (flags i : ℕ) (ps : List PerLineConfig) (s : FlagsState) {out : FlagsState} (k n : ℕ)
    (q : PerLineConfig)
    → s.globals_taken ≡ true
    → s.flags ≡ flags
    → set_flags i ps s ≡ ok out
    → Grouped select_flags (Good flags) i ps s.done s.attrs
    → get_elem? ps k ≡ some q
    → n ≡ i + k
    → Good flags q (attr_at select_flags out.attrs n)
unfolding set_flags
loop-wanted flags i [] s k n q g f h w e m = cc
loop-wanted flags i (p ∷ ps) s {out} zero n q g f h w e m =
    let (t, first, rest) = bind-ok (flags_round i p ps s) _ h in
    let r : Round i p ps s t = flags_round-Round i p ps s t g first in
    let here : n ≡ i = omega arith in
    let same : p ≡ q = ground arith in
    let kept : attr_at select_flags out.attrs i ≡ attr_at select_flags t.attrs i =
      loop-below select_flags (suc i) ps t i (omega arith) (Round-fixed flags i p ps s t g f r).0
        rest in
    rw (here, kept) (Round-self flags i p ps s t w r ∙ ap kernel_flags same)
loop-wanted flags i (p ∷ ps) s (suc k) n q g f h w e m =
    let (t, first, rest) = bind-ok (flags_round i p ps s) _ h in
    let r : Round i p ps s t = flags_round-Round i p ps s t g first in
    let fixed : (t.globals_taken ≡ true) × (t.flags ≡ flags) = Round-fixed flags i p ps s t g f r in
    loop-wanted flags (suc i) ps t k n q fixed.0 fixed.1 rest (Round-Grouped flags i p ps s t w r) e
      (omega arith)

loop-others :
    (select : LineAttribute → Option ℕ) (i : ℕ) (ps : List PerLineConfig) (s : FlagsState)
    {out : FlagsState} (n : ℕ)
    → ((d : ℕ) → select (attr_flags d) ≡ none)
    → s.globals_taken ≡ true
    → set_flags i ps s ≡ ok out
    → attr_at select out.attrs n ≡ attr_at select s.attrs n
unfolding set_flags
loop-others select i [] s n o g h = ground arith
loop-others select i (p ∷ ps) s n o g h =
    let (t, first, rest) = bind-ok (flags_round i p ps s) _ h in
    let r : Round i p ps s t = flags_round-Round i p ps s t g first in
    loop-others select (suc i) ps t n o (Round-fixed s.flags i p ps s t g refl r).0 rest
    ∙ Round-others s.flags i p ps s t select n o r

loop-length :
    (i : ℕ) (ps : List PerLineConfig) (s : FlagsState) {out : FlagsState}
    → s.globals_taken ≡ true
    → length s.attrs ≤ gpio_v2_line_num_attrs_max
    → set_flags i ps s ≡ ok out
    → length out.attrs ≤ gpio_v2_line_num_attrs_max
unfolding set_flags
loop-length i [] s g b h = ground arith
loop-length i (p ∷ ps) s g b h =
    let (t, first, rest) = bind-ok (flags_round i p ps s) _ h in
    let r : Round i p ps s t = flags_round-Round i p ps s t g first in
    loop-length (suc i) ps t (Round-fixed s.flags i p ps s t g refl r).0
      (Round-length s.flags i p ps s t b r) rest

-- The first round takes the flags of entry 0 for the request.
abbrev pub taken : PerLineConfig → List PerLineConfig → List LineConfigAttribute → FlagsState
taken p ps attrs = record {
  globals_taken = true;
  flags = kernel_flags p;
  done = mark_equal (same_settings p) 0 (p ∷ ps) (mask_set_bit mask_zero 0);
  attrs = attrs;
}

pub first_round :
    (p : PerLineConfig) (ps : List PerLineConfig) (flags : ℕ) (attrs : List LineConfigAttribute)
    → flags_round 0 p ps (flags_start flags attrs) ≡ ok (taken p ps attrs)
unfolding flags_round
first_round p ps flags attrs = rw (mask_test_bit-zero 0)

taken-Grouped :
    (p : PerLineConfig) (ps : List PerLineConfig) (attrs : List LineConfigAttribute)
    → ((n : ℕ) → attr_at select_flags attrs n ≡ none)
    → Grouped select_flags (Good (kernel_flags p)) 1 ps (taken p ps attrs).done attrs
taken-Grouped p ps attrs clear k n q e m =
    let marked : mask_test_bit (taken p ps attrs).done n ≡ same_settings p q =
      mark_equal-at (same_settings p) 0 (p ∷ ps) (mask_set_bit mask_zero 0) (suc k) n q e
        (omega arith)
      ∙ ap (λ b. same_settings p q || b)
          (set_bit-keeps mask_zero 0 n (omega arith) ∙ mask_test_bit-zero n)
      ∙ ||-false (same_settings p q) in
    rw (marked, clear n) (mates-flags p q, λ _. refl)

abbrev pub NoFlags : List LineConfigAttribute → Type 0
NoFlags attrs = (n : ℕ) → attr_at select_flags attrs n ≡ none

module _ (flags : ℕ) (attrs : List LineConfigAttribute) where
  after :
      (p : PerLineConfig) (ps : List PerLineConfig) {out : FlagsState}
      → set_flags 0 (p ∷ ps) (flags_start flags attrs) ≡ ok out
      → set_flags 1 ps (taken p ps attrs) ≡ ok out
  unfolding set_flags
  after p ps h = rw (first_round p ps flags attrs) at h

  -- Every line gets the flags of its own settings.
  pub flags-wanted :
      (ps : List PerLineConfig) {out : FlagsState} (k : ℕ) (q : PerLineConfig)
      → NoFlags attrs
      → set_flags 0 ps (flags_start flags attrs) ≡ ok out
      → get_elem? ps k ≡ some q
      → value_or (attr_at select_flags out.attrs k) out.flags ≡ kernel_flags q
  unfolding set_flags
  flags-wanted [] k q c h e = cc
  flags-wanted (p ∷ ps) {out} zero q c h e =
      let fixed : out.flags ≡ kernel_flags p =
        loop-fixed (kernel_flags p) 1 ps (taken p ps attrs) refl refl (after p ps h) in
      let unmade : attr_at select_flags out.attrs 0 ≡ none =
        loop-below select_flags 1 ps (taken p ps attrs) 0 (omega arith) refl (after p ps h) ∙ c 0 in
      let same : p ≡ q = ground arith in rw (unmade, fixed) (ap kernel_flags same)
  flags-wanted (p ∷ ps) {out} (suc k) q c h e =
      let fixed : out.flags ≡ kernel_flags p =
        loop-fixed (kernel_flags p) 1 ps (taken p ps attrs) refl refl (after p ps h) in
      rw fixed (
        loop-wanted (kernel_flags p) 1 ps (taken p ps attrs) k (suc k) q refl refl (after p ps h)
          (taken-Grouped p ps attrs c) e (omega arith))

  pub flags-others :
      (select : LineAttribute → Option ℕ) (ps : List PerLineConfig) {out : FlagsState} (n : ℕ)
      → ((d : ℕ) → select (attr_flags d) ≡ none)
      → set_flags 0 ps (flags_start flags attrs) ≡ ok out
      → attr_at select out.attrs n ≡ attr_at select attrs n
  unfolding set_flags
  flags-others select [] n o h = ground arith
  flags-others select (p ∷ ps) n o h =
      loop-others select 1 ps (taken p ps attrs) n o refl (after p ps h)

  pub flags-length :
      (ps : List PerLineConfig) {out : FlagsState}
      → length attrs ≤ gpio_v2_line_num_attrs_max
      → set_flags 0 ps (flags_start flags attrs) ≡ ok out
      → length out.attrs ≤ gpio_v2_line_num_attrs_max
  unfolding set_flags
  flags-length [] b h = ground arith
  flags-length (p ∷ ps) b h = loop-length 1 ps (taken p ps attrs) refl b (after p ps h)

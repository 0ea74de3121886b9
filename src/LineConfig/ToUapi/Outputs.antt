-- ===== src/LineConfig/ToUapi/Outputs.antt =====
-- The output values that set_kernel_output_values packs, bit by bit.
use libgpiod.Prelude.{
  ℕ, zero, suc, ◌+◌, ◌≤◌, ◌<◌, ◌==◌, ◌≡◌, refl, ◌∙◌, ap, Bool, true, false, if◌then◌else◌, Option,
  none, some, List, [], ◌∷◌, length, get_elem?, arith, ==-ne, get_elem?-lt, Bool-cases, inl, inr,
}
use libgpiod.Mask.{mask_zero, mask_test_bit, mask_set_bit}
use libgpiod.Mask.Laws.{mask_test_bit-set_bit, mask_test_bit-assign_bit, mask_test_bit-zero}
use libgpiod.Enums.{LineValue, value_is_active}
use libgpiod.LineSettings.{get_output_value}
use libgpiod.LineConfig.{PerLineConfig, LineConfig, num_configs, lines_max}
use libgpiod.LineConfig.ToUapi.{
  is_output, assign_output_value, has_at_least_one_output_direction, line_output_values,
  global_output_values, set_kernel_output_values,
}

abbrev Words : Type 0
Words = ℕ × ℕ

-- Bit t of the mask and of the values.
abbrev pub bits_at : Words → ℕ → Bool × Bool
bits_at w t = (mask_test_bit w.0 t, mask_test_bit w.1 t)

abbrev line_round : ℕ → PerLineConfig → Words → Words
line_round i p w =
    if is_output p
    then (mask_set_bit w.0 i, assign_output_value w.1 i (get_output_value p.node.settings))
    else w

abbrev global_round : ℕ → LineValue → Words → Words
global_round i v w = (mask_set_bit w.0 i, assign_output_value w.1 i v)

global_round-bits :
    (i : ℕ) (v : LineValue) (w : Words) (t : ℕ)
    → i < 64
    → t < 64
    → bits_at (global_round i v w) t ≡ (if i == t then (true, value_is_active v) else bits_at w t)
unfolding assign_output_value
global_round-bits i v w t h k =
    ground (
      arith,
      mask_test_bit-set_bit w.0 i t,
      mask_test_bit-assign_bit w.1 i t (value_is_active v) h k,
    )

line_round-bits :
    (i : ℕ) (p : PerLineConfig) (w : Words) (t : ℕ)
    → i < 64
    → t < 64
    → bits_at (line_round i p w) t ≡ (
        if i == t
        then (if is_output p
            then (true, value_is_active (get_output_value p.node.settings))
            else bits_at w t)
        else bits_at w t)
line_round-bits i p w t h k = elim (Bool-cases (is_output p)) [
  | inl e ↦ rw e (global_round-bits i (get_output_value p.node.settings) w t h k)
  | inr e ↦ rw e (if_same (i == t) (bits_at w t))
]
  where
    if_same : (b : Bool) (x : Bool × Bool) → x ≡ (if b then x else x)
    if_same true x = refl
    if_same false x = refl

-- The loop over the lines leaves the bits before i alone, and gives each output line its own.
line_output_values-below :
    (i : ℕ) (ps : List PerLineConfig) (w : Words) (t : ℕ)
    → i + length ps ≤ 64
    → t < i
    → bits_at (line_output_values i ps w) t ≡ bits_at w t
unfolding line_output_values
line_output_values-below i [] w t n b = refl
line_output_values-below i (p ∷ ps) w t n b =
    line_output_values-below (suc i) ps (line_round i p w) t (omega arith) (omega arith)
    ∙ line_round-bits i p w t (omega arith) (omega arith)
    ∙ rw (==-ne i t (omega arith))

abbrev pub line_bits : PerLineConfig → Bool × Bool → Bool × Bool
line_bits p old =
    if is_output p then (true, value_is_active (get_output_value p.node.settings)) else old

line_output_values-at :
    (i : ℕ) (ps : List PerLineConfig) (w : Words) (k t : ℕ) (q : PerLineConfig)
    → i + length ps ≤ 64
    → get_elem? ps k ≡ some q
    → t ≡ i + k
    → bits_at (line_output_values i ps w) t ≡ line_bits q (bits_at w t)
unfolding line_output_values
line_output_values-at i [] w k t q n e h = cc
line_output_values-at i (p ∷ ps) w zero t q n e h =
    let same : p ≡ q = ground arith in
    let here : (i == t) ≡ true = ground arith in
    line_output_values-below (suc i) ps (line_round i p w) t (omega arith) (omega arith)
    ∙ line_round-bits i p w t (omega arith) (omega arith)
    ∙ rw here (ap (λ x. line_bits x (bits_at w t)) same)
line_output_values-at i (p ∷ ps) w (suc k) t q n e h =
    line_output_values-at (suc i) ps (line_round i p w) k t q (omega arith) e (omega arith)
    ∙ ap (line_bits q) (
        line_round-bits i p w t (omega arith) (omega (arith, get_elem?-lt ps k q e))
        ∙ rw (==-ne i t (omega arith)))

abbrev pub global_bits : Option LineValue → Bool × Bool → Bool × Bool
global_bits none old = old
global_bits (some v) old = (true, value_is_active v)

global_output_values-below :
    (i : ℕ) (vs : List LineValue) (w : Words) (t : ℕ)
    → i + length vs ≤ 64
    → t < i
    → bits_at (global_output_values i vs w) t ≡ bits_at w t
unfolding global_output_values
global_output_values-below i [] w t n b = refl
global_output_values-below i (v ∷ vs) w t n b =
    global_output_values-below (suc i) vs (global_round i v w) t (omega arith) (omega arith)
    ∙ global_round-bits i v w t (omega arith) (omega arith)
    ∙ rw (==-ne i t (omega arith))

-- The loop over the global values overrides the lines that have one.
global_output_values-at :
    (i : ℕ) (vs : List LineValue) (w : Words) (k t : ℕ)
    → i + length vs ≤ 64
    → t < 64
    → t ≡ i + k
    → bits_at (global_output_values i vs w) t ≡ global_bits (get_elem? vs k) (bits_at w t)
unfolding global_output_values
global_output_values-at i [] w k t n l h = refl
global_output_values-at i (v ∷ vs) w zero t n l h =
    let here : (i == t) ≡ true = ground arith in
    global_output_values-below (suc i) vs (global_round i v w) t (omega arith) (omega arith)
    ∙ global_round-bits i v w t (omega arith) l
    ∙ rw here
global_output_values-at i (v ∷ vs) w (suc k) t n l h =
    global_output_values-at (suc i) vs (global_round i v w) k t (omega arith) l (omega arith)
    ∙ ap (global_bits (get_elem? vs k))
        (global_round-bits i v w t (omega arith) l ∙ rw (==-ne i t (omega arith)))

-- Bit k of the mask and of the values, for entry k.
pub set_kernel_output_values-bits :
    (c : LineConfig) (k : ℕ) (q : PerLineConfig)
    → num_configs c ≤ lines_max
    → length c.output_values ≤ lines_max
    → get_elem? c.line_configs k ≡ some q
    → bits_at (set_kernel_output_values c) k
      ≡ global_bits (get_elem? c.output_values k) (line_bits q (false, false))
unfolding set_kernel_output_values
set_kernel_output_values-bits c k q n l e =
    let small : k < length c.line_configs = get_elem?-lt c.line_configs k q e in
    global_output_values-at 0 c.output_values
      (line_output_values 0 c.line_configs (mask_zero, mask_zero)) k k (omega arith) (omega arith)
      (omega arith)
    ∙ ap (global_bits (get_elem? c.output_values k)) (
        line_output_values-at 0 c.line_configs (mask_zero, mask_zero) k k q (omega arith) e
          (omega arith)
        ∙ ap (line_bits q) (rw (mask_test_bit-zero k)))

-- With an output line the loop that looks for one finds it.
pub has_output-at :
    (ps : List PerLineConfig) (k : ℕ) (q : PerLineConfig)
    → get_elem? ps k ≡ some q
    → is_output q ≡ true
    → has_at_least_one_output_direction ps ≡ true
unfolding has_at_least_one_output_direction
has_output-at [] k q e o = cc
has_output-at (p ∷ ps) zero q e o = let same : p ≡ q = ground arith in rw (same, o)
has_output-at (p ∷ ps) (suc k) q e o = rw (has_output-at ps k q e o) (if_same (is_output p))
  where
    if_same : (b : Bool) → (if b then true else true) ≡ true
    if_same true = refl
    if_same false = refl

-- ===== src/Tools/Gpioset/Toggle.antt =====
-- The toggling of gpioset: toggle_all_lines, apply_values, toggle_sequence, parse_periods_or_die
-- and the hold period of main.
pub mod Laws
use libgpiod.Prelude.{
  ℕ, zero, suc, ◌+◌, ◌-◌, ◌==◌, ltb, Bool, true, false, not, ◌&&◌, ◌||◌, if◌then◌else◌, Option,
  none, some, List, [], ◌∷◌, ◌++◌, map, length, get_or, Result, ok, err, Errno,
}
use libgpiod.Enums.{LineValue, inactive, active, value_is_nonzero}
use libgpiod.Kernel.{Kernel}
use libgpiod.LineRequest.{LineRequest, set_all_values}
use libgpiod.Tools.Options.{period_or_die}
use libgpiod.Tools.Exit.{Run, going, died, ◌>>=◌}
use libgpiod.Tools.Resolver.{ResolvedLine}
use libgpiod.Tools.Resolver.Values.{values_on}

-- `!value`
abbrev pub opposite : LineValue → LineValue
opposite v = if value_is_nonzero v then inactive else active

abbrev pub toggle_line : ResolvedLine → ResolvedLine
toggle_line line = record line { value = opposite line.value }

unfoldable pub toggle_all_lines : List ResolvedLine → List ResolvedLine
toggle_all_lines lines = map toggle_line lines

-- The text before the first comma, and the text behind it.
unfoldable pub at_comma : List ℕ → List ℕ × Option (List ℕ)
at_comma [] = ([], none)
at_comma (c ∷ cs) =
    let (before, after) = at_comma cs in if c == b',' then ([], some cs) else (c ∷ before, after)

unfoldable pub count_commas : List ℕ → ℕ
count_commas [] = 0
count_commas (c ∷ cs) = (if c == b',' then 1 else 0) + count_commas cs

-- The second loop of parse_periods_or_die and the period behind the last comma, over the commas
-- that are left.
unfoldable pub parse_periods_from : ℕ → List ℕ → Run (List ℕ)
unfolding at_comma
parse_periods_from zero option = period_or_die option >>= λ p. going (p ∷ [])
parse_periods_from (suc left) option =
    let (before, after) = at_comma option in
    let rest : Run (List ℕ) = elim after [
      | none ↦ going []
      | some cs ↦ parse_periods_from left cs
    ] in
    period_or_die before >>= λ p. rest >>= λ ps. going (p ∷ ps)

unfoldable pub parse_periods_or_die : List ℕ → Run (List ℕ)
unfolding parse_periods_from count_commas
parse_periods_or_die option = parse_periods_from (count_commas option) option

-- The loop of main over the periods: each is at least the hold period, but a 0 at the end stays.
unfoldable pub hold_periods : ℕ → List ℕ → List ℕ
hold_periods hold [] = []
hold_periods hold (p ∷ []) = (if ltb p hold && not (p == 0) then hold else p) ∷ []
hold_periods hold (p ∷ q ∷ ps) = (if ltb p hold then hold else p) ∷ hold_periods hold (q ∷ ps)

module _ (kernel : Kernel) where
  open kernel use {World}

  -- apply_values: the kernel's state, and the chips whose values were refused.
  unfoldable pub apply_values :
      World → List LineRequest → List ResolvedLine → ℕ → World × List (ℕ × Errno)
  apply_values w [] lines chip_num = (w, [])
  apply_values w (request ∷ requests) lines chip_num =
      let (w', outcome) = set_all_values kernel w request (some (values_on lines chip_num)) in
      let (w'', refused) = apply_values w' requests lines (suc chip_num) in
      (w'', elim outcome [ ok _ ↦ refused | err e ↦ (chip_num, e) ∷ refused ])

  -- Where the loop of toggle_sequence stands; `slept` holds the periods slept so far, the last
  -- first.
  pub record Toggling : Type 0 where
    pub i : ℕ
    pub world : World
    pub lines : List ResolvedLine
    pub slept : List ℕ

  -- The loop either goes on or has returned.
  pub data Progress : Type 0 where
    running : Toggling → Progress
    returned : Toggling → Progress

  -- The end of a round, where i is already counted up.
  abbrev pub round_end : List ℕ → Toggling → Progress
  round_end periods t =
      if (suc t.i == length periods) && (get_or periods t.i 0 == 0)
      then returned t
      else if t.i == length periods
      then running (record t { i = 0 })
      else running t

  -- A round of the loop, from the sleep on.
  unfoldable pub toggle_round : List LineRequest → List ℕ → Toggling → Progress
  unfolding apply_values toggle_all_lines
  toggle_round requests periods t =
      let lines' = toggle_all_lines t.lines in
      round_end periods (record {
        i = suc t.i;
        world = (apply_values t.world requests lines' 0).0;
        lines = lines';
        slept = get_or periods t.i 0 ∷ t.slept;
      })

  unfoldable pub toggle_rounds : ℕ → List LineRequest → List ℕ → Progress → Progress
  unfolding toggle_round
  toggle_rounds n requests periods (returned t) = returned t
  toggle_rounds zero requests periods (running t) = running t
  toggle_rounds (suc n) requests periods (running t) =
      toggle_rounds n requests periods (toggle_round requests periods t)

  -- toggle_sequence after n rounds of its loop; it may run forever.
  unfoldable pub toggle_sequence :
      ℕ → List LineRequest → List ℕ → World → List ResolvedLine → Progress
  unfolding toggle_rounds
  toggle_sequence n requests periods w lines =
      let start : Toggling = record { i = 0; world = w; lines = lines; slept = [] } in
      if (length periods == 1) && (get_or periods 0 0 == 0)
      then returned start
      else toggle_rounds n requests periods (running start)

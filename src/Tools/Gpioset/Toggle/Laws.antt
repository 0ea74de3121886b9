-- ===== src/Tools/Gpioset/Toggle/Laws.antt =====
-- When toggle_sequence returns, and what it has done by then.
use libgpiod.Prelude.{
  ℕ, zero, suc, ◌≤◌, ◌==◌, leb, ◌≡◌, refl, ◌∙◌, ap, sym, true, false, ◌&&◌, if◌then◌else◌, List, [],
  ◌∷◌, ◌++◌, length, get_or, arith, Bool-cases, inl, inr,
}
use libgpiod.Kernel.{Kernel}
use libgpiod.LineRequest.{LineRequest}
use libgpiod.Tools.Resolver.{ResolvedLine}
use libgpiod.Tools.Gpioset.Toggle.{
  Toggling, Progress, running, returned, round_end, toggle_round, toggle_rounds, toggle_sequence,
  toggle_all_lines, apply_values,
}

get_or-last : (ps : List ℕ) (p : ℕ) → get_or (ps ++ p ∷ []) (length ps) 0 ≡ p
get_or-last [] p = refl
get_or-last (q ∷ ps) p = get_or-last ps p

length-last : (ps : List ℕ) (p : ℕ) → length (ps ++ p ∷ []) ≡ suc (length ps)
length-last [] p = refl
length-last (q ∷ ps) p = ap suc (length-last ps p)

module _ (kernel : Kernel) where
  open kernel use {World}

  toggle_rounds-returned :
      (n : ℕ) (requests : List LineRequest) (periods : List ℕ) (t : Toggling kernel)
      → toggle_rounds kernel n requests periods (returned t) ≡ returned t
  unfolding toggle_rounds
  toggle_rounds-returned zero requests periods t = refl
  toggle_rounds-returned (suc n) requests periods t = refl

  toggle_rounds-suc :
      (n : ℕ) (requests : List LineRequest) (periods : List ℕ) (p : Progress kernel)
      → toggle_rounds kernel (suc n) requests periods p
        ≡ toggle_rounds kernel 1 requests periods (toggle_rounds kernel n requests periods p)
  unfolding toggle_rounds
  toggle_rounds-suc n requests periods (returned t) =
      rw (toggle_rounds-returned n requests periods t) refl
  toggle_rounds-suc zero requests periods (running t) = refl
  toggle_rounds-suc (suc n) requests periods (running t) =
      toggle_rounds-suc n requests periods (toggle_round kernel requests periods t)

  module _ (requests : List LineRequest) (ps : List ℕ) (last : ℕ) (w : World)
      (lines : List ResolvedLine) where
    -- After n rounds: the index goes round, the lines are toggled and applied, and the period at
    -- the index was slept.
    abbrev pub after_rounds : ℕ → Toggling kernel
    after_rounds zero = record { i = 0; world = w; lines = lines; slept = [] }
    after_rounds (suc n) =
        let t = after_rounds n in
        record {
          i = if t.i == length ps then 0 else suc t.i;
          world = (apply_values kernel t.world requests (toggle_all_lines t.lines) 0).0;
          lines = toggle_all_lines t.lines;
          slept = get_or (ps ++ last ∷ []) t.i 0 ∷ t.slept;
        }

    index_le : (n : ℕ) → (after_rounds n).i ≤ length ps
    index_le zero = omega arith
    index_le (suc n) = ground (arith, index_le n)

    index_first : (n : ℕ) → n ≤ length ps → (after_rounds n).i ≡ n
    index_first zero h = refl
    index_first (suc n) h =
        let e : (after_rounds n).i ≡ n = index_first n (omega arith) in ground arith

    get_or-end : (i : ℕ) → i ≡ length ps → get_or (ps ++ last ∷ []) i 0 ≡ last
    get_or-end i e = rw e (get_or-last ps last)

    round_end_lem :
        (t : Toggling kernel)
        → round_end kernel (ps ++ last ∷ []) t ≡ (
            if (t.i == length ps) && (last == 0)
            then returned t
            else if t.i == suc (length ps)
            then running (record t { i = 0 })
            else running t)
    round_end_lem t = elim (Bool-cases (t.i == length ps)) [
      | inl e ↦
          let e' : t.i ≡ length ps = ground arith in
          rw (length-last ps last, get_or-end t.i e') (ground arith)
      | inr e ↦ rw (length-last ps last) (ground arith)
    ]

    toggle_round_lem :
        (n : ℕ)
        → toggle_round kernel requests (ps ++ last ∷ []) (after_rounds n) ≡ (
            if (suc (after_rounds n).i == length ps) && (last == 0)
            then returned (after_rounds (suc n))
            else running (after_rounds (suc n)))
    unfolding toggle_round
    toggle_round_lem n = round_end_lem _ ∙ ground arith

    toggle_rounds-one :
        (t : Toggling kernel)
        → toggle_rounds kernel 1 requests (ps ++ last ∷ []) (running t)
          ≡ toggle_round kernel requests (ps ++ last ∷ []) t
    unfolding toggle_rounds
    toggle_rounds-one t = settled (toggle_round kernel requests (ps ++ last ∷ []) t)
      where
        settled : (p : Progress kernel) → toggle_rounds kernel 0 requests (ps ++ last ∷ []) p ≡ p
        settled (running t) = refl
        settled (returned t) = refl

    abbrev pub progress : ℕ → Progress kernel
    progress n =
        if (last == 0) && leb (length ps) n
        then returned (after_rounds (length ps))
        else running (after_rounds n)

    next_progress :
        (n : ℕ)
        → ((last == 0) && leb (length ps) n) ≡ false
        → (if (suc (after_rounds n).i == length ps) && (last == 0)
            then returned (after_rounds (suc n))
            else running (after_rounds (suc n)))
          ≡ progress (suc n)
    next_progress n e = elim (Bool-cases (last == 0)) [
      | inr z ↦ rw z (ground arith)
      | inl z ↦
          let first : (after_rounds n).i ≡ n = index_first n (ground arith) in
          elim (Bool-cases (suc n == length ps)) [
            | inl f ↦
                let f' : suc n ≡ length ps = ground arith in
                let g : leb (length ps) (suc n) ≡ true = ground arith in
                let h : suc (after_rounds n).i == length ps ≡ true = ground arith in
                rw (z, h, g) (ap (λ k. returned (after_rounds k)) f')
            | inr f ↦
                let g : leb (length ps) (suc n) ≡ false = ground arith in
                let h : suc (after_rounds n).i == length ps ≡ false = ground arith in
                rw (z, h, g) refl
          ]
    ]

    progress-suc :
        (n : ℕ) → toggle_rounds kernel 1 requests (ps ++ last ∷ []) (progress n) ≡ progress (suc n)
    progress-suc n = elim (Bool-cases ((last == 0) && leb (length ps) n)) [
      | inl e ↦
          let later : (last == 0) && leb (length ps) (suc n) ≡ true = ground arith in
          rw (e, later)
            (toggle_rounds-returned 1 requests (ps ++ last ∷ []) (after_rounds (length ps)))
      | inr e ↦ rw e (toggle_rounds-one (after_rounds n) ∙ toggle_round_lem n ∙ next_progress n e)
    ]

    progress_start :
        ((length ps == 0) && (last == 0)) ≡ false → progress 0 ≡ running (after_rounds 0)
    progress_start h = ground arith

    toggle_rounds-progress :
        (n : ℕ)
        → ((length ps == 0) && (last == 0)) ≡ false
        → toggle_rounds kernel n requests (ps ++ last ∷ []) (running (after_rounds 0)) ≡ progress n
    unfolding toggle_rounds
    toggle_rounds-progress zero h = sym (progress_start h)
    toggle_rounds-progress (suc n) h =
        toggle_rounds-suc n requests (ps ++ last ∷ []) (running (after_rounds 0))
        ∙ rw (toggle_rounds-progress n h) (progress-suc n)

    -- The toggling returns exactly if the last period is 0, and then after as many rounds as there
    -- are periods in front of it (at once, if there are none); otherwise it never does. The n-th
    -- round has slept the next period in turn, toggled all lines and applied their values.
    pub toggle_sequence-progress :
        (n : ℕ) → toggle_sequence kernel n requests (ps ++ last ∷ []) w lines ≡ progress n
    unfolding toggle_sequence
    toggle_sequence-progress n = elim (Bool-cases ((length ps == 0) && (last == 0))) [
      | inl e ↦
          let none : 0 ≡ length ps = ground arith in
          let one : (suc (length ps) == 1) ≡ true = ground arith in
          let z : (last == 0) ≡ true = ground arith in
          let all : leb (length ps) n ≡ true = ground arith in
          rw (length-last ps last, get_or-end 0 none)
            (rw (one, z, all) (ap (λ k. returned (after_rounds k)) none))
      | inr e ↦
          let test : ((length (ps ++ last ∷ []) == 1) && (get_or (ps ++ last ∷ []) 0 0 == 0))
              ≡ false =
            rw (length-last ps last) (ground (arith, get_or-end 0)) in
          rw test (toggle_rounds-progress n e)
    ]

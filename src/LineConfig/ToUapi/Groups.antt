-- ===== src/LineConfig/ToUapi/Groups.antt =====
-- The grouping that set_debounce_periods and set_flags share: each round makes one attribute for
-- the entries that agree with entry i, and marks them as done.
use libgpiod.Prelude.{
  ||-false, ℕ, zero, suc, ◌+◌, ◌<◌, ◌≡◌, ◌≢◌, refl, ◌∙◌, ap, Bool, true, false, ◌||◌, if◌then◌else◌,
  Option, none, some, List, [], ◌∷◌, ◌++◌, get_elem?, arith, ==-ne,
}
use libgpiod.Mask.{mask_zero, mask_test_bit, mask_set_bit}
use libgpiod.Mask.Laws.{mask_test_bit-set_bit, mask_test_bit-zero}
use libgpiod.Uapi.{LineAttribute, LineConfigAttribute}
use libgpiod.LineConfig.{PerLineConfig}
use libgpiod.LineConfig.ToUapi.{mark_equal}
use libgpiod.LineConfig.ToUapi.Effective.{attr_at, attr_at-append, or_else, when}

pub set_bit-keeps : (m i t : ℕ) → i ≢ t → mask_test_bit (mask_set_bit m i) t ≡ mask_test_bit m t
set_bit-keeps m i t h = mask_test_bit-set_bit m i t ∙ ap (λ b. b || mask_test_bit m t) (==-ne i t h)

set_bit-keeps_if :
    (b : Bool) (m i t : ℕ)
    → i ≢ t
    → mask_test_bit (if b then mask_set_bit m i else m) t ≡ mask_test_bit m t
set_bit-keeps_if true m i t h = set_bit-keeps m i t h
set_bit-keeps_if false m i t h = refl

module _ (test : PerLineConfig → Bool) where
  pub mark_equal-below :
      (j : ℕ) (ps : List PerLineConfig) (m t : ℕ)
      → t < j
      → mask_test_bit (mark_equal test j ps m) t ≡ mask_test_bit m t
  unfolding mark_equal
  mark_equal-below j [] m t h = refl
  mark_equal-below j (p ∷ ps) m t h =
      mark_equal-below (suc j) ps (if test p then mask_set_bit m j else m) t (omega arith)
      ∙ set_bit-keeps_if (test p) m j t (omega arith)

  pub mark_equal-at :
      (j : ℕ) (ps : List PerLineConfig) (m k t : ℕ) (q : PerLineConfig)
      → get_elem? ps k ≡ some q
      → t ≡ j + k
      → mask_test_bit (mark_equal test j ps m) t ≡ (test q || mask_test_bit m t)
  unfolding mark_equal
  mark_equal-at j [] m k t q e h = cc
  mark_equal-at j (p ∷ ps) m zero t q e h =
      mark_equal-below (suc j) ps (if test p then mask_set_bit m j else m) t (omega arith)
      ∙ here (test p) (test q) (ground arith)
    where
      here :
          (b c : Bool)
          → b ≡ c
          → mask_test_bit (if b then mask_set_bit m j else m) t ≡ (c || mask_test_bit m t)
      here b c g = ground (arith, mask_test_bit-set_bit m j t)
  mark_equal-at j (p ∷ ps) m (suc k) t q e h =
      mark_equal-at (suc j) ps (if test p then mask_set_bit m j else m) k t q e (omega arith)
      ∙ ap (λ b. test q || b) (set_bit-keeps_if (test p) m j t (omega arith))

-- A line's attribute after a round: it is new for a mate that had none.
join_group :
    (P : Option ℕ → Type 0) (mate done : Bool) (o : Option ℕ) (v : ℕ)
    → (mate ≡ true → P (some v))
    → (done ≡ true → P o) × (done ≡ false → o ≡ none)
    → ((mate || done) ≡ true → P (or_else o (when mate (some v))))
      × ((mate || done) ≡ false → or_else o (when mate (some v)) ≡ none)
join_group P true done none v good old = (λ _. good refl, λ h. cc)
join_group P true true (some w) v good old = (λ _. old.0 refl, λ h. cc)
join_group P true false (some w) v good old = absurd (cc (old.1 refl))
join_group P false done none v good old = old
join_group P false done (some w) v good old = old

module _ (select : LineAttribute → Option ℕ) (Good : PerLineConfig → Option ℕ → Type 0) where
  -- What holds of the entries from i on: one that is done has a good attribute, and one that is
  -- not done has none.
  abbrev pub Grouped : ℕ → List PerLineConfig → ℕ → List LineConfigAttribute → Type 0
  Grouped i ps done attrs =
      (k t : ℕ) (q : PerLineConfig)
      → get_elem? ps k ≡ some q
      → t ≡ i + k
      → (mask_test_bit done t ≡ true → Good q (attr_at select attrs t))
        × (mask_test_bit done t ≡ false → attr_at select attrs t ≡ none)

  pub skip-Grouped :
      (i : ℕ) (p : PerLineConfig) (ps : List PerLineConfig) (done : ℕ)
      (attrs : List LineConfigAttribute)
      → Grouped i (p ∷ ps) done attrs
      → Grouped (suc i) ps done attrs
  skip-Grouped i p ps done attrs g k t q e h = g (suc k) t q e (omega arith)

  pub mark-Grouped :
      (i : ℕ) (p : PerLineConfig) (ps : List PerLineConfig) (done : ℕ)
      (attrs : List LineConfigAttribute)
      → Grouped i (p ∷ ps) done attrs
      → Grouped (suc i) ps (mask_set_bit done i) attrs
  mark-Grouped i p ps done attrs g k t q e h =
      rw (set_bit-keeps done i t (omega arith)) (g (suc k) t q e (omega arith))

  module _ (i : ℕ) (p : PerLineConfig) (ps : List PerLineConfig) (done : ℕ)
      (attrs : List LineConfigAttribute) (test : PerLineConfig → Bool)
      (g : Grouped i (p ∷ ps) done attrs) where
    -- A round that marks the mates of entry i and gives them one attribute.
    pub group-Grouped :
        (a : LineConfigAttribute) (v : ℕ)
        → select a.attr ≡ some v
        → a.mask ≡ mark_equal test i (p ∷ ps) (mask_set_bit mask_zero i)
        → ((q : PerLineConfig) → test q ≡ true → Good q (some v))
        → Grouped (suc i) ps (mark_equal test i (p ∷ ps) (mask_set_bit done i)) (attrs ++ a ∷ [])
    group-Grouped a v s m good k t q e h =
        let own : mask_test_bit (mask_set_bit mask_zero i) t ≡ false =
          set_bit-keeps mask_zero i t (omega arith) ∙ mask_test_bit-zero t in
        let before : mask_test_bit (mask_set_bit done i) t ≡ mask_test_bit done t =
          set_bit-keeps done i t (omega arith) in
        let masked : mask_test_bit a.mask t ≡ test q =
          ap (λ x. mask_test_bit x t) m
          ∙ mark_equal-at test i (p ∷ ps) (mask_set_bit mask_zero i) (suc k) t q e (omega arith)
          ∙ ap (λ b. test q || b) own
          ∙ ||-false (test q) in
        let marked : mask_test_bit (mark_equal test i (p ∷ ps) (mask_set_bit done i)) t
            ≡ (test q || mask_test_bit done t) =
          mark_equal-at test i (p ∷ ps) (mask_set_bit done i) (suc k) t q e (omega arith)
          ∙ ap (λ b. test q || b) before in
        rw (marked, attr_at-append select attrs a t, masked, s)
          (join_group (Good q) (test q) (mask_test_bit done t) (attr_at select attrs t) v (good q)
            (g (suc k) t q e (omega arith)))

    -- The attribute of entry i itself.
    pub group_self :
        (a : LineConfigAttribute) (v : ℕ)
        → mask_test_bit done i ≡ false
        → select a.attr ≡ some v
        → a.mask ≡ mark_equal test i (p ∷ ps) (mask_set_bit mask_zero i)
        → attr_at select (attrs ++ a ∷ []) i ≡ some v
    group_self a v d s m =
        let none_yet : attr_at select attrs i ≡ none = (g zero i p refl (omega arith)).1 d in
        let masked : mask_test_bit a.mask i ≡ true =
          ap (λ x. mask_test_bit x i) m
          ∙ mark_equal-at test i (p ∷ ps) (mask_set_bit mask_zero i) zero i p refl (omega arith)
          ∙ ap (λ b. test p || b) (mask_test_bit-set_bit mask_zero i i)
          ∙ ground arith in
        rw (attr_at-append select attrs a i, none_yet, masked, s) refl

-- The attribute of a round is for no line before entry i.
pub append-below :
    (select : LineAttribute → Option ℕ) (test : PerLineConfig → Bool) (i : ℕ)
    (ps : List PerLineConfig) (attrs : List LineConfigAttribute) (a : LineConfigAttribute) (t : ℕ)
    → a.mask ≡ mark_equal test i ps (mask_set_bit mask_zero i)
    → t < i
    → attr_at select (attrs ++ a ∷ []) t ≡ attr_at select attrs t
append-below select test i ps attrs a t m b =
    let masked : mask_test_bit a.mask t ≡ false =
      ap (λ x. mask_test_bit x t) m
      ∙ mark_equal-below test i ps (mask_set_bit mask_zero i) t b
      ∙ set_bit-keeps mask_zero i t (omega arith)
      ∙ mask_test_bit-zero t in
    rw (attr_at-append select attrs a t, masked) (or_else-none (attr_at select attrs t))
  where
    or_else-none : (o : Option ℕ) → or_else o none ≡ o
    or_else-none none = refl
    or_else-none (some v) = refl

-- An attribute of another kind changes nothing for a kind.
pub append-other :
    (select : LineAttribute → Option ℕ) (attrs : List LineConfigAttribute) (a : LineConfigAttribute)
    (t : ℕ)
    → select a.attr ≡ none
    → attr_at select (attrs ++ a ∷ []) t ≡ attr_at select attrs t
append-other select attrs a t s = ground (arith, attr_at-append select attrs a t)

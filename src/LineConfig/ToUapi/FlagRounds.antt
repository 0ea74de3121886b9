-- ===== src/LineConfig/ToUapi/FlagRounds.antt =====
-- One round of set_flags once the flags of the request are taken.
use libgpiod.Prelude.{
  ℕ, zero, suc, ◌≤◌, ◌<◌, ◌≡◌, ◌≢◌, ◌⊎◌, refl, ap, inl, inr, true, false, Option, none, List, [],
  ◌∷◌, ◌++◌, length, length-append, ok, arith,
}
use libgpiod.Mask.{mask_zero, mask_test_bit, mask_set_bit}
use libgpiod.Uapi.{LineAttribute, LineConfigAttribute, attr_flags, gpio_v2_line_num_attrs_max}
use libgpiod.LineConfig.{PerLineConfig}
use libgpiod.LineConfig.Flags.{make_kernel_flags}
use libgpiod.LineConfig.Flags.Laws.{make_kernel_flags-settings_equal}
use libgpiod.LineConfig.ToUapi.{FlagsState, mark_equal, same_settings, flags_round}
use libgpiod.LineConfig.ToUapi.Effective.{attr_at, value_or, select_flags}
use libgpiod.LineConfig.ToUapi.Groups.{
  Grouped, skip-Grouped, group-Grouped, group_self, append-below, append-other,
}

abbrev pub kernel_flags : PerLineConfig → ℕ
kernel_flags q = make_kernel_flags q.node.settings

-- What the kernel is to see for an entry, where `flags` are those of the whole request.
abbrev pub Good : ℕ → PerLineConfig → Option ℕ → Type 0
Good flags q o = value_or o flags ≡ kernel_flags q

abbrev pub round_attr : ℕ → PerLineConfig → List PerLineConfig → LineConfigAttribute
round_attr i p ps = record {
  attr = attr_flags (kernel_flags p);
  mask = mark_equal (same_settings p) i (p ∷ ps) (mask_set_bit mask_zero i);
}

-- The two ways through a round after the flags of the request are taken.
abbrev pub Round : ℕ → PerLineConfig → List PerLineConfig → FlagsState → FlagsState → Type 0
Round i p ps s t =
    ((mask_test_bit s.done i ≡ true) × (t ≡ s))
    ⊎ ((mask_test_bit s.done i ≡ false)
        × (length s.attrs ≢ gpio_v2_line_num_attrs_max)
        × (t ≡ record s {
          done = mark_equal (same_settings p) i (p ∷ ps) (mask_set_bit s.done i);
          attrs = s.attrs ++ round_attr i p ps ∷ [];
        }))

pub flags_round-Round :
    (i : ℕ) (p : PerLineConfig) (ps : List PerLineConfig) (s t : FlagsState)
    → s.globals_taken ≡ true
    → flags_round i p ps s ≡ ok t
    → Round i p ps s t
unfolding flags_round
flags_round-Round i p ps s t g h = ground arith

-- Entries with equal settings have equal flags.
pub mates-flags : (p q : PerLineConfig) → same_settings p q ≡ true → kernel_flags p ≡ kernel_flags q
mates-flags p q m = make_kernel_flags-settings_equal p.node.settings q.node.settings m

module _ (flags : ℕ) (i : ℕ) (p : PerLineConfig) (ps : List PerLineConfig) (s t : FlagsState) where
  pub Round-fixed :
      s.globals_taken ≡ true
      → s.flags ≡ flags
      → Round i p ps s t
      → (t.globals_taken ≡ true) × (t.flags ≡ flags)
  Round-fixed g f (inl (d, e)) = rw e (g, f)
  Round-fixed g f (inr (d, l, e)) = rw e (g, f)

  pub Round-below :
      (select : LineAttribute → Option ℕ) (n : ℕ)
      → n < i
      → Round i p ps s t
      → attr_at select t.attrs n ≡ attr_at select s.attrs n
  Round-below select n b (inl (d, e)) = rw e
  Round-below select n b (inr (d, l, e)) =
      rw e (append-below select (same_settings p) i (p ∷ ps) s.attrs (round_attr i p ps) n refl b)

  pub Round-Grouped :
      Grouped select_flags (Good flags) i (p ∷ ps) s.done s.attrs
      → Round i p ps s t
      → Grouped select_flags (Good flags) (suc i) ps t.done t.attrs
  Round-Grouped g (inl (d, e)) =
      rw e (skip-Grouped select_flags (Good flags) i p ps s.done s.attrs g)
  Round-Grouped g (inr (d, l, e)) = rw e (
      group-Grouped select_flags (Good flags) i p ps s.done s.attrs (same_settings p) g
        (round_attr i p ps) (kernel_flags p) refl refl (mates-flags p))

  pub Round-self :
      Grouped select_flags (Good flags) i (p ∷ ps) s.done s.attrs
      → Round i p ps s t
      → Good flags p (attr_at select_flags t.attrs i)
  Round-self g (inl (d, e)) = rw e ((g zero i p refl (omega arith)).0 d)
  Round-self g (inr (d, l, e)) = rw e (
      ap (λ o. value_or o flags)
        (group_self select_flags (Good flags) i p ps s.done s.attrs (same_settings p) g
          (round_attr i p ps) (kernel_flags p) d refl refl))

  pub Round-others :
      (select : LineAttribute → Option ℕ) (n : ℕ)
      → ((d : ℕ) → select (attr_flags d) ≡ none)
      → Round i p ps s t
      → attr_at select t.attrs n ≡ attr_at select s.attrs n
  Round-others select n o (inl (d, e)) = rw e
  Round-others select n o (inr (d, l, e)) =
      rw e (append-other select s.attrs (round_attr i p ps) n (o (kernel_flags p)))

  pub Round-length :
      length s.attrs ≤ gpio_v2_line_num_attrs_max
      → Round i p ps s t
      → length t.attrs ≤ gpio_v2_line_num_attrs_max
  Round-length b (inl (d, e)) = rw e b
  Round-length b (inr (d, l, e)) =
      rw e (omega (arith, length-append s.attrs (round_attr i p ps ∷ [])))

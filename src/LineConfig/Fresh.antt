-- ===== src/LineConfig/Fresh.antt =====
-- A config that is made from nothing: settings for some offsets, then a value for each.
use libgpiod.Prelude.{
  ℕ, ◌≤◌, ◌<◌, ◌==◌, ltb, ◌≡◌, refl, ◌∙◌, ap, Bool, true, false, not, ◌&&◌, ◌||◌, some, List, [],
  ◌∷◌, ◌++◌, map, length, ok, arith,
}
use mathlib.Core.List.{append_assoc}
use libgpiod.Enums.{LineValue}
use libgpiod.LineSettings.{LineSettings}
use libgpiod.LineConfig.{
  PerLineConfig, LineConfig, config_empty, find_config, write_config, assign_node,
  add_line_settings, set_output_values, lines_max,
}
use libgpiod.LineConfig.Invariant.{all_values, store_values_lem}
use libgpiod.LineConfig.Lookup.{contains, add_line_settings_taken}

abbrev pub entry : LineSettings → ℕ → PerLineConfig
entry s o = record { offset = o; node = record { settings = s } }

-- The config with these settings for the offsets, and the values.
abbrev pub fresh_config : LineSettings → List ℕ → List LineValue → LineConfig
fresh_config s os values = record {
  line_configs = map (entry s) os;
  output_values = values;
  sref_list = record { settings = s } ∷ [];
}

abbrev pub distinct : List ℕ → Bool
distinct [] = true
distinct (o ∷ os) = not (contains os o) && distinct os

abbrev has : List PerLineConfig → ℕ → Bool
has [] o = false
has (p ∷ ps) o = (o == p.offset) || has ps o

-- The offsets are distinct, and none has an entry.
abbrev all_new : List PerLineConfig → List ℕ → Bool
all_new ps [] = true
all_new ps (o ∷ os) = not (has ps o) && not (contains os o) && all_new ps os

write_config-new :
    (ps : List PerLineConfig) (p : PerLineConfig)
    → has ps p.offset ≡ false
    → write_config ps (find_config ps p.offset) p ≡ ps ++ p ∷ []
unfolding find_config write_config
write_config-new [] p h = refl
write_config-new (q ∷ ps) p h =
    let e : (p.offset == q.offset) ≡ false = ground arith in
    rw (e, find_config) (ap (λ qs. q ∷ qs) (write_config-new ps p (ground arith)))

has-snoc :
    (ps : List PerLineConfig) (p : PerLineConfig) (o : ℕ)
    → has (ps ++ p ∷ []) o ≡ (has ps o || (o == p.offset))
has-snoc [] p o = ground arith
has-snoc (q ∷ ps) p o = ground (arith, has-snoc ps p o)

all_new-snoc :
    (ps : List PerLineConfig) (p : PerLineConfig) (os : List ℕ)
    → all_new ps os ≡ true
    → contains os p.offset ≡ false
    → all_new (ps ++ p ∷ []) os ≡ true
all_new-snoc ps p [] h c = refl
all_new-snoc ps p (o ∷ os) h c = ground (arith, has-snoc ps p o, all_new-snoc ps p os)

assign_node-new :
    (s : LineSettings) (ps : List PerLineConfig) (os : List ℕ)
    → all_new ps os ≡ true
    → assign_node ps (record { settings = s }) os ≡ ps ++ map (entry s) os
unfolding assign_node
assign_node-new s [] [] h = refl
assign_node-new s (p ∷ ps) [] h = ap (λ qs. p ∷ qs) (assign_node-new s ps [] refl)
assign_node-new s ps (o ∷ os) h =
    let e : write_config ps (find_config ps o) (entry s o) ≡ ps ++ entry s o ∷ [] =
      write_config-new ps (entry s o) (ground arith) in
    rw (e, assign_node)
      (assign_node-new s (ps ++ entry s o ∷ []) os
          (all_new-snoc ps (entry s o) os (ground arith) (ground arith))
        ∙ append_assoc ps (entry s o ∷ []) (map (entry s) os))

all_new-nil : (os : List ℕ) → distinct os ≡ true → all_new [] os ≡ true
all_new-nil [] h = refl
all_new-nil (o ∷ os) h = ground (arith, all_new-nil os)

-- Settings for distinct offsets, at least one and at most 64, are taken as one entry each.
pub add_line_settings-fresh :
    (s : LineSettings) (os : List ℕ)
    → 0 < length os
    → length os ≤ lines_max
    → distinct os ≡ true
    → add_line_settings config_empty (some os) (some s) true true ≡ (fresh_config s os [], ok tt)
add_line_settings-fresh s os h k d =
    add_line_settings_taken config_empty os (some s) h (omega arith)
    ∙ rw (assign_node-new s [] os (all_new-nil os d)) refl

pub set_output_values-fresh :
    (s : LineSettings) (os : List ℕ) (values : List LineValue)
    → 0 < length values
    → length values ≤ lines_max
    → all_values values ≡ true
    → set_output_values (fresh_config s os []) (some values) ≡ (fresh_config s os values, ok tt)
unfolding set_output_values
set_output_values-fresh s os values h k a =
    let e : (length values == 0) || ltb lines_max (length values) ≡ false = ground arith in
    rw (e, store_values_lem values, a) refl

-- ===== src/LineConfig/Lookup.antt =====
-- What gpiod_line_config_get_line_settings finds after the other calls.
use libgpiod.Prelude.{
  ℕ, zero, suc, ◌+◌, ◌≤◌, ◌<◌, ◌==◌, ltb, ◌≡◌, refl, Bool, true, false, if◌then◌else◌, ◌||◌, Option,
  none, some, List, [], ◌∷◌, length, get_elem?, Result, Errno, ok, err, enoent, arith, Bool-cases,
  All, ap, inl, inr, ◌∙◌,
}
use libgpiod.Enums.{LineValue}
use libgpiod.LineSettings.{LineSettings, settings_reset}
use libgpiod.LineSettings.Laws.{is_value}
use libgpiod.LineConfig.Invariant.{all_values, all_values-All, store_values_lem}
use libgpiod.LineConfig.{
  SettingsNode, PerLineConfig, LineConfig, find_config, write_config, assign_node, num_configs,
  link_node, add_line_settings, get_from, get_line_settings, override_output_value,
  set_output_values, lines_max,
}

-- The first entry for an offset.
abbrev pub config_for : List PerLineConfig → ℕ → Option SettingsNode
config_for [] o = none
config_for (p ∷ ps) o = if p.offset == o then some p.node else config_for ps o

abbrev pub contains : List ℕ → ℕ → Bool
contains [] o = false
contains (x ∷ xs) o = (x == o) || contains xs o

config_for-write_config :
    (ps : List PerLineConfig) (p : PerLineConfig) (o : ℕ)
    → config_for (write_config ps (find_config ps p.offset) p) o
      ≡ (if p.offset == o then some p.node else config_for ps o)
unfolding write_config find_config
config_for-write_config [] p o = refl
config_for-write_config (q ∷ qs) p o = elim (Bool-cases (p.offset == q.offset)) [
  | inl e ↦ rw (e, write_config) (ground arith)
  | inr e ↦ rw (e, write_config) (ground (arith, config_for-write_config qs p o))
]

pub config_for-assign_node :
    (ps : List PerLineConfig) (node : SettingsNode) (os : List ℕ) (o : ℕ)
    → config_for (assign_node ps node os) o ≡ (if contains os o then some node else config_for ps o)
unfolding assign_node
config_for-assign_node ps node [] o = refl
config_for-assign_node ps node (x ∷ os) o =
    let p : PerLineConfig = record { offset = x; node = node } in
    ground (
      arith,
      config_for-assign_node (write_config ps (find_config ps x) p) node os o,
      config_for-write_config ps p o,
    )

abbrev pub found : Option SettingsNode → Result LineSettings
found none = err enoent
found (some n) = ok n.settings

-- Without global values the loop is a lookup.
get_from-config_for :
    (ps : List PerLineConfig) (i o : ℕ) → get_from true [] ps i o ≡ found (config_for ps o)
unfolding get_from override_output_value
get_from-config_for [] i o = refl
get_from-config_for (p ∷ ps) i o = ground (arith, get_from-config_for ps (suc i) o)

abbrev pub given : Option LineSettings → LineSettings
given none = settings_reset
given (some s) = s

-- Where memory suffices, a non-empty list of offsets that fits is taken.
pub add_line_settings_taken :
    (c : LineConfig) (os : List ℕ) (s : Option LineSettings)
    → 0 < length os
    → num_configs c + length os ≤ lines_max
    → add_line_settings c (some os) s true true ≡ (
      record c {
        line_configs = assign_node c.line_configs (record { settings = given s }) os;
        sref_list = record { settings = given s } ∷ c.sref_list;
      },
      ok tt,
    )
unfolding add_line_settings link_node
add_line_settings_taken c os none h k = ground arith
add_line_settings_taken c os (some s) h k = ground arith

get_line_settings-config_for :
    (c : LineConfig) (o : ℕ)
    → c.output_values ≡ []
    → get_line_settings c o true ≡ found (config_for c.line_configs o)
unfolding get_line_settings
get_line_settings-config_for c o g = rw g (get_from-config_for c.line_configs 0 o)

-- Where no global values are set and memory suffices, adding settings for a non-empty list of
-- offsets that fits succeeds, and makes exactly these offsets answer with the settings given
-- (defaults for NULL); every other offset answers as before.
pub get_line_settings-add_line_settings :
    (c : LineConfig) (os : List ℕ) (s : Option LineSettings) (o : ℕ)
    → c.output_values ≡ []
    → 0 < length os
    → num_configs c + length os ≤ lines_max
    → ((add_line_settings c (some os) s true true).1 ≡ ok tt)
      × (get_line_settings (add_line_settings c (some os) s true true).0 o true
          ≡ (if contains os o then ok (given s) else get_line_settings c o true))
get_line_settings-add_line_settings c os s o g h k =
    rw (add_line_settings_taken c os s h k) (refl, looked_up)
  where
    after : LineConfig
    after = record c {
      line_configs = assign_node c.line_configs (record { settings = given s }) os;
      sref_list = record { settings = given s } ∷ c.sref_list;
    }

    looked_up :
        get_line_settings after o true
        ≡ (if contains os o then ok (given s) else get_line_settings c o true)
    looked_up = ground (
      arith,
      get_line_settings-config_for after o g,
      get_line_settings-config_for c o g,
      config_for-assign_node c.line_configs (record { settings = given s }) os o,
    )

-- A call that fails leaves the config as it was.
pub add_line_settings_failed :
    (c : LineConfig) (os : Option (List ℕ)) (s : Option LineSettings) (m n : Bool) {e : Errno}
    → (add_line_settings c os s m n).1 ≡ err e
    → (add_line_settings c os s m n).0 ≡ c
unfolding add_line_settings link_node
add_line_settings_failed c none s m n h = refl
add_line_settings_failed c (some os) none m n h = ground arith
add_line_settings_failed c (some os) (some s) m n h = ground arith

abbrev pub with_value : LineSettings → Option LineValue → LineSettings
with_value s none = s
with_value s (some v) = record s { output_value = v }

abbrev pub answer : Option SettingsNode → Option LineValue → Result LineSettings
answer none v = err enoent
answer (some n) v = ok (with_value n.settings v)

override_output_value_lem :
    (s : LineSettings) (vs : List LineValue) (i : ℕ)
    → All (λ v. is_value v ≡ true) vs
    → override_output_value s (get_elem? vs i) ≡ ok (with_value s (get_elem? vs i))
unfolding override_output_value
override_output_value_lem s [] i a = refl
override_output_value_lem s (v ∷ vs) zero a = ground (arith, a.0)
override_output_value_lem s (v ∷ vs) (suc i) a = override_output_value_lem s vs i a.1

get_from-answer :
    (vs : List LineValue) (ps : List PerLineConfig) (i o : ℕ)
    → All (λ v. is_value v ≡ true) vs
    → get_from true vs ps i o ≡ answer (config_for ps o) (get_elem? vs (i + find_config ps o))
unfolding get_from find_config
get_from-answer vs [] i o a = refl
get_from-answer vs (p ∷ ps) i o a = elim (Bool-cases (o == p.offset)) [
  | inl e ↦
      let e' : (p.offset == o) ≡ true = ground arith in
      let z : i + 0 ≡ i = omega arith in
      rw (e, e', z, find_config) (override_output_value_lem p.node.settings vs i a)
  | inr e ↦
      let e' : (p.offset == o) ≡ false = ground arith in
      let z : i + suc (find_config ps o) ≡ suc i + find_config ps o = omega arith in
      rw (e, e', z, find_config) (get_from-answer vs ps (suc i) o a)
]

-- With memory for the copy, the settings of a configured offset are those of its node, with the
-- output value replaced by the global value at the entry's index where one is set; an offset
-- without an entry is answered by ENOENT. The global values are accepted ones.
pub get_line_settings-answer :
    (c : LineConfig) (o : ℕ)
    → All (λ v. is_value v ≡ true) c.output_values
    → get_line_settings c o true
      ≡ answer
          (config_for c.line_configs o)
          (get_elem? c.output_values (find_config c.line_configs o))
unfolding get_line_settings
get_line_settings-answer c o a =
    let z : 0 + find_config c.line_configs o ≡ find_config c.line_configs o = omega arith in
    get_from-answer c.output_values c.line_configs 0 o a
    ∙ ap (λ k. answer (config_for c.line_configs o) (get_elem? c.output_values k)) z

-- Once a non-empty list of at most 64 valid global values is set and memory suffices, the entry of
-- each configured offset answers with the value at its index; entries beyond the values keep their
-- own.
pub get_line_settings-set_output_values :
    (c : LineConfig) (vs : List LineValue) (o : ℕ)
    → 0 < length vs
    → length vs ≤ lines_max
    → all_values vs ≡ true
    → get_line_settings (set_output_values c (some vs)).0 o true
      ≡ answer (config_for c.line_configs o) (get_elem? vs (find_config c.line_configs o))
unfolding set_output_values
get_line_settings-set_output_values c vs o h k a =
    let e : (length vs == 0) || ltb lines_max (length vs) ≡ false = ground arith in
    rw (e, store_values_lem vs, a)
      (get_line_settings-answer (record c { output_values = vs }) o (all_values-All vs a))

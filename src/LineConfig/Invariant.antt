-- ===== src/LineConfig/Invariant.antt =====
-- The well-formedness of a line config and that every operation of lib/line-config.c keeps it.
use libgpiod.Prelude.{
  ℕ, zero, suc, ◌+◌, ◌%◌, ◌^◌, ◌≤◌, ◌<◌, ◌==◌, ltb, ◌≡◌, ◌≢◌, ◌⊎◌, inl, inr, refl, Bool, true,
  false, if◌then◌else◌, Option, none, some, List, [], ◌∷◌, length, All, ok, err, enomem, einval,
  ◌&&◌, ◌||◌, arith, Bool-cases, ==→eq, sym, subst,
}
use libgpiod.Enums.{LineValue}
use libgpiod.LineSettings.{LineSettings}
use libgpiod.LineSettings.Laws.{IsValid as SettingsValid, is_value, settings_reset-IsValid}
use libgpiod.LineConfig.{
  SettingsNode, PerLineConfig, LineConfig, config_reset, find_config, write_config, assign_node,
  node_settings, link_node, add_settings, add_line_settings, store_values, set_output_values,
  num_configs, lines_max,
}

-- No two entries are for the same offset.
abbrev pub Distinct : List PerLineConfig → Type 0
Distinct [] = Unit {0}
Distinct (p ∷ ps) = All (λ q. q.offset ≢ p.offset) ps × Distinct ps

abbrev pub Linked : SettingsNode → List SettingsNode → Type 0
Linked n [] = ⊥
Linked n (m ∷ ms) = (n ≡ m) ⊎ Linked n ms

abbrev pub IsSound : SettingsNode → Type 0
IsSound n = SettingsValid n.settings

pub record IsValid (c : LineConfig) : Type 0 where
  pub bounded : num_configs c ≤ lines_max
  pub distinct : Distinct c.line_configs
  pub owned : All (λ p. Linked p.node c.sref_list) c.line_configs  -- no entry points to a freed node
  pub sound : All IsSound c.sref_list
  pub values_bounded : length c.output_values ≤ lines_max
  pub values_ok : All (λ v. is_value v ≡ true) c.output_values

pub length-write_config :
    (ps : List PerLineConfig) (i : ℕ) (p : PerLineConfig)
    → length (write_config ps i p) ≤ suc (length ps)
unfolding write_config
length-write_config [] i p = omega arith
length-write_config (q ∷ qs) zero p = omega arith
length-write_config (q ∷ qs) (suc i) p = omega (arith, length-write_config qs i p)

length-assign_node :
    (ps : List PerLineConfig) (node : SettingsNode) (os : List ℕ)
    → length (assign_node ps node os) ≤ length ps + length os
unfolding assign_node
length-assign_node ps node [] = omega arith
length-assign_node ps node (o ∷ os) = omega (
  arith,
  length-assign_node (write_config ps (find_config ps o) (record { offset = o; node = node })) node
      os,
  length-write_config ps (find_config ps o) (record { offset = o; node = node }),
)

-- A write to the entry of its own offset keeps what holds of every offset.
write_config-All :
    (P : ℕ → Type 0) (ps : List PerLineConfig) (p : PerLineConfig)
    → P p.offset
    → All (λ q. P q.offset) ps
    → All (λ q. P q.offset) (write_config ps (find_config ps p.offset) p)
unfolding write_config find_config
write_config-All P [] p h a = (h, tt)
write_config-All P (q ∷ qs) p h a = elim (Bool-cases (p.offset == q.offset)) [
  | inl e ↦ rw (e, write_config) (h, a.1)
  | inr e ↦ rw (e, write_config) (a.0, write_config-All P qs p h a.1)
]

write_config-Distinct :
    (ps : List PerLineConfig) (p : PerLineConfig)
    → Distinct ps
    → Distinct (write_config ps (find_config ps p.offset) p)
unfolding write_config find_config
write_config-Distinct [] p d = (tt, tt)
write_config-Distinct (q ∷ qs) p d = elim (Bool-cases (p.offset == q.offset)) [
  | inl e ↦
      rw (e, write_config) (subst (λ o. All (λ r. r.offset ≢ o) qs) (sym (==→eq _ _ e)) d.0, d.1)
  | inr e ↦
      rw (e, write_config)
        (
          write_config-All (λ o. o ≢ q.offset) qs p (ground arith) d.0,
          write_config-Distinct qs p d.1,
        )
]

Linked-All :
    (ps : List PerLineConfig) (n : SettingsNode) (ns : List SettingsNode)
    → All (λ p. Linked p.node ns) ps
    → All (λ p. Linked p.node (n ∷ ns)) ps
Linked-All [] n ns a = tt
Linked-All (p ∷ ps) n ns a = (inr a.0, Linked-All ps n ns a.1)

-- The write of an entry whose node is linked.
write_config-Linked :
    (ns : List SettingsNode) (ps : List PerLineConfig) (i : ℕ) (p : PerLineConfig)
    → Linked p.node ns
    → All (λ q. Linked q.node ns) ps
    → All (λ q. Linked q.node ns) (write_config ps i p)
unfolding write_config
write_config-Linked ns [] i p h a = (h, tt)
write_config-Linked ns (q ∷ qs) zero p h a = (h, a.1)
write_config-Linked ns (q ∷ qs) (suc i) p h a = (a.0, write_config-Linked ns qs i p h a.1)

assign_node-Distinct :
    (ps : List PerLineConfig) (node : SettingsNode) (os : List ℕ)
    → Distinct ps
    → Distinct (assign_node ps node os)
unfolding assign_node
assign_node-Distinct ps node [] d = d
assign_node-Distinct ps node (o ∷ os) d =
    let p : PerLineConfig = record { offset = o; node = node } in
    assign_node-Distinct (write_config ps (find_config ps o) p) node os
      (write_config-Distinct ps p d)

assign_node-Linked :
    (ns : List SettingsNode) (ps : List PerLineConfig) (node : SettingsNode) (os : List ℕ)
    → Linked node ns
    → All (λ q. Linked q.node ns) ps
    → All (λ q. Linked q.node ns) (assign_node ps node os)
unfolding assign_node
assign_node-Linked ns ps node [] h a = a
assign_node-Linked ns ps node (o ∷ os) h a =
    let p : PerLineConfig = record { offset = o; node = node } in
    assign_node-Linked ns (write_config ps (find_config ps o) p) node os h
      (write_config-Linked ns ps (find_config ps o) p h a)

-- Settings handed in by a caller come from the setters.
abbrev pub GivenValid : Option LineSettings → Type 0
GivenValid none = Unit {0}
GivenValid (some s) = SettingsValid s

link_node-IsValid :
    (c : LineConfig) (os : List ℕ) (s : Option LineSettings)
    → num_configs c + length os ≤ lines_max
    → GivenValid s
    → IsValid c
    → IsValid (link_node c os s).0
unfolding link_node
link_node-IsValid c os none h g v = v
link_node-IsValid c os (some s) h g v = record {
  bounded = omega (arith, length-assign_node c.line_configs (record { settings = s }) os);
  distinct = assign_node-Distinct c.line_configs (record { settings = s }) os v.distinct;
  owned =
      assign_node-Linked (record { settings = s } ∷ c.sref_list) c.line_configs
        (record { settings = s }) os (inl refl)
        (Linked-All c.line_configs (record { settings = s }) c.sref_list v.owned);
  sound = (g, v.sound);
  values_bounded = v.values_bounded;
  values_ok = v.values_ok;
}

node_settings-GivenValid :
    (memory : Bool) (s : Option LineSettings) → GivenValid s → GivenValid (node_settings memory s)
node_settings-GivenValid true none g = settings_reset-IsValid
node_settings-GivenValid false none g = tt
node_settings-GivenValid true (some s) g = g
node_settings-GivenValid false (some s) g = tt

add_settings-IsValid :
    (c : LineConfig) (os : List ℕ) (s : Option LineSettings) (m n : Bool)
    → length os < 2 ^ 62
    → GivenValid s
    → IsValid c
    → IsValid (add_settings c os s m n).0
unfolding add_settings
add_settings-IsValid c os s m n h g v = elim (Bool-cases (length os == 0)) [
  | inl e ↦ rw e v
  | inr e ↦ elim (Bool-cases (ltb lines_max ((num_configs c + length os) % 2 ^ 64))) [
    | inl f ↦ rw (e, f) v
    | inr f ↦ rw (e, f) (linked m (ground (arith, v.bounded)))
  ]
]
  where
    linked :
        (m : Bool)
        → num_configs c + length os ≤ lines_max
        → IsValid (if m then link_node c os (node_settings n s) else (c, err enomem)).0
    linked true b = link_node-IsValid c os (node_settings n s) b (node_settings-GivenValid n s g) v
    linked false b = v

abbrev pub GivenShort : Option (List ℕ) → Type 0
GivenShort none = Unit {0}
GivenShort (some os) = length os < 2 ^ 62

-- Adding settings keeps a config well formed, on every branch: at most 64 entries, one for each
-- offset, and each pointing to a node that the config owns. The settings given are valid, and the
-- array of offsets, of 4-byte integers, fits the address space.
pub add_line_settings-IsValid :
    (c : LineConfig) (os : Option (List ℕ)) (s : Option LineSettings) (m n : Bool)
    → GivenShort os
    → GivenValid s
    → IsValid c
    → IsValid (add_line_settings c os s m n).0
unfolding add_line_settings
add_line_settings-IsValid c none s m n h g v = v
add_line_settings-IsValid c (some os) s m n h g v = add_settings-IsValid c os s m n h g v

abbrev pub all_values : List LineValue → Bool
all_values [] = true
all_values (v ∷ vs) = is_value v && all_values vs

pub store_values_lem :
    (vs : List LineValue) → store_values vs ≡ (if all_values vs then ok vs else err einval)
unfolding store_values
store_values_lem [] = refl
store_values_lem (v ∷ vs) = ground (arith, store_values_lem vs)

pub all_values-All : (vs : List LineValue) → all_values vs ≡ true → All (λ v. is_value v ≡ true) vs
all_values-All [] h = tt
all_values-All (v ∷ vs) h = (ground arith, all_values-All vs (ground arith))

-- Setting global output values keeps a config well formed, whatever the values.
pub set_output_values-IsValid :
    (c : LineConfig) (vs : Option (List LineValue)) → IsValid c → IsValid (set_output_values c vs).0
unfolding set_output_values
set_output_values-IsValid c none v = v
set_output_values-IsValid c (some vs) v =
    elim (Bool-cases ((length vs == 0) || ltb lines_max (length vs))) [
      | inl e ↦ rw e v
      | inr e ↦ elim (Bool-cases (all_values vs)) [
        | inl f ↦
            rw (e, store_values_lem vs, f)
              (record {
                bounded = v.bounded;
                distinct = v.distinct;
                owned = v.owned;
                sound = v.sound;
                values_bounded = ground arith;
                values_ok = all_values-All vs f;
              })
        | inr f ↦
            rw (e, store_values_lem vs, f)
              (record {
                bounded = v.bounded;
                distinct = v.distinct;
                owned = v.owned;
                sound = v.sound;
                values_bounded = omega arith;
                values_ok = tt;
              })
      ]
    ]

pub config_reset-IsValid : (c : LineConfig) → IsValid (config_reset c).0
unfolding config_reset
config_reset-IsValid c = omega arith

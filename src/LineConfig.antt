-- ===== src/LineConfig.antt =====
-- lib/line-config.c without the translation to the kernel's structures (LineConfig/ToUapi.antt).
-- `line_configs` holds the first `num_configs` entries of the array, `output_values` the first
-- `num_output_values`. A node is allocated once, is never written again and lives until reset or
-- free, so a pointer to a node is the node; `sref_list` is what free_refs walks.
pub mod Invariant
pub mod Lookup
pub mod Fresh
pub mod Flags
pub mod ToUapi
pub mod Samples
mod Tests
use libgpiod.Prelude.{
  ℕ, zero, suc, ◌+◌, ◌%◌, ◌^◌, ◌==◌, ltb, min, Bool, true, false, if◌then◌else◌, ◌||◌, Option, none,
  some, List, [], ◌∷◌, ◌++◌, map, length, get_elem?, take, Result, ok, err, einval, e2big, enomem,
  enoent, ◌>>=◌,
}
use libgpiod.Enums.{LineValue}
use libgpiod.Uapi.{gpio_v2_lines_max}
use libgpiod.LineSettings.{
  LineSettings, settings_new, settings_copy, checked_output_value, set_output_value,
}

abbrev pub lines_max : ℕ
lines_max = gpio_v2_lines_max

pub record SettingsNode : Type 0 where
  pub settings : LineSettings

pub record PerLineConfig : Type 0 where
  pub offset : ℕ
  pub node : SettingsNode

pub record LineConfig : Type 0 where
  pub line_configs : List PerLineConfig
  pub output_values : List LineValue
  pub sref_list : List SettingsNode

-- `config->num_configs`, and gpiod_line_config_get_num_configured_offsets.
abbrev pub num_configs : LineConfig → ℕ
num_configs c = length c.line_configs

abbrev pub config_empty : LineConfig
config_empty = record { line_configs = []; output_values = []; sref_list = [] }

-- gpiod_line_config_new: `memset(config, 0, …)`.
abbrev pub config_new : Bool → Option LineConfig
config_new true = some config_empty
config_new false = none

-- free_refs: the settings that are freed, in this order.
abbrev pub free_refs : LineConfig → List LineSettings
free_refs c = map (λ n. n.settings) c.sref_list

-- gpiod_line_config_reset: the object after the call and what was freed.
unfoldable pub config_reset : LineConfig → LineConfig × List LineSettings
config_reset c = (config_empty, free_refs c)

-- find_config: the index of the entry for `offset`, or of the next unused one.
pub find_config : List PerLineConfig → ℕ → ℕ
find_config [] offset = 0
find_config (p ∷ ps) offset = if offset == p.offset then 0 else suc (find_config ps offset)

-- The write to the entry that find_config returned: one past the end grows the used part.
pub write_config : List PerLineConfig → ℕ → PerLineConfig → List PerLineConfig
write_config [] i p = p ∷ []
write_config (q ∷ qs) zero p = p ∷ qs
write_config (q ∷ qs) (suc i) p = q ∷ write_config qs i p

-- The loop of gpiod_line_config_add_line_settings over the offsets.
pub assign_node : List PerLineConfig → SettingsNode → List ℕ → List PerLineConfig
unfolding find_config write_config
assign_node ps node [] = ps
assign_node ps node (o ∷ os) =
    assign_node (write_config ps (find_config ps o) (record { offset = o; node = node })) node os

-- The settings of the new node: defaults for NULL, or a copy.
abbrev pub node_settings : Bool → Option LineSettings → Option LineSettings
node_settings memory none = settings_new memory
node_settings memory (some s) = settings_copy memory s

link_node : LineConfig → List ℕ → Option LineSettings → LineConfig × Result (Unit {0})
unfolding assign_node
link_node c offsets none = (c, err enomem)
link_node c offsets (some s) =
    let node : SettingsNode = record { settings = s } in
    (
      record c {
        line_configs = assign_node c.line_configs node offsets;
        sref_list = node ∷ c.sref_list;
      },
      ok tt,
    )

-- gpiod_line_config_add_line_settings; `none` is a NULL pointer, the two Booleans tell whether the
-- node and its settings get memory, and the sum of the counts wraps as a `size_t` does.
add_settings :
    LineConfig → List ℕ → Option LineSettings → Bool → Bool → LineConfig × Result (Unit {0})
unfolding link_node
add_settings c offsets settings node_memory settings_memory =
    if length offsets == 0
    then (c, err einval)
    else if ltb lines_max ((num_configs c + length offsets) % 2 ^ 64)
    then (c, err e2big)
    else if node_memory
    then link_node c offsets (node_settings settings_memory settings)
    else (c, err enomem)

pub add_line_settings :
    LineConfig
    → Option (List ℕ)
    → Option LineSettings
    → Bool
    → Bool
    → LineConfig × Result (Unit {0})
unfolding add_settings
add_line_settings c none settings node_memory settings_memory = (c, err einval)
add_line_settings c (some offsets) settings node_memory settings_memory =
    add_settings c offsets settings node_memory settings_memory

-- The override of the copied settings by the global output value of entry i, where there is one.
pub override_output_value : LineSettings → Option LineValue → Result LineSettings
unfolding set_output_value
override_output_value s none = ok s
override_output_value s (some v) =
    let (s', outcome) = set_output_value s v in elim outcome [ ok _ ↦ ok s' | err e ↦ err e ]

copy_and_override : Option LineSettings → Option LineValue → Result LineSettings
unfolding override_output_value
copy_and_override none v = err enomem
copy_and_override (some s) v = override_output_value s v

-- The loop of gpiod_line_config_get_line_settings at index i.
pub get_from : Bool → List LineValue → List PerLineConfig → ℕ → ℕ → Result LineSettings
unfolding copy_and_override
get_from memory values [] i offset = err enoent
get_from memory values (p ∷ ps) i offset =
    let rest = get_from memory values ps (suc i) offset in
    if p.offset == offset
    then copy_and_override (settings_copy memory p.node.settings) (get_elem? values i)
    else rest

-- gpiod_line_config_get_line_settings
pub get_line_settings : LineConfig → ℕ → Bool → Result LineSettings
unfolding get_from
get_line_settings c offset memory = get_from memory c.output_values c.line_configs 0 offset

-- The loop of gpiod_line_config_set_output_values: the values stored, up to the first bad one.
pub store_values : List LineValue → Result (List LineValue)
unfolding checked_output_value
store_values [] = ok []
store_values (v ∷ vs) =
    let rest = store_values vs in
    let (stored, outcome) = checked_output_value v in
    elim outcome [ ok _ ↦ (rest >>= λ ws. ok (stored ∷ ws)) | err e ↦ err e ]

-- gpiod_line_config_set_output_values; a bad value leaves no global values.
pub set_output_values : LineConfig → Option (List LineValue) → LineConfig × Result (Unit {0})
unfolding store_values
set_output_values c none = (c, err einval)
set_output_values c (some values) =
    if (length values == 0) || ltb lines_max (length values)
    then (c, err einval)
    else elim (store_values values) [
      | ok stored ↦ (record c { output_values = stored }, ok tt)
      | err e ↦ (record c { output_values = [] }, err e)
    ]

-- gpiod_line_config_get_configured_offsets: what is written to a buffer of `max_offsets` entries;
-- its length is the count returned. A NULL buffer is `none`.
pub get_configured_offsets : LineConfig → Option ℕ → List ℕ
get_configured_offsets c none = []
get_configured_offsets c (some max_offsets) =
    take (min (num_configs c) max_offsets) (map (λ p. p.offset) c.line_configs)

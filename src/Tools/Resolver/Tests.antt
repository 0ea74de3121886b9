-- ===== src/Tools/Resolver/Tests.antt =====
-- Runs of the line resolver on a chip whose lines 1 and 2 are both named "b".
use libgpiod.Tools.Resolver.Validate.{same_chip}
use libgpiod.Prelude.Chars.{text}
use libgpiod.LineInfo.{get_name}
use libgpiod.Tools.Numbers.{parse_uint}
use libgpiod.Tools.Resolver.Chips.{has_byte}
use libgpiod.Tools.Strings.{is_digit}
use libgpiod.Tools.Resolver.Chips.{isuint}
use libgpiod.Prelude.{ℕ, ◌≡◌, ◌⊎◌, refl, true, false, some, List, [], ◌∷◌, map, arith}
use libgpiod.Prelude.Chars.{same_bytes, text}
use libgpiod.Enums.{inactive, active}
use libgpiod.Fakes.{fake_kernel, fake_chip, fake_line}
use libgpiod.LineInfo.{LineInfo, described, get_name}
use libgpiod.Chip.{Chip}
use libgpiod.Tools.Strings.{bytes}
use libgpiod.Tools.Exit.{going, died, not_unique, bad_resolution}
use libgpiod.Tools.Resolver.{
  ResolvedLine, LineResolver, line_init, resolver_init, resolve_lines_by_offset, get_line_name,
  set_line_values, get_line_offsets_and_values, resolve_each,
}
use libgpiod.Tools.Resolver.Chips.{chip_path}
use libgpiod.Tools.Resolver.Lookup.{scan_lines}
use libgpiod.Tools.Resolver.Found.{located, count_found, scan_lines-located}
use libgpiod.Tools.Resolver.Validate.{IsResolution, validate_resolution, validate_resolution_lem}
use libgpiod.Tools.Resolver.Values.{
  offsets_on, values_on, get_line_offsets_and_values-set_line_values,
}

abbrev chip : Chip
chip = record { fd = 3; path = b'p' ∷ [] }

abbrev wanted : LineResolver
wanted = record {
  num_found = 0;
  strict = false;
  chips = [];
  lines = line_init true (bytes "b") ∷ line_init true (bytes "z") ∷ [];
}

abbrev infos : ℕ → LineInfo
infos n = described (fake_line n)

-- Two lines of chip 0 and one of chip 1.
abbrev placed : ℕ → ℕ → ResolvedLine
placed chip_num offset = record (line_init true []) {
  resolved = true;
  chip_num = some chip_num;
  offset = offset;
}

abbrev three : List ResolvedLine
three = placed 0 4 ∷ placed 1 4 ∷ placed 0 2 ∷ []

paths :
    (chip_path (bytes "2") ≡ bytes "/dev/gpiochip2")
    × (chip_path (bytes "gpiochip2") ≡ bytes "/dev/gpiochip2")
    × (chip_path (bytes "./x") ≡ bytes "./x")
unfolding chip_path isuint is_digit has_byte
paths = (refl, refl, refl)

initial : resolver_init (bytes "b" ∷ bytes "z" ∷ []) false true ≡ wanted
unfolding resolver_init
initial = refl

in_range_only :
    (resolve_lines_by_offset (resolver_init (bytes "2" ∷ bytes "3" ∷ []) false false) 3).1 ≡ true
unfolding resolve_lines_by_offset resolver_init parse_uint
in_range_only = refl

-- In strict mode a line that is resolved by offset must not have its offset for a name.
own_name :
    resolve_each true 0
      (record (infos 0) { name = bytes "0" })
      0
      (record (line_init false (bytes "0")) { resolved = true; chip_num = some 0 } ∷ [])
    ≡ died (not_unique (bytes "0"))
unfolding resolve_each get_name text same_bytes
own_name = refl

stored : values_on (set_line_values three 0 (active ∷ active ∷ [])) 0 ≡ active ∷ active ∷ []
unfolding set_line_values get_line_offsets_and_values
stored = refl

named :
    get_line_name
      (record (placed 0 1) { info = some (record (infos 1) { name = bytes "b" }) } ∷ [])
      0
      1
    ≡ some (bytes "b")
unfolding get_line_name get_name text
named = refl

scan_lines-located_example :
    (r' : LineResolver) × (used' : _) × (scan_lines fake_kernel 3 1 chip 0 0 wanted false
      ≡ (1, going (r', used')))
    × (r'.lines ≡ map (located 0 0 infos 3 0) wanted.lines)
    × (r'.num_found ≡ count_found r'.lines)
scan_lines-located_example =
    scan_lines-located fake_kernel 3 1 chip fake_chip fake_line 0 0 wanted false
      ((λ w. refl), (λ w offset. refl)) (λ n. refl)
      (record { counted = refl; lines_settled = (refl, (refl, tt)); lenient = refl })

-- The two lines found are the same one.
refused :
    validate_resolution (record wanted { lines = placed 0 4 ∷ placed 0 4 ∷ [] })
    ≡ died bad_resolution
unfolding validate_resolution same_chip
refused = refl

abbrev two_chips : List ResolvedLine
two_chips = placed 0 4 ∷ placed 1 4 ∷ []

validate_resolution_lem_example :
    ((validate_resolution (record wanted { lines = two_chips }) ≡ going tt)
      × IsResolution two_chips)
    ⊎ ((validate_resolution (record wanted { lines = two_chips }) ≡ died bad_resolution)
        × (¬ IsResolution two_chips))
validate_resolution_lem_example = validate_resolution_lem (record wanted { lines = two_chips })

get_line_offsets_and_values-set_line_values_example :
    (values_on (set_line_values three 0 (active ∷ inactive ∷ [])) 0 ≡ active ∷ inactive ∷ [])
    × (offsets_on (set_line_values three 0 (active ∷ inactive ∷ [])) 0 ≡ offsets_on three 0)
    × (get_line_offsets_and_values (set_line_values three 0 (active ∷ inactive ∷ [])) 1
        ≡ get_line_offsets_and_values three 1)
unfolding get_line_offsets_and_values
get_line_offsets_and_values-set_line_values_example =
    get_line_offsets_and_values-set_line_values three 0 1 (active ∷ inactive ∷ []) refl
      (omega arith)

-- ===== src/Tools/Resolver.antt =====
-- The line resolver of tools/tools-common.c: which lines of which chips the names and offsets on the
-- command line stand for. `chips` holds the first `num_chips` entries of the array and `lines` the
-- `num_lines` lines; a chip_num of `none` is -1.
pub mod Chips
pub mod Lookup
pub mod Found
pub mod Validate
pub mod Values
mod Tests
use libgpiod.Prelude.{
  ℕ, zero, suc, ◌+◌, ◌==◌, ltb, leb, Bool, true, false, not, ◌&&◌, if◌then◌else◌, Option, none,
  some, List, [], ◌∷◌, ◌++◌, map, length,
}
use libgpiod.Prelude.Chars.{same_bytes}
use libgpiod.Enums.{LineValue, inactive}
use libgpiod.ChipInfo.{ChipInfo}
use libgpiod.LineInfo.{LineInfo, get_offset, get_name}
use libgpiod.Tools.Numbers.{parse_uint}
use libgpiod.Tools.Exit.{Run, going, died, not_unique, ◌>>=◌}

pub record ResolvedLine : Type 0 where
  pub id : List ℕ
  pub id_as_offset : Option ℕ
  pub resolved : Bool
  pub info : Option LineInfo
  pub chip_num : Option ℕ
  pub offset : ℕ
  pub value : LineValue

pub record ResolvedChip : Type 0 where
  pub info : ChipInfo
  pub path : List ℕ

pub record LineResolver : Type 0 where
  pub num_found : ℕ
  pub strict : Bool
  pub chips : List ResolvedChip
  pub lines : List ResolvedLine

-- `line->chip_num == chip_num`
abbrev pub on_chip : ResolvedLine → ℕ → Bool
on_chip line chip_num = elim line.chip_num [ none ↦ false | some c ↦ c == chip_num ]

-- `name && strcmp(line->id, name) == 0`
abbrev pub is_named : List ℕ → LineInfo → Bool
is_named id info = elim (get_name info) [ none ↦ false | some name ↦ same_bytes id name ]

-- One round of the loop of resolve_line: the line, and how often it was counted as found.
unfoldable pub resolve_one : Bool → ℕ → LineInfo → ℕ → ResolvedLine → Run (ResolvedLine × ℕ)
resolve_one strict num_chips info chip_num line =
    let by_offset = line.resolved && (line.offset == get_offset info) && on_chip line chip_num in
    let noted : ResolvedLine = if by_offset then record line { info = some info } else line in
    let hits : ℕ = if by_offset then 1 else 0 in
    let here : ResolvedLine = record noted {
      offset = get_offset info;
      info = some info;
      chip_num = some num_chips;
      resolved = true;
    } in
    if line.resolved && not strict
    then going (noted, hits)
    else if is_named line.id info
    then (if strict && line.resolved then died (not_unique line.id) else going (here, suc hits))
    else going (noted, hits)

pub resolve_each : Bool → ℕ → LineInfo → ℕ → List ResolvedLine → Run (List ResolvedLine × ℕ)
unfolding resolve_one
resolve_each strict num_chips info chip_num [] = going ([], 0)
resolve_each strict num_chips info chip_num (line ∷ lines) =
    resolve_one strict num_chips info chip_num line >>= λ first.
    resolve_each strict num_chips info chip_num lines >>= λ rest.
    going (first.0 ∷ rest.0, first.1 + rest.1)

-- resolve_line: the resolver, and whether the info was kept.
pub resolve_line : LineResolver → LineInfo → ℕ → Run (LineResolver × Bool)
unfolding resolve_each
resolve_line r info chip_num =
    resolve_each r.strict (length r.chips) info chip_num r.lines >>= λ found.
    going (record r { lines = found.0; num_found = r.num_found + found.1 }, not (found.1 == 0))

-- The test of resolve_lines_by_offset.
abbrev pub in_range : ℕ → ResolvedLine → Bool
in_range num_lines line = elim line.id_as_offset [ none ↦ false | some o ↦ ltb o num_lines ]

abbrev pub place_by_offset : ℕ → ResolvedLine → ResolvedLine
place_by_offset num_lines line = elim line.id_as_offset [
  | none ↦ line
  | some o ↦
      (if ltb o num_lines
        then record line { chip_num = some 0; offset = o; resolved = true }
        else line)
]

abbrev pub any_line : (ResolvedLine → Bool) → List ResolvedLine → Bool
any_line test [] = false
any_line test (line ∷ lines) = if test line then true else any_line test lines

-- resolve_lines_by_offset: the resolver, and whether a line was in range.
unfoldable pub resolve_lines_by_offset : LineResolver → ℕ → LineResolver × Bool
resolve_lines_by_offset r num_lines = (
  record r { lines = map (place_by_offset num_lines) r.lines },
  any_line (in_range num_lines) r.lines,
)

abbrev pub resolve_done : LineResolver → Bool
resolve_done r = not r.strict && leb (length r.lines) r.num_found

-- What resolver_init stores for an argument.
abbrev pub line_init : Bool → List ℕ → ResolvedLine
line_init by_name id = record {
  id = id;
  id_as_offset = if by_name then none else parse_uint id;
  resolved = false;
  info = none;
  chip_num = none;
  offset = 0;
  value = inactive;
}

unfoldable pub resolver_init : List (List ℕ) → Bool → Bool → LineResolver
resolver_init ids strict by_name = record {
  num_found = 0;
  strict = strict;
  chips = [];
  lines = map (line_init by_name) ids;
}

-- get_line_offsets_and_values: the offsets and the values of the lines on a chip.
unfoldable pub get_line_offsets_and_values : List ResolvedLine → ℕ → List (ℕ × LineValue)
get_line_offsets_and_values [] chip_num = []
get_line_offsets_and_values (line ∷ lines) chip_num =
    let rest = get_line_offsets_and_values lines chip_num in
    if on_chip line chip_num then (line.offset, line.value) ∷ rest else rest

-- set_line_values: the next value for each line on the chip. The array has a value for each.
unfoldable pub set_line_values : List ResolvedLine → ℕ → List LineValue → List ResolvedLine
set_line_values [] chip_num values = []
set_line_values (line ∷ lines) chip_num [] = line ∷ lines
set_line_values (line ∷ lines) chip_num (v ∷ values) =
    if on_chip line chip_num
    then record line { value = v } ∷ set_line_values lines chip_num values
    else line ∷ set_line_values lines chip_num (v ∷ values)

-- get_line_name: the name of the first line with an info at the offset.
unfoldable pub get_line_name : List ResolvedLine → ℕ → ℕ → Option (List ℕ)
get_line_name [] chip_num offset = none
get_line_name (line ∷ lines) chip_num offset =
    let rest = get_line_name lines chip_num offset in
    elim line.info [
      | none ↦ rest
      | some info ↦ if (line.offset == offset) && on_chip line chip_num then get_name info else rest
    ]

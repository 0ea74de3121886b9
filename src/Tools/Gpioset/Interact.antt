-- ===== src/Tools/Gpioset/Interact.antt =====
-- The interactive mode of gpioset: interact and the functions that its commands call. readline is
-- the source of the lines, and its history is left out.
pub mod Laws
pub mod Blank
pub mod Completion
use libgpiod.Prelude.{
  ℕ, suc, ◌%◌, ◌^◌, ◌==◌, ltb, leb, Bool, true, false, ◌&&◌, if◌then◌else◌, Option, none, some,
  List, [], ◌∷◌, ◌++◌, length,
}
use libgpiod.Prelude.Chars.{same_bytes}
use libgpiod.Enums.{LineValue}
use libgpiod.Kernel.{Kernel}
use libgpiod.LineRequest.{LineRequest}
use libgpiod.Tools.Strings.{bytes, is_space}
use libgpiod.Tools.Numbers.{parse_period}
use libgpiod.Tools.Resolver.{ResolvedLine}
use libgpiod.Tools.Gpioset.Values.{
  Parsed, parsed, invalid, parse_line_values, print_all_line_values, print_line_values, find_id,
}
use libgpiod.Tools.Gpioset.Words.{split_words, parse_line_ids}
use libgpiod.Tools.Gpioset.Toggle.{toggle_line, toggle_all_lines, apply_values}

-- The change of the first line with an id, where there is one.
unfoldable pub change_first :
    (ResolvedLine → ResolvedLine) → List ResolvedLine → List ℕ → List ResolvedLine
change_first change [] id = []
change_first change (line ∷ lines) id =
    let rest = change_first change lines id in
    if same_bytes id line.id then change line ∷ lines else line ∷ rest

unfoldable pub set_line_values_subset :
    List ResolvedLine → List (List ℕ × LineValue) → List ResolvedLine
unfolding change_first
set_line_values_subset lines [] = lines
set_line_values_subset lines ((id, v) ∷ entries) =
    set_line_values_subset (change_first (λ line. record line { value = v }) lines id) entries

unfoldable pub toggle_lines : List ResolvedLine → List (List ℕ) → List ResolvedLine
unfolding change_first
toggle_lines lines [] = lines
toggle_lines lines (id ∷ ids) = toggle_lines (change_first toggle_line lines id) ids

abbrev pub quoted : List ℕ → List ℕ → List ℕ
quoted message text = message ++ b'\'' ∷ text ++ b'\'' ∷ b'\n' ∷ []

abbrev pub is_found : Option ResolvedLine → Bool
is_found none = false
is_found (some line) = true

-- valid_lines: the answer and what is printed.
unfoldable pub valid_lines : List ResolvedLine → List (List ℕ) → Bool × List ℕ
valid_lines lines [] = (true, [])
valid_lines lines (id ∷ ids) =
    let (valid, text) = valid_lines lines ids in
    if is_found (find_id lines id)
    then (valid, text)
    else (false, quoted (bytes "unknown line: ") id ++ text)

-- What a command does to the lines, whether their values are then applied, and what it prints.
pub record Change : Type 0 where
  pub lines : List ResolvedLine
  pub applied : Bool
  pub printed : List ℕ

-- "get" with its arguments.
unfoldable pub get_command : List ResolvedLine → Bool → List (List ℕ) → List ℕ
unfolding parse_line_ids valid_lines print_all_line_values print_line_values
get_command lines unquoted [] = print_all_line_values lines unquoted
get_command lines unquoted (word ∷ words) = elim (parse_line_ids (word ∷ words)) [
  | invalid text ↦ quoted (bytes "invalid line id: ") text
  | parsed ids ↦
      let (valid, text) = valid_lines lines ids in
      if valid then print_line_values lines ids unquoted else text
]

abbrev pub ids_of : List (List ℕ × LineValue) → List (List ℕ)
ids_of [] = []
ids_of ((id, v) ∷ entries) = id ∷ ids_of entries

-- "set" with its arguments.
unfoldable pub set_command : List ResolvedLine → List (List ℕ) → Change
unfolding parse_line_values valid_lines set_line_values_subset
set_command lines [] = record {
  lines = lines;
  applied = false;
  printed = bytes "at least one GPIO line value must be specified\n";
}
set_command lines (word ∷ words) = elim (parse_line_values (word ∷ words)) [
  | invalid text ↦ record {
    lines = lines;
    applied = false;
    printed = quoted (bytes "invalid line value: ") text;
  }
  | parsed entries ↦
      let (valid, text) = valid_lines lines (ids_of entries) in
      if valid
      then record { lines = set_line_values_subset lines entries; applied = true; printed = text }
      else record { lines = lines; applied = false; printed = text }
]

-- "toggle" with its arguments; the values are applied in any case.
unfoldable pub toggle_command : List ResolvedLine → List (List ℕ) → Change
unfolding parse_line_ids valid_lines toggle_lines toggle_all_lines
toggle_command lines [] = record { lines = toggle_all_lines lines; applied = true; printed = [] }
toggle_command lines (word ∷ words) = elim (parse_line_ids (word ∷ words)) [
  | invalid text ↦ record {
    lines = lines;
    applied = true;
    printed = quoted (bytes "invalid line id: ") text;
  }
  | parsed ids ↦
      let (valid, text) = valid_lines lines ids in
      if valid
      then record { lines = toggle_lines lines ids; applied = true; printed = text }
      else record { lines = lines; applied = true; printed = text }
]

-- The period is stored in an `int` of 32 bits: the microseconds, or what is printed.
abbrev pub int_period : List ℕ → Option ℕ → Parsed ℕ
int_period word none = invalid (quoted (bytes "invalid period: ") word)
int_period word (some p) =
    if ltb (p % 2 ^ 32) (2 ^ 31)
    then parsed (p % 2 ^ 32)
    else invalid (quoted (bytes "invalid period: ") word)

-- "sleep" with its arguments.
unfoldable pub sleep_command : List (List ℕ) → Parsed ℕ
sleep_command [] = invalid (bytes "a period must be specified\n")
sleep_command (word ∷ []) = int_period word (parse_period word)
sleep_command (word ∷ next ∷ words) = invalid (bytes "only one period can be specified\n")

-- print_interactive_help
abbrev pub interactive_help : List ℕ
interactive_help =
    bytes
      "COMMANDS:\n\n    exit\n        Exit the program\n    get [line]...\n        Display the output values of the given requested lines\n\n        If no lines are specified then all requested lines are displayed\n\n    help\n        Print this help\n\n    set <line=value>...\n        Update the output values of the given requested lines\n\n    sleep <period>\n        Sleep for the specified period\n\n    toggle [line]...\n        Toggle the output values of the given requested lines\n\n        If no lines are specified then all requested lines are toggled\n\n"

-- The loop that cuts the blanks off the end of a line, all but the first byte.
unfoldable pub cut_blanks : List ℕ → List ℕ
cut_blanks [] = []
cut_blanks (c ∷ cs) = elim (cut_blanks cs) [
  | [] ↦ (if is_space c then [] else c ∷ [])
  | d ∷ ds ↦ c ∷ d ∷ ds
]

unfoldable pub trim : List ℕ → List ℕ
unfolding cut_blanks
trim [] = []
trim (c ∷ cs) = c ∷ cut_blanks cs

module _ (kernel : Kernel) where
  open kernel use {World}

  pub record Session : Type 0 where
    pub world : World
    pub lines : List ResolvedLine
    pub slept : List ℕ
    pub output : List ℕ
    pub finished : Bool

  -- After a line of input; `no_word` is a line without words, where words[0] is read though nothing
  -- was stored there for this line.
  pub data Outcome : Type 0 where
    session : Session → Outcome
    no_word : Outcome

  abbrev pub changed : List LineRequest → Session → Change → Session
  changed requests s change = record s {
    lines = change.lines;
    world =
        if change.applied then (apply_values kernel s.world requests change.lines 0).0 else s.world;
    output = s.output ++ change.printed;
  }

  abbrev pub print : Session → List ℕ → Session
  print s text = record s { output = s.output ++ text }

  abbrev pub slept_or_printed : Session → Parsed ℕ → Session
  slept_or_printed s (invalid text) = print s text
  slept_or_printed s (parsed p) = record s { slept = p ∷ s.slept }

  -- The chain of tests of words[0].
  unfoldable pub run_command : List LineRequest → Bool → Session → List ℕ → List (List ℕ) → Session
  unfolding get_command set_command toggle_command sleep_command same_bytes
  run_command requests unquoted s name args =
      if same_bytes name (bytes "get")
      then print s (get_command s.lines unquoted args)
      else if same_bytes name (bytes "set")
      then changed requests s (set_command s.lines args)
      else if same_bytes name (bytes "toggle")
      then changed requests s (toggle_command s.lines args)
      else if same_bytes name (bytes "sleep")
      then slept_or_printed s (sleep_command args)
      else if same_bytes name (bytes "exit")
      then record s { finished = true }
      else if same_bytes name (bytes "help")
      then print s interactive_help
      else print s (quoted (bytes "unknown command: ") name ++ bytes "Try the 'help' command\n")

  abbrev pub run_words : List LineRequest → Bool → Session → List (List ℕ) → Outcome
  run_words requests unquoted s [] = no_word
  run_words requests unquoted s (name ∷ args) = session (run_command requests unquoted s name args)

  -- A round of the loop of interact, on what readline gave; `none` is NULL.
  unfoldable pub interact_line : List LineRequest → Bool → Session → Option (List ℕ) → Outcome
  unfolding trim split_words run_command
  interact_line requests unquoted s none = session s
  interact_line requests unquoted s (some []) = session s
  interact_line requests unquoted s (some (c ∷ cs)) =
      let max_words = suc (length s.lines) in
      let (num_words, words) = split_words (trim (c ∷ cs)) max_words in
      if ltb max_words num_words
      then session (print s (bytes "too many command parameters provided\n"))
      else run_words requests unquoted s words

  -- The loop of interact over the lines of input, up to "exit".
  unfoldable pub interact : List LineRequest → Bool → Outcome → List (Option (List ℕ)) → Outcome
  unfolding interact_line
  interact requests unquoted no_word inputs = no_word
  interact requests unquoted (session s) [] = session s
  interact requests unquoted (session s) (input ∷ inputs) =
      let rest = interact requests unquoted (interact_line requests unquoted s input) inputs in
      if s.finished then session s else rest

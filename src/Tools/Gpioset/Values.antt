-- ===== src/Tools/Gpioset/Values.antt =====
-- Line values of gpioset as text: parse_value, parse_line_values and the two functions that print
-- values.
use libgpiod.Prelude.{ℕ, ◌==◌, Bool, ◌&&◌, if◌then◌else◌, Option, none, some, List, [], ◌∷◌, ◌++◌}
use libgpiod.Prelude.Chars.{same_bytes}
use libgpiod.Enums.{LineValue, inactive, active, value_is_nonzero}
use libgpiod.Tools.Strings.{bytes}
use libgpiod.Tools.Exit.{Run, going, died, bad_line_value}
use libgpiod.Tools.Resolver.{ResolvedLine}

-- parse_value; `none` is GPIOD_LINE_VALUE_ERROR.
unfoldable pub parse_value : List ℕ → Option LineValue
unfolding same_bytes
parse_value option =
    if same_bytes option (bytes "0")
    then some inactive
    else if same_bytes option (bytes "1")
    then some active
    else if same_bytes option (bytes "inactive")
    then some inactive
    else if same_bytes option (bytes "active")
    then some active
    else if same_bytes option (bytes "off")
    then some inactive
    else if same_bytes option (bytes "on")
    then some active
    else if same_bytes option (bytes "false")
    then some inactive
    else if same_bytes option (bytes "true")
    then some active
    else none

abbrev pub in_front : ℕ → Option (List ℕ × List ℕ) → Option (List ℕ × List ℕ)
in_front c none = none
in_front c (some (before, after)) = some (c ∷ before, after)

-- strchr(line, '='): what stands before it and what stands behind it.
unfoldable pub at_equals : List ℕ → Option (List ℕ × List ℕ)
at_equals [] = none
at_equals (c ∷ cs) =
    let later = in_front c (at_equals cs) in if c == b'=' then some ([], cs) else later

-- strstr(line, "\"="): what stands before the two bytes and what stands behind them.
unfoldable pub at_quote_equals : List ℕ → Option (List ℕ × List ℕ)
at_quote_equals [] = none
at_quote_equals (c ∷ []) = none
at_quote_equals (c ∷ d ∷ cs) =
    let later = in_front c (at_quote_equals (d ∷ cs)) in
    if (c == b'"') && (d == b'=') then some ([], cs) else later

-- The line and the text of the value.
unfoldable pub split_line_value : List ℕ → Option (List ℕ × List ℕ)
unfolding at_equals at_quote_equals
split_line_value [] = none
split_line_value (c ∷ cs) = if c == b'"' then at_quote_equals cs else at_equals (c ∷ cs)

-- What parsing gives, or the text that was reported as invalid.
pub data Parsed {ℓ} (A : Type ℓ) : Type ℓ where
  parsed : A → Parsed A
  invalid : List ℕ → Parsed A

abbrev pub valued : List ℕ → List ℕ → Option LineValue → Parsed (List ℕ × LineValue)
valued line value none = invalid value
valued line value (some v) = parsed (line, v)

abbrev pub line_and_value : List ℕ → Option (List ℕ × List ℕ) → Parsed (List ℕ × LineValue)
line_and_value all none = invalid all
line_and_value all (some (line, value)) = valued line value (parse_value value)

-- One round of parse_line_values.
unfoldable pub parse_line_value : List ℕ → Parsed (List ℕ × LineValue)
unfolding split_line_value parse_value
parse_line_value word = line_and_value word (split_line_value word)

abbrev pub joined {ℓ} : {A : Type ℓ} → Parsed A → Parsed (List A) → Parsed (List A)
joined (invalid text) rest = invalid text
joined (parsed a) (invalid text) = invalid text
joined (parsed a) (parsed rest) = parsed (a ∷ rest)

-- parse_line_values: up to the first invalid word.
unfoldable pub parse_line_values : List (List ℕ) → Parsed (List (List ℕ × LineValue))
unfolding parse_line_value
parse_line_values [] = parsed []
parse_line_values (word ∷ words) = joined (parse_line_value word) (parse_line_values words)

unfoldable pub parse_line_values_or_die : List (List ℕ) → Run (List (List ℕ × LineValue))
unfolding parse_line_values
parse_line_values_or_die words = elim (parse_line_values words) [
  | invalid text ↦ died (bad_line_value text)
  | parsed entries ↦ going entries
]

abbrev pub value_word : LineValue → List ℕ
value_word v = if value_is_nonzero v then bytes "active" else bytes "inactive"

-- What the formats "%s=%s" and "\"%s\"=%s" give for a line.
unfoldable pub line_value_text : Bool → List ℕ → LineValue → List ℕ
line_value_text unquoted id v =
    if unquoted then id ++ b'=' ∷ value_word v else b'"' ∷ id ++ b'"' ∷ b'=' ∷ value_word v

-- print_all_line_values: a space behind each line but the last, which ends the text.
unfoldable pub print_all_line_values : List ResolvedLine → Bool → List ℕ
unfolding line_value_text
print_all_line_values [] unquoted = []
print_all_line_values (line ∷ []) unquoted =
    line_value_text unquoted line.id line.value ++ b'\n' ∷ []
print_all_line_values (line ∷ next ∷ lines) unquoted =
    line_value_text unquoted line.id line.value
    ++ b' ' ∷ print_all_line_values (next ∷ lines) unquoted

-- The first line with an id.
unfoldable pub find_id : List ResolvedLine → List ℕ → Option ResolvedLine
find_id [] id = none
find_id (line ∷ lines) id =
    let rest = find_id lines id in if same_bytes id line.id then some line else rest

-- print_line_values; nothing is printed for an id that is not found.
unfoldable pub print_line_values : List ResolvedLine → List (List ℕ) → Bool → List ℕ
unfolding line_value_text find_id
print_line_values lines [] unquoted = []
print_line_values lines (id ∷ ids) unquoted =
    let rest = print_line_values lines ids unquoted in
    let last : ℕ = elim ids [ [] ↦ b'\n' | _ ∷ _ ↦ b' ' ] in
    elim (find_id lines id) [
      | none ↦ rest
      | some line ↦ line_value_text unquoted line.id line.value ++ last ∷ rest
    ]

-- ===== src/Tools/Gpioset/Words.antt =====
-- The words of a command of gpioset's interactive mode: split_words and parse_line_ids.
pub mod RoundTrip
use libgpiod.Prelude.{
  ℕ, zero, suc, ◌==◌, Bool, true, false, not, if◌then◌else◌, Option, none, some, List, [], ◌∷◌,
  length, take,
}
use libgpiod.Tools.Strings.{is_space}
use libgpiod.Tools.Gpioset.Values.{Parsed, parsed, invalid, joined}

-- The loop of split_words: what is left of the word that `in_word` says it is in, and the words
-- that start later. A blank ends a word unless it is quoted.
unfoldable pub split_from : Bool → Bool → List ℕ → List ℕ × List (List ℕ)
unfolding is_space
split_from in_word in_quotes [] = ([], [])
split_from false in_quotes (c ∷ cs) =
    let blank = split_from false in_quotes cs in
    let (word, words) = split_from true (c == b'"') cs in
    if is_space c then blank else ([], (c ∷ word) ∷ words)
split_from true true (c ∷ cs) =
    let (word, words) = split_from true (not (c == b'"')) cs in (c ∷ word, words)
split_from true false (c ∷ cs) =
    let ended = split_from false false cs in
    let (word, words) = split_from true false cs in
    if is_space c then ([], ended.1) else (c ∷ word, words)

unfoldable pub all_words : List ℕ → List (List ℕ)
unfolding split_from
all_words line = (split_from false false line).1

-- split_words: the count of all words, and those that are stored.
unfoldable pub split_words : List ℕ → ℕ → ℕ × List (List ℕ)
unfolding all_words
split_words line max_words = (length (all_words line), take max_words (all_words line))

-- A text without its last byte, if that is a quote.
unfoldable pub before_quote : List ℕ → Option (List ℕ)
before_quote [] = none
before_quote (c ∷ []) = if c == b'"' then some [] else none
before_quote (c ∷ d ∷ cs) = elim (before_quote (d ∷ cs)) [ none ↦ none | some ds ↦ some (c ∷ ds) ]

abbrev pub unquoted_id : List ℕ → Option (List ℕ) → Parsed (List ℕ)
unquoted_id word none = invalid word
unquoted_id word (some line) = parsed line

-- One round of parse_line_ids.
unfoldable pub parse_line_id : List ℕ → Parsed (List ℕ)
unfolding before_quote
parse_line_id [] = parsed []
parse_line_id (c ∷ cs) =
    if c == b'"' then unquoted_id (c ∷ cs) (before_quote cs) else parsed (c ∷ cs)

unfoldable pub parse_line_ids : List (List ℕ) → Parsed (List (List ℕ))
unfolding parse_line_id
parse_line_ids [] = parsed []
parse_line_ids (word ∷ words) = joined (parse_line_id word) (parse_line_ids words)

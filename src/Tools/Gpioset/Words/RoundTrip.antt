-- ===== src/Tools/Gpioset/Words/RoundTrip.antt =====
-- What the command "get" prints, read again by the command "set".
use mathlib.Core.List.{append_assoc}
use libgpiod.Prelude.{
  ℕ, ◌==◌, ◌≡◌, refl, ◌∙◌, Bool, true, false, not, ◌&&◌, if◌then◌else◌, some, List, [], ◌∷◌, ◌++◌,
  map, arith, All,
}
use libgpiod.Enums.{LineValue, error, inactive, active, other, value_is_nonzero}
use libgpiod.Tools.Strings.{is_space}
use libgpiod.Tools.Resolver.{ResolvedLine}
use libgpiod.Tools.Gpioset.Values.{
  parsed, parse_value, at_equals, at_quote_equals, split_line_value, parse_line_value,
  parse_line_values, value_word, line_value_text, print_all_line_values,
}
use libgpiod.Tools.Gpioset.Words.{split_from, all_words}

-- A byte of an id that can be told from what is printed around it.
abbrev pub clean : Bool → ℕ → Bool
clean unquoted c =
    if unquoted then not (c == b'"') && not (c == b'=') && not (is_space c) else not (c == b'"')

abbrev pub all_clean : Bool → List ℕ → Bool
all_clean unquoted [] = true
all_clean unquoted (c ∷ cs) = clean unquoted c && all_clean unquoted cs

abbrev pub no_blank : List ℕ → Bool
no_blank [] = true
no_blank (c ∷ cs) = not (is_space c) && no_blank cs

-- The value that is printed.
abbrev pub tidy : LineValue → LineValue
tidy v = if value_is_nonzero v then active else inactive

split_from-quoted :
    (id rest : List ℕ)
    → all_clean false id ≡ true
    → split_from true true (id ++ b'"' ∷ rest)
      ≡ (id ++ b'"' ∷ (split_from true false rest).0, (split_from true false rest).1)
unfolding split_from
split_from-quoted [] rest h = refl
split_from-quoted (c ∷ cs) rest h =
    let e : (c == b'"') ≡ false = ground arith in
    rw (e, split_from) (rw (split_from-quoted cs rest (ground arith)) refl)

split_from-word :
    (word rest : List ℕ) (b : ℕ)
    → no_blank word ≡ true
    → is_space b ≡ true
    → split_from true false (word ++ b ∷ rest) ≡ (word, all_words rest)
unfolding split_from all_words
split_from-word [] rest b h s = rw s refl
split_from-word (c ∷ cs) rest b h s =
    let e : is_space c ≡ false = ground arith in
    rw (e, split_from) (rw (split_from-word cs rest b (ground arith) s) refl)

no_blank-append : (x y : List ℕ) → no_blank (x ++ y) ≡ (no_blank x && no_blank y)
no_blank-append [] y = refl
no_blank-append (c ∷ cs) y = ground (arith, no_blank-append cs y)

no_blank-value_word : (v : LineValue) → no_blank (value_word v) ≡ true
unfolding is_space
no_blank-value_word error = refl
no_blank-value_word inactive = refl
no_blank-value_word active = refl
no_blank-value_word (other n) = refl

no_blank-all_clean : (id : List ℕ) → all_clean true id ≡ true → no_blank id ≡ true
no_blank-all_clean [] h = refl
no_blank-all_clean (c ∷ cs) h = ground (arith, no_blank-all_clean cs)

all_words-word :
    (c : ℕ) (cs rest : List ℕ) (b : ℕ)
    → is_space c ≡ false
    → no_blank cs ≡ true
    → (c == b'"') ≡ false
    → is_space b ≡ true
    → all_words (c ∷ cs ++ b ∷ rest) ≡ (c ∷ cs) ∷ all_words rest
unfolding all_words split_from
all_words-word c cs rest b e n q s = rw (e, q, all_words) (rw (split_from-word cs rest b n s) refl)

all_words-text :
    (unquoted : Bool) (id rest : List ℕ) (v : LineValue) (b : ℕ)
    → all_clean unquoted id ≡ true
    → is_space b ≡ true
    → all_words (line_value_text unquoted id v ++ b ∷ rest)
      ≡ line_value_text unquoted id v ∷ all_words rest
unfolding all_words split_from line_value_text is_space
all_words-text true [] rest v b h s =
    all_words-word b'=' (value_word v) rest b refl (no_blank-value_word v) refl s
all_words-text true (c ∷ cs) rest v b h s =
    all_words-word c (cs ++ b'=' ∷ value_word v) rest b (ground arith)
      (no_blank-append cs (b'=' ∷ value_word v)
        ∙ ground (arith, no_blank-all_clean cs, no_blank-value_word v))
      (ground arith) s
all_words-text false id rest v b h s =
    rw (append_assoc id (b'"' ∷ b'=' ∷ value_word v) (b ∷ rest)) (
      rw (split_from-quoted id (b'=' ∷ value_word v ++ b ∷ rest) h)
        (rw (split_from-word (value_word v) rest b (no_blank-value_word v) s) refl))

parse_value-value_word : (v : LineValue) → parse_value (value_word v) ≡ some (tidy v)
unfolding parse_value
parse_value-value_word error = refl
parse_value-value_word inactive = refl
parse_value-value_word active = refl
parse_value-value_word (other n) = refl

at_equals-append :
    (id value : List ℕ)
    → all_clean true id ≡ true
    → at_equals (id ++ b'=' ∷ value) ≡ some (id, value)
unfolding at_equals
at_equals-append [] value h = refl
at_equals-append (c ∷ cs) value h =
    let e : (c == b'=') ≡ false = ground arith in
    rw (e, at_equals) (rw (at_equals-append cs value (ground arith)) refl)

at_quote_equals-append :
    (id value : List ℕ)
    → all_clean false id ≡ true
    → at_quote_equals (id ++ b'"' ∷ b'=' ∷ value) ≡ some (id, value)
unfolding at_quote_equals
at_quote_equals-append [] value h = refl
at_quote_equals-append (c ∷ []) value h =
    let e : (c == b'"') ≡ false = ground arith in rw (e, at_quote_equals) refl
at_quote_equals-append (c ∷ d ∷ cs) value h =
    let e : (c == b'"') ≡ false = ground arith in
    rw (e, at_quote_equals) (rw (at_quote_equals-append (d ∷ cs) value (ground arith)) refl)

split_line_value-text :
    (unquoted : Bool) (id : List ℕ) (v : LineValue)
    → all_clean unquoted id ≡ true
    → split_line_value (line_value_text unquoted id v) ≡ some (id, value_word v)
unfolding split_line_value line_value_text
split_line_value-text true [] v h = at_equals-append [] (value_word v) refl
split_line_value-text true (c ∷ cs) v h =
    let e : (c == b'"') ≡ false = ground arith in rw e (at_equals-append (c ∷ cs) (value_word v) h)
split_line_value-text false id v h = at_quote_equals-append id (value_word v) h

parse_line_value-text :
    (unquoted : Bool) (id : List ℕ) (v : LineValue)
    → all_clean unquoted id ≡ true
    → parse_line_value (line_value_text unquoted id v) ≡ parsed (id, tidy v)
unfolding parse_line_value
parse_line_value-text unquoted id v h =
    rw (split_line_value-text unquoted id v h) (rw (parse_value-value_word v) refl)

-- The text that "get" prints for lines whose ids hold no quote, and without quotes around them no
-- blank or '=' either, is read by "set" as the same lines with the same values.
pub parse_line_values-print_all_line_values :
    (lines : List ResolvedLine) (unquoted : Bool)
    → All (λ line. all_clean unquoted line.id ≡ true) lines
    → parse_line_values (all_words (print_all_line_values lines unquoted))
      ≡ parsed (map (λ line. (line.id, tidy line.value)) lines)
unfolding print_all_line_values parse_line_values all_words
parse_line_values-print_all_line_values [] unquoted h = refl
parse_line_values-print_all_line_values (line ∷ []) unquoted h =
    rw (all_words-text unquoted line.id [] line.value b'\n' h.0 refl)
      (rw (parse_line_value-text unquoted line.id line.value h.0) refl)
parse_line_values-print_all_line_values (line ∷ next ∷ lines) unquoted h =
    rw
      (all_words-text unquoted line.id (print_all_line_values (next ∷ lines) unquoted) line.value
        b' ' h.0 refl)
      (rw
        (
          parse_line_value-text unquoted line.id line.value h.0,
          parse_line_values-print_all_line_values (next ∷ lines) unquoted h.1,
        )
        refl)

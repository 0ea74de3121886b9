-- ===== src/Tools/Gpioset/Interact/Laws.antt =====
-- What the commands of gpioset's interactive mode do to the lines.
use libgpiod.Prelude.{
  ℕ, ◌≡◌, refl, ◌∙◌, ap, sym, subst, Bool, true, false, if◌then◌else◌, Option, none, some, List, [],
  ◌∷◌, map, All, arith, Bool-cases, inl, inr,
}
use libgpiod.Prelude.Chars.{same_bytes, same_bytes→eq}
use libgpiod.Enums.{LineValue, error, inactive, active, other}
use libgpiod.LineSettings.Laws.{is_value}
use libgpiod.Tools.Resolver.{ResolvedLine}
use libgpiod.Tools.Gpioset.Values.{parsed, parse_line_values, print_all_line_values, find_id}
use libgpiod.Tools.Gpioset.Words.{all_words}
use libgpiod.Tools.Gpioset.Words.RoundTrip.{
  all_clean, tidy, parse_line_values-print_all_line_values,
}
use libgpiod.Tools.Gpioset.Interact.{
  change_first, set_line_values_subset, valid_lines, ids_of, get_command, set_command, is_found,
}

same_bytes_refl : (id : List ℕ) → same_bytes id id ≡ true
unfolding same_bytes
same_bytes_refl [] = refl
same_bytes_refl (c ∷ cs) = ground (arith, same_bytes_refl cs)

abbrev pub value_in : Option ResolvedLine → Option LineValue
value_in none = none
value_in (some line) = some line.value

-- The value of the first line with an id.
abbrev pub value_with : List ResolvedLine → List ℕ → Option LineValue
value_with lines id = value_in (find_id lines id)

abbrev pub replaced : LineValue → Option LineValue → Option LineValue
replaced v none = none
replaced v (some old) = some v

-- The last value that the entries have for an id; without one, the old value.
abbrev pub last_value : List (List ℕ × LineValue) → List ℕ → Option LineValue → Option LineValue
last_value [] id old = old
last_value ((x, v) ∷ entries) id old =
    last_value entries id (if same_bytes x id then replaced v old else old)

value_with-change_first :
    (lines : List ResolvedLine) (x id : List ℕ) (v : LineValue)
    → value_with (change_first (λ line. record line { value = v }) lines x) id
      ≡ (if same_bytes x id then replaced v (value_with lines id) else value_with lines id)
unfolding change_first find_id
value_with-change_first [] x id v = ground arith
value_with-change_first (line ∷ lines) x id v = elim (Bool-cases (same_bytes x line.id)) [
  | inl e ↦ elim (Bool-cases (same_bytes id line.id)) [
    | inl f ↦
        let same : x ≡ id = same_bytes→eq x line.id e ∙ sym (same_bytes→eq id line.id f) in
        let g : same_bytes x id ≡ true =
          subst (λ y. same_bytes x y ≡ true) same (same_bytes_refl x) in
        rw (e, f, g) refl
    | inr f ↦
        let g : same_bytes x id ≡ false = other_id f (same_bytes→eq x line.id e) in
        rw (e, f, g) refl
  ]
  | inr e ↦ elim (Bool-cases (same_bytes id line.id)) [
    | inl f ↦
        let g : same_bytes x id ≡ false = other_way e (same_bytes→eq id line.id f) in
        rw (e, f, g) refl
    | inr f ↦ rw (e, f) (value_with-change_first lines x id v)
  ]
]
  where
    other_id : same_bytes id line.id ≡ false → x ≡ line.id → same_bytes x id ≡ false
    other_id f same = elim (Bool-cases (same_bytes x id)) [
      | inl g ↦
          let back : id ≡ line.id = sym (same_bytes→eq x id g) ∙ same in
          absurd
            (cc (f, subst (λ y. same_bytes y line.id ≡ true) (sym back) (same_bytes_refl line.id)))
      | inr g ↦ g
    ]

    other_way : same_bytes x line.id ≡ false → id ≡ line.id → same_bytes x id ≡ false
    other_way e same = subst (λ y. same_bytes x y ≡ false) (sym same) e

-- After the values of a "set" are stored, the first line with an id has the last value given for
-- that id, and its old value if none was given.
pub value_with-set_line_values_subset :
    (lines : List ResolvedLine) (entries : List (List ℕ × LineValue)) (id : List ℕ)
    → value_with (set_line_values_subset lines entries) id
      ≡ last_value entries id (value_with lines id)
unfolding set_line_values_subset
value_with-set_line_values_subset lines [] id = refl
value_with-set_line_values_subset lines ((x, v) ∷ entries) id =
    value_with-set_line_values_subset (change_first (λ line. record line { value = v }) lines x)
      entries id
    ∙ ap (last_value entries id) (value_with-change_first lines x id v)

-- No line has the id of one that follows it.
abbrev pub DistinctIds : List ResolvedLine → Type 0
DistinctIds [] = Unit
DistinctIds (line ∷ lines) =
    All (λ later. same_bytes later.id line.id ≡ false) lines × DistinctIds lines

abbrev own_entry : ResolvedLine → List ℕ × LineValue
own_entry line = (line.id, tidy line.value)

-- Each entry has the value that its line has.
abbrev Agree : List ResolvedLine → List (List ℕ × LineValue) → Type 0
Agree lines entries = All (λ e. value_with lines e.0 ≡ some e.1) entries

change_first-same :
    (lines : List ResolvedLine) (id : List ℕ) (v : LineValue)
    → value_with lines id ≡ some v
    → change_first (λ line. record line { value = v }) lines id ≡ lines
unfolding change_first find_id
change_first-same [] id v h = refl
change_first-same (line ∷ lines) id v h = elim (Bool-cases (same_bytes id line.id)) [
  | inl e ↦
      let same : line.value ≡ v = some-injective (rw e at h) in
      rw e (ap (λ w. record line { value = w } ∷ lines) (sym same))
  | inr e ↦ rw e (ap (λ rest. line ∷ rest) (change_first-same lines id v (rw e at h)))
]
  where
    some-injective : {a b : LineValue} → some a ≡ some b → a ≡ b
    some-injective h = cc

set_line_values_subset-Agree :
    (lines : List ResolvedLine) (entries : List (List ℕ × LineValue))
    → Agree lines entries
    → set_line_values_subset lines entries ≡ lines
unfolding set_line_values_subset
set_line_values_subset-Agree lines [] h = refl
set_line_values_subset-Agree lines ((x, v) ∷ entries) h =
    rw (change_first-same lines x v h.0) (set_line_values_subset-Agree lines entries h.1)

valid_lines-Agree :
    (lines : List ResolvedLine) (entries : List (List ℕ × LineValue))
    → Agree lines entries
    → valid_lines lines (ids_of entries) ≡ (true, [])
unfolding valid_lines
valid_lines-Agree lines [] h = refl
valid_lines-Agree lines ((x, v) ∷ entries) h =
    let found = found-value_in (find_id lines x) h.0 in
    rw (found, valid_lines) (valid_lines-Agree lines entries h.1)
  where
    found-value_in : (r : Option ResolvedLine) → value_in r ≡ some v → is_found r ≡ true
    found-value_in none k = cc
    found-value_in (some line) k = refl

tidy-is_value : (v : LineValue) → is_value v ≡ true → tidy v ≡ v
tidy-is_value error h = cc
tidy-is_value inactive h = refl
tidy-is_value active h = refl
tidy-is_value (other n) h = cc

Agree-cons :
    (line : ResolvedLine) (lines later : List ResolvedLine)
    → All (λ l. same_bytes l.id line.id ≡ false) later
    → Agree lines (map own_entry later)
    → Agree (line ∷ lines) (map own_entry later)
unfolding find_id
Agree-cons line lines [] d h = tt
Agree-cons line lines (next ∷ later) d h = (rw d.0 h.0, Agree-cons line lines later d.1 h.1)

own_entries-Agree :
    (lines : List ResolvedLine)
    → DistinctIds lines
    → All (λ line. is_value line.value ≡ true) lines
    → Agree lines (map own_entry lines)
unfolding find_id
own_entries-Agree [] d v = tt
own_entries-Agree (line ∷ lines) d v = (
  rw (same_bytes_refl line.id) (ap some (sym (tidy-is_value line.value v.0))),
  Agree-cons line lines lines d.0 (own_entries-Agree lines d.1 v.1),
)

set_command-parsed :
    (lines : List ResolvedLine) (words : List (List ℕ)) (e : List ℕ × LineValue)
    (entries : List (List ℕ × LineValue))
    → parse_line_values words ≡ parsed (e ∷ entries)
    → Agree lines (e ∷ entries)
    → set_command lines words ≡ record { lines = lines; applied = true; printed = [] }
unfolding set_command parse_line_values
set_command-parsed lines [] e entries p h = absurd (cc p)
set_command-parsed lines (word ∷ words) e entries p h =
    rw (p, set_command)
      (rw
        (
          valid_lines-Agree lines (e ∷ entries) h,
          set_line_values_subset-Agree lines (e ∷ entries) h,
        )
        refl)

-- What "get" prints for all lines, given to "set", is accepted without a message, leaves the values
-- as they are and applies them. There is a line, no two have the same id, and each has a value and
-- an id that can be read back.
pub set_command-get_command :
    (line : ResolvedLine) (lines : List ResolvedLine) (unquoted : Bool)
    → All (λ l. all_clean unquoted l.id ≡ true) (line ∷ lines)
    → DistinctIds (line ∷ lines)
    → All (λ l. is_value l.value ≡ true) (line ∷ lines)
    → set_command (line ∷ lines) (all_words (get_command (line ∷ lines) unquoted []))
      ≡ record { lines = line ∷ lines; applied = true; printed = [] }
unfolding get_command
set_command-get_command line lines unquoted c d v =
    set_command-parsed (line ∷ lines) (all_words (print_all_line_values (line ∷ lines) unquoted))
      (own_entry line) (map own_entry lines)
      (parse_line_values-print_all_line_values (line ∷ lines) unquoted c)
      (own_entries-Agree (line ∷ lines) d v)

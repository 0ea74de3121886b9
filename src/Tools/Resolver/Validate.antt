-- ===== src/Tools/Resolver/Validate.antt =====
-- validate_resolution of tools/tools-common.c.
use libgpiod.Prelude.{
  ℕ, ◌==◌, ◌≡◌, ◌≢◌, refl, ◌∙◌, ◌⊎◌, inl, inr, Bool-cases, Bool, true, false, not, ◌&&◌, ◌||◌,
  if◌then◌else◌, Option, none, some, List, [], ◌∷◌, ◌++◌, arith,
}
use libgpiod.Tools.Exit.{Run, going, died, bad_resolution}
use libgpiod.Tools.Resolver.{ResolvedLine, LineResolver}

-- `prev->chip_num == line->chip_num`
unfoldable pub same_chip : Option ℕ → Option ℕ → Bool
same_chip none none = true
same_chip (some a) (some b) = a == b
same_chip _ _ = false

-- The test of the inner loop: the two are the same line.
abbrev pub same_line : ResolvedLine → ResolvedLine → Bool
same_line line prev =
    prev.resolved && same_chip prev.chip_num line.chip_num && (prev.offset == line.offset)

-- The inner loop: whether one of the lines before is the same.
pub is_repeated : ResolvedLine → List ResolvedLine → Bool
unfolding same_chip
is_repeated line [] = false
is_repeated line (prev ∷ before) = if same_line line prev then true else is_repeated line before

-- The outer loop, on the lines before and from there on: the final value of `valid`.
pub valid_from : List ResolvedLine → List ResolvedLine → Bool
unfolding is_repeated
valid_from before [] = true
valid_from before (line ∷ lines) =
    let rest = valid_from (before ++ line ∷ []) lines in
    line.resolved && not (is_repeated line before) && rest

unfoldable pub validate_resolution : LineResolver → Run (Unit {0})
unfolding valid_from
validate_resolution r = if valid_from [] r.lines then going tt else died bad_resolution

-- No line of a list is the same as a given one.
abbrev pub none_same : ResolvedLine → List ResolvedLine → Bool
none_same line [] = true
none_same line (later ∷ lines) = not (same_line later line) && none_same line lines

-- Every line is resolved, and no two are the same.
abbrev pub all_distinct : List ResolvedLine → Bool
all_distinct [] = true
all_distinct (line ∷ lines) = line.resolved && none_same line lines && all_distinct lines

none_repeated : List ResolvedLine → List ResolvedLine → Bool
none_repeated before [] = true
none_repeated before (line ∷ lines) = not (is_repeated line before) && none_repeated before lines

is_repeated-snoc :
    (line : ResolvedLine) (before : List ResolvedLine) (last : ResolvedLine)
    → is_repeated line (before ++ last ∷ []) ≡ (is_repeated line before || same_line line last)
unfolding is_repeated
is_repeated-snoc line [] last = ground arith
is_repeated-snoc line (prev ∷ before) last = ground (arith, is_repeated-snoc line before last)

none_repeated-snoc :
    (before : List ResolvedLine) (last : ResolvedLine) (lines : List ResolvedLine)
    → none_repeated (before ++ last ∷ []) lines
      ≡ (none_repeated before lines && none_same last lines)
unfolding none_repeated
none_repeated-snoc before last [] = refl
none_repeated-snoc before last (line ∷ lines) =
    rw (is_repeated-snoc line before last, none_repeated-snoc before last lines)
      (regroup (is_repeated line before) (same_line line last) (none_repeated before lines)
        (none_same last lines))
  where
    regroup : (a b c d : Bool) → (not (a || b) && (c && d)) ≡ ((not a && c) && (not b && d))
    regroup true b c d = refl
    regroup false true true d = refl
    regroup false true false d = refl
    regroup false false c d = refl

valid_from-all_distinct :
    (before lines : List ResolvedLine)
    → valid_from before lines ≡ (none_repeated before lines && all_distinct lines)
unfolding valid_from none_repeated
valid_from-all_distinct before [] = refl
valid_from-all_distinct before (line ∷ lines) =
    rw (valid_from-all_distinct (before ++ line ∷ []) lines, none_repeated-snoc before line lines)
      (regroup line.resolved (is_repeated line before) (none_repeated before lines)
        (none_same line lines) (all_distinct lines))
  where
    regroup :
        (a b c d e : Bool) → ((a && not b) && ((c && d) && e)) ≡ ((not b && c) && ((a && d) && e))
    regroup true b c d e = ground arith
    regroup false b c d e = ground arith

none_repeated-nil : (lines : List ResolvedLine) → none_repeated [] lines ≡ true
unfolding none_repeated is_repeated
none_repeated-nil [] = refl
none_repeated-nil (line ∷ lines) = none_repeated-nil lines

-- No line of a list has the chip and the offset of a given one.
abbrev pub NotAmong : ResolvedLine → List ResolvedLine → Type 0
NotAmong line [] = Unit {0}
NotAmong line (later ∷ lines) =
    (¬ ((line.chip_num ≡ later.chip_num) × (line.offset ≡ later.offset))) × NotAmong line lines

-- Every line is resolved, and no two have the same chip and the same offset.
abbrev pub IsResolution : List ResolvedLine → Type 0
IsResolution [] = Unit {0}
IsResolution (line ∷ lines) = (line.resolved ≡ true) × NotAmong line lines × IsResolution lines

same_chip-cases :
    (a b : Option ℕ) → ((same_chip a b ≡ true) × (a ≡ b)) ⊎ ((same_chip a b ≡ false) × (a ≢ b))
unfolding same_chip
same_chip-cases none none = inl (refl, refl)
same_chip-cases (some a) (some b) = ground arith
same_chip-cases none (some b) = inr (refl, λ e. cc)
same_chip-cases (some a) none = inr (refl, λ e. cc)

none_same-cases :
    (line : ResolvedLine) (lines : List ResolvedLine)
    → line.resolved ≡ true
    → ((none_same line lines ≡ true) × NotAmong line lines)
      ⊎ ((none_same line lines ≡ false) × (¬ NotAmong line lines))
none_same-cases line [] h = inl (refl, tt)
none_same-cases line (later ∷ lines) h =
    ground (arith, same_chip-cases line.chip_num later.chip_num, none_same-cases line lines h)

all_distinct-cases :
    (lines : List ResolvedLine)
    → ((all_distinct lines ≡ true) × IsResolution lines)
      ⊎ ((all_distinct lines ≡ false) × (¬ IsResolution lines))
all_distinct-cases [] = inl (refl, tt)
all_distinct-cases (line ∷ lines) = elim (Bool-cases line.resolved) [
  | inl e ↦ ground (arith, e, none_same-cases line lines e, all_distinct-cases lines)
  | inr e ↦ inr (rw e refl, λ r. cc (e, r.0))
]

-- The program goes on exactly if every line is resolved and no two have the same chip and the same
-- offset; otherwise it ends.
pub validate_resolution_lem :
    (r : LineResolver)
    → ((validate_resolution r ≡ going tt) × IsResolution r.lines)
      ⊎ ((validate_resolution r ≡ died bad_resolution) × (¬ IsResolution r.lines))
unfolding validate_resolution
validate_resolution_lem r =
    let valid : valid_from [] r.lines ≡ all_distinct r.lines =
      rw (valid_from-all_distinct [] r.lines, none_repeated-nil r.lines) refl in
    elim (all_distinct-cases r.lines) [
      | inl (e, p) ↦ inl (rw (valid ∙ e, validate_resolution) refl, p)
      | inr (e, p) ↦ inr (rw (valid ∙ e, validate_resolution) refl, p)
    ]

-- ===== src/Tools/Gpioinfo/Laws.antt =====
-- The listing of all lines of a chip.
use libgpiod.Prelude.{
  ℕ, zero, suc, ◌+◌, ◌-◌, ◌==◌, leb, ◌≡◌, refl, ◌∙◌, sym, inl, inr, Bool, true, false, Bool-cases,
  if◌then◌else◌, List, [], ◌∷◌, ◌++◌, length, length-append, replicate, arith, ok,
}
use libgpiod.Prelude.Chars.{text}
use mathlib.Core.List.{append_assoc, append-nil}
use libgpiod.Uapi.{GpiochipInfo, V2LineInfo}
use libgpiod.Kernel.{Kernel}
use libgpiod.ChipInfo.{ChipInfo}
use libgpiod.LineInfo.{LineInfo, get_name, described}
use libgpiod.Chip.{Chip, chip_get_line_info}
use libgpiod.Chip.Laws.{Answers, chip_get_line_info-Answers}
use libgpiod.Tools.Exit.{Run, going}
use libgpiod.Tools.Resolver.{LineResolver}
use libgpiod.Tools.Strings.{bytes, decimal}
use libgpiod.Tools.Printing.{print_line_attributes}
use libgpiod.Tools.Gpioinfo.{
  mark_lines, quoted_name, print_line_info, line_title, line_entry, list_from,
}

-- A text in a field of at least n bytes, at its left or at its right end.
abbrev pub at_left : ℕ → List ℕ → List ℕ
at_left n s = s ++ replicate (n - length s) b' '

abbrev pub at_right : ℕ → List ℕ → List ℕ
at_right n s = replicate (n - length s) b' ' ++ s

-- The name as it is shown, and whether strings are shown as they are.
abbrev pub shown : Bool → List ℕ → List ℕ
shown unquoted [] = bytes "unnamed"
shown true (c ∷ cs) = c ∷ cs
shown false (c ∷ cs) = b'"' ∷ c ∷ cs ++ bytes "\""

abbrev pub as_they_are : Bool → List ℕ → Bool
as_they_are unquoted [] = true
as_they_are unquoted (c ∷ cs) = unquoted

-- The table of a chip: a heading, and a row for each of as many lines from an offset on, with the
-- offset in a field of three bytes and the name in one of sixteen.
abbrev pub heading : ChipInfo → List ℕ
heading info = text info.name ++ bytes " - " ++ decimal info.num_lines (bytes " lines:\n")

abbrev pub row : Bool → ℕ → LineInfo → List ℕ
row unquoted offset line =
    bytes "\tline "
    ++ at_right 3 (decimal offset [])
    ++ bytes ":\t"
    ++ at_left 16 (shown unquoted (text line.name))
    ++ bytes "\t"
    ++ print_line_attributes line (as_they_are unquoted (text line.name))
    ++ bytes "\n"

abbrev pub rows : (ℕ → LineInfo) → Bool → ℕ → ℕ → List ℕ
rows infos unquoted cur zero = []
rows infos unquoted cur (suc left) =
    row unquoted cur (infos cur) ++ rows infos unquoted (suc cur) left

quoted_name_lem : (name : List ℕ) → quoted_name name ≡ at_left 16 (b'"' ∷ name ++ bytes "\"")
quoted_name_lem name = elim (Bool-cases (leb (length name) 14)) [
  | inl e ↦ rw e refl
  | inr e ↦
      let none_left : 16 - length (b'"' ∷ name ++ bytes "\"") ≡ 0 =
        rw (length-append name (bytes "\"")) (ground arith) in
      rw (e, none_left) (sym (append-nil (b'"' ∷ name ++ bytes "\"")))
]

print_line_info_lem :
    (line : LineInfo) (unquoted : Bool)
    → print_line_info line unquoted
      ≡ at_left 16 (shown unquoted (text line.name))
        ++ b'\t' ∷ print_line_attributes line (as_they_are unquoted (text line.name))
unfolding print_line_info get_name
print_line_info_lem line unquoted = cases (text line.name) unquoted refl
  where
    cases :
        (name : List ℕ) (unquoted : Bool)
        → text line.name ≡ name
        → print_line_info line unquoted
          ≡ at_left 16 (shown unquoted name)
            ++ b'\t' ∷ print_line_attributes line (as_they_are unquoted name)
    cases [] unquoted e = rw (e, print_line_info) refl
    cases (c ∷ cs) true e = rw (e, print_line_info) refl
    cases (c ∷ cs) false e = rw (e, print_line_info) (rw (quoted_name_lem (c ∷ cs)) refl)

line_entry_lem :
    (info : ChipInfo) (cur : ℕ) (line : LineInfo) (unquoted : Bool)
    → line_entry true info cur line unquoted
      ≡ (if cur == 0 then heading info else []) ++ row unquoted cur line
unfolding line_entry line_title
line_entry_lem info cur line unquoted = rw (print_line_info_lem line unquoted) (simp (append_assoc))

entries : ChipInfo → (ℕ → LineInfo) → Bool → ℕ → ℕ → List ℕ
entries info infos unquoted cur zero = []
entries info infos unquoted cur (suc left) =
    line_entry true info cur (infos cur) unquoted ++ entries info infos unquoted (suc cur) left

entries-rows :
    (info : ChipInfo) (infos : ℕ → LineInfo) (unquoted : Bool) (cur left : ℕ)
    → entries info infos unquoted (suc cur) left ≡ rows infos unquoted (suc cur) left
unfolding entries
entries-rows info infos unquoted cur zero = refl
entries-rows info infos unquoted cur (suc left) =
    let below : (suc cur == 0) ≡ false = ground arith in
    rw
      (
        line_entry_lem info (suc cur) (infos (suc cur)) unquoted,
        entries-rows info infos unquoted (suc cur) left,
      )
      (rw below refl)

entries-table :
    (info : ChipInfo) (infos : ℕ → LineInfo) (unquoted : Bool) (left : ℕ)
    → entries info infos unquoted 0 (suc left) ≡ heading info ++ rows infos unquoted 0 (suc left)
unfolding entries
entries-table info infos unquoted left =
    rw (line_entry_lem info 0 (infos 0) unquoted, entries-rows info infos unquoted 0 left)
      (append_assoc (heading info) (row unquoted 0 (infos 0)) (rows infos unquoted 1 left))

module _ (kernel : Kernel) where
  open kernel use {World}

  list_from_step :
      (left : ℕ) (w : World) (c : Chip) (info : ChipInfo) (line : LineInfo) (cur chip_num n : ℕ)
      (strict unquoted : Bool) (out : List ℕ)
      → chip_get_line_info kernel w c cur true ≡ (w, ok line)
      → list_from kernel
          (suc left)
          w
          c
          info
          cur
          chip_num
          unquoted
          (record { num_found = n; strict = strict; chips = []; lines = [] })
          out
        ≡ list_from kernel left w c info
            (suc cur)
            chip_num
            unquoted
            (record { num_found = suc n; strict = strict; chips = []; lines = [] })
            (out ++ line_entry true info cur line unquoted)
  unfolding list_from mark_lines
  list_from_step left w c info line cur chip_num n strict unquoted out e =
      rw (e, list_from) (rw e refl)

  abbrev listed : World → Bool → ℕ → List ℕ → World × Run (LineResolver × List ℕ)
  listed w strict n out =
      (w, going (record { num_found = n; strict = strict; chips = []; lines = [] }, out))

  listed_eq :
      (w : World) (strict : Bool) {m m' : ℕ} {t t' : List ℕ}
      → m ≡ m'
      → t ≡ t'
      → listed w strict m t ≡ listed w strict m' t'
  listed_eq w strict h k = cc

  list_from-entries :
      (left : ℕ) (w : World) (c : Chip) (chip : GpiochipInfo) (raw : ℕ → V2LineInfo)
      (info : ChipInfo) (cur chip_num n : ℕ) (strict unquoted : Bool) (out : List ℕ)
      → Answers kernel c.fd chip raw
      → list_from kernel left w c info cur chip_num unquoted
          (record { num_found = n; strict = strict; chips = []; lines = [] })
          out
        ≡ (
          w,
          going (
            record { num_found = n + left; strict = strict; chips = []; lines = [] },
            out ++ entries info (λ o. described (raw o)) unquoted cur left,
          ),
        )
  unfolding list_from entries
  list_from-entries zero w c chip raw info cur chip_num n strict unquoted out a =
      listed_eq w strict (omega arith) (sym (append-nil out))
  list_from-entries (suc left) w c chip raw info cur chip_num n strict unquoted out a =
      let infos : ℕ → LineInfo = λ o. described (raw o) in
      list_from_step left w c info (infos cur) cur chip_num n strict unquoted out
        (chip_get_line_info-Answers kernel w c chip raw cur a)
      ∙ list_from-entries left w c chip raw info (suc cur) chip_num (suc n) strict unquoted
          (out ++ line_entry true info cur (infos cur) unquoted) a
      ∙ listed_eq w strict (omega arith) (
          append_assoc out (line_entry true info cur (infos cur) unquoted)
            (entries info infos unquoted (suc cur) left))

  -- Where no line is asked for, the listing of a chip that has lines and whose kernel answers each
  -- query prints, behind what was printed before, one heading with the chip's name and its number of
  -- lines and then a row for each line, in the order of the offsets: the offset at the right of
  -- three bytes, the name, in quotes if so wanted, at the left of sixteen, however long it is, and
  -- the attributes. Each line is counted.
  pub list_from-rows :
      (left : ℕ) (w : World) (c : Chip) (chip : GpiochipInfo) (raw : ℕ → V2LineInfo)
      (info : ChipInfo) (chip_num n : ℕ) (strict unquoted : Bool) (out : List ℕ)
      → Answers kernel c.fd chip raw
      → list_from kernel
          (suc left)
          w
          c
          info
          0
          chip_num
          unquoted
          (record { num_found = n; strict = strict; chips = []; lines = [] })
          out
        ≡ (
          w,
          going (
            record { num_found = n + suc left; strict = strict; chips = []; lines = [] },
            out ++ heading info ++ rows (λ o. described (raw o)) unquoted 0 (suc left),
          ),
        )
  list_from-rows left w c chip raw info chip_num n strict unquoted out a =
      let infos : ℕ → LineInfo = λ o. described (raw o) in
      list_from-entries (suc left) w c chip raw info 0 chip_num n strict unquoted out a
      ∙ rw (entries-table info infos unquoted left) (
          listed_eq w strict refl
            (sym (append_assoc out (heading info) (rows infos unquoted 0 (suc left)))))

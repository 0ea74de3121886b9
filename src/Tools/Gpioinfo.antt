-- ===== src/Tools/Gpioinfo.antt =====
-- tools/gpioinfo.c: the lines of chips are listed, all of them or those of the command line.
pub mod Laws
pub mod Options
mod Tests
use libgpiod.Prelude.{
  ℕ, zero, suc, ◌+◌, ◌-◌, ◌==◌, ltb, leb, Bool, true, false, not, ◌&&◌, ◌||◌, if◌then◌else◌, Option,
  none, some, List, [], ◌∷◌, ◌++◌, length, replicate, Result, ok, err,
}
use libgpiod.Prelude.Chars.{text}
use libgpiod.Kernel.{Kernel}
use libgpiod.ChipInfo.{ChipInfo}
use libgpiod.LineInfo.{LineInfo, get_offset, get_name}
use libgpiod.Device.{Files, check_gpiochip_device}
use libgpiod.Chip.{Chip, chip_open, chip_close, chip_get_info, chip_get_line_info}
use libgpiod.Tools.Strings.{bytes, decimal}
use libgpiod.Tools.Exit.{Run, going, died, no_chip_info, no_line_info, ◌>>=◌}
use libgpiod.Tools.Resolver.{
  ResolvedLine, LineResolver, on_chip, is_named, resolver_init, resolve_lines_by_offset,
  resolve_done,
}
use libgpiod.Tools.Resolver.Chips.{chip_paths}
use libgpiod.Tools.Resolver.Lookup.{is_some, none_found}
use libgpiod.Tools.Resolver.Validate.{validate_resolution}
use libgpiod.Tools.Printing.{print_line_attributes}

-- One round of the loop of gpioinfo's resolve_line: the line, and whether it counts as resolved.
unfoldable pub mark_one : Bool → LineInfo → ℕ → ResolvedLine → ResolvedLine × Bool
mark_one strict info chip_num line =
    let by_offset = line.resolved && (line.offset == get_offset info) && on_chip line chip_num in
    let here : ResolvedLine = record line {
      resolved = true;
      offset = get_offset info;
      chip_num = some chip_num;
    } in
    if line.resolved && not strict
    then (line, by_offset)
    else if is_named line.id info
    then (here, true)
    else (line, by_offset)

-- resolve_line of gpioinfo.
unfoldable pub mark_lines : Bool → LineInfo → ℕ → List ResolvedLine → List ResolvedLine × Bool
unfolding mark_one
mark_lines strict info chip_num [] = ([], false)
mark_lines strict info chip_num (line ∷ lines) =
    let (line', hit) = mark_one strict info chip_num line in
    let (lines', hits) = mark_lines strict info chip_num lines in (line' ∷ lines', hit || hits)

-- "%-16s": blanks up to 16 bytes.
abbrev pub left_16 : List ℕ → List ℕ
left_16 s = s ++ replicate (16 - length s) b' '

abbrev pub quoted_name : List ℕ → List ℕ
quoted_name name =
    if leb (length name) 14 then left_16 (b'"' ∷ name ++ bytes "\"") else b'"' ∷ name ++ bytes "\""

-- print_line_info
unfoldable pub print_line_info : LineInfo → Bool → List ℕ
unfolding get_name print_line_attributes
print_line_info info unquoted_strings = elim (get_name info) [
  | none ↦ left_16 (bytes "unnamed") ++ b'\t' ∷ print_line_attributes info true
  | some name ↦
      (if unquoted_strings then left_16 name else quoted_name name)
      ++ b'\t' ∷ print_line_attributes info unquoted_strings
]

-- "%3u": blanks in front, up to three bytes.
abbrev pub right_3 : List ℕ → List ℕ
right_3 s = replicate (3 - length s) b' ' ++ s

-- What stands in front of the info: the chip and the offset of a line that was asked for, or the
-- offset in a list of all, which begins with a title.
unfoldable pub line_title : Bool → ChipInfo → ℕ → List ℕ
unfolding text decimal
line_title all chip offset =
    if all
    then (if offset == 0
        then text chip.name ++ bytes " - " ++ decimal chip.num_lines (bytes " lines:\n")
        else [])
      ++ bytes "\tline "
      ++ right_3 (decimal offset [])
      ++ bytes ":"
    else text chip.name ++ b' ' ∷ decimal offset []

-- A line of the listing.
unfoldable pub line_entry : Bool → ChipInfo → ℕ → LineInfo → Bool → List ℕ
unfolding line_title print_line_info
line_entry all chip offset info unquoted =
    line_title all chip offset ++ b'\t' ∷ print_line_info info unquoted ++ bytes "\n"

pub record GpioinfoOptions : Type 0 where
  pub by_name : Bool
  pub strict : Bool
  pub unquoted_strings : Bool
  pub chip_id : Option (List ℕ)

abbrev pub no_lines : LineResolver → Bool
no_lines r = length r.lines == 0

module _ (kernel : Kernel) where
  open kernel use {World}

  -- The loop of list_lines over the lines that are left, from an offset on: the resolver and what is
  -- printed.
  unfoldable pub list_from :
      ℕ
      → World
      → Chip
      → ChipInfo
      → ℕ
      → ℕ
      → Bool
      → LineResolver
      → List ℕ
      → World × Run (LineResolver × List ℕ)
  unfolding mark_lines line_entry
  list_from zero w chip info offset chip_num unquoted r out = (w, going (r, out))
  list_from (suc left) w chip info offset chip_num unquoted r out =
      let (w', answer) = chip_get_line_info kernel w chip offset true in
      elim (not (no_lines r) && resolve_done r) [
        | true ↦ (w, going (r, out))
        | false ↦ elim answer [
          | err e ↦ (w', died (no_line_info offset e))
          | ok line_info ↦
              let (lines, hit) = mark_lines r.strict line_info chip_num r.lines in
              let passed =
                list_from left w' chip info (suc offset) chip_num unquoted
                  (record r { lines = lines }) out in
              let listed =
                list_from left w' chip info (suc offset) chip_num unquoted
                  (record r { lines = lines; num_found = suc r.num_found })
                  (out ++ line_entry (no_lines r) info offset line_info unquoted) in
              if no_lines r || hit then listed else passed
        ]
      ]

  -- list_lines, once the chip's info is read.
  unfoldable pub list_info :
      World × Result ChipInfo
      → Chip
      → ℕ
      → Bool
      → Bool
      → LineResolver
      → List ℕ
      → World × Run (LineResolver × List ℕ)
  unfolding list_from
  list_info (w, err e) chip chip_num offsets unquoted r out = (w, died (no_chip_info chip.path e))
  list_info (w, ok info) chip chip_num offsets unquoted r out =
      let r' =
        if (chip_num == 0) && offsets then (resolve_lines_by_offset r info.num_lines).0 else r in
      list_from info.num_lines w chip info 0 chip_num unquoted r' out

  -- list_lines; `offsets` tells that a chip is given and lines are not only names.
  unfoldable pub list_lines :
      World → Chip → ℕ → Bool → Bool → LineResolver → List ℕ → World × Run (LineResolver × List ℕ)
  unfolding list_info
  list_lines w chip chip_num offsets unquoted r out =
      list_info (chip_get_info kernel w chip true) chip chip_num offsets unquoted r out

  -- What main has after some chips: it goes on with the resolver, what is printed and whether all
  -- chips could be opened, or it has returned EXIT_FAILURE with what is printed.
  pub data Listing : Type 0 where
    listing : LineResolver → List ℕ → Bool → Listing
    gave_up : List ℕ → Listing

  abbrev pub after_list :
      World × Run (LineResolver × List ℕ)
      → Chip
      → Bool
      → (World → LineResolver → List ℕ → Bool → World × Run Listing)
      → World × Run Listing
  after_list (w, died death) chip success next = (w, died death)
  after_list (w, going (r, out)) chip success next =
      next (chip_close kernel w (some chip)) r out success

  -- Once a chip is open, or is not.
  unfoldable pub list_opened :
      World × Result Chip
      → Bool
      → ℕ
      → Bool
      → Bool
      → LineResolver
      → List ℕ
      → Bool
      → (World → LineResolver → List ℕ → Bool → World × Run Listing)
      → World × Run Listing
  unfolding list_lines
  list_opened (w, err e) chip_given chip_num by_name unquoted r out success next =
      if chip_given then (w, going (gave_up out)) else next w r out false
  list_opened (w, ok chip) chip_given chip_num by_name unquoted r out success next =
      after_list (list_lines w chip chip_num (chip_given && not by_name) unquoted r out) chip
        success next

  module _ (files : Files) where
    -- The loop of main over the paths, from chip i on.
    unfoldable pub list_chips :
        Bool
        → Bool
        → Bool
        → ℕ
        → List (List ℕ)
        → World
        → LineResolver
        → List ℕ
        → Bool
        → World × Run Listing
    unfolding list_opened
    list_chips chip_given by_name unquoted i [] w r out success = (w, going (listing r out success))
    list_chips chip_given by_name unquoted i (path ∷ paths) w r out success =
        let opened =
          chip_open kernel w (some path) (λ p. check_gpiochip_device files true (some p)) true
            true in
        list_opened opened chip_given i by_name unquoted r out success (λ w' r' out' success'.
          list_chips chip_given by_name unquoted (suc i) paths w' r' out' success')

    -- The end of main: what is printed and whether it returns EXIT_SUCCESS.
    unfoldable pub list_end : Listing → Run (List ℕ × Bool)
    list_end (gave_up out) = going (out, false)
    list_end (listing r out success) = validate_resolution r >>= λ _.
        going (out, success && (no_lines r || (r.num_found == length r.lines)))

    abbrev pub list_found :
        GpioinfoOptions → List (List ℕ) → World → Run (List (List ℕ)) → World × Run (List ℕ × Bool)
    list_found options ids w (died death) = (w, died death)
    list_found options ids w (going paths) = elim (none_found options.chip_id paths) [
      | some death ↦ (w, died death)
      | none ↦
          let chip_given = is_some options.chip_id in
          let by_name = options.by_name || not chip_given in
          let (w', answer) =
            list_chips chip_given by_name options.unquoted_strings 0 paths w
              (resolver_init ids options.strict by_name) [] true in
          (w', answer >>= list_end)
    ]

    -- main, on the entries of /dev and the lines of the command line.
    unfoldable pub gpioinfo_main :
        World
        → Result (List (List ℕ))
        → GpioinfoOptions
        → List (List ℕ)
        → World × Run (List ℕ × Bool)
    unfolding list_chips list_end chip_paths resolver_init
    gpioinfo_main w dev options ids =
        list_found options ids w (chip_paths files dev options.chip_id)

-- ===== src/Tools/Gpiodetect.antt =====
-- tools/gpiodetect.c: a line of text for each chip.
mod Tests
use libgpiod.Prelude.{
  ℕ, Bool, true, false, ◌&&◌, Option, none, some, List, [], ◌∷◌, ◌++◌, Result, ok, err,
}
use libgpiod.Prelude.Chars.{text}
use libgpiod.Kernel.{Kernel}
use libgpiod.ChipInfo.{ChipInfo}
use libgpiod.Device.{Files, check_gpiochip_device}
use libgpiod.Chip.{Chip, chip_open, chip_close, chip_get_info}
use libgpiod.Tools.Strings.{bytes, decimal}
use libgpiod.Tools.Exit.{Run, going, died, no_chip_info}
use libgpiod.Tools.Resolver.Chips.{chip_path_lookup, all_chip_paths}

-- The line for a chip.
unfoldable pub chip_text : ChipInfo → List ℕ
unfolding text decimal
chip_text info =
    text info.name
    ++ bytes " ["
    ++ text info.label
    ++ bytes "] ("
    ++ decimal info.num_lines (bytes " lines)\n")

module _ (kernel : Kernel) where
  open kernel use {World}

  unfoldable pub print_read_info : World × Result ChipInfo → Chip → World × Run (List ℕ × Bool)
  unfolding chip_text
  print_read_info (w, err e) chip = (w, died (no_chip_info chip.path e))
  print_read_info (w, ok info) chip =
      (chip_close kernel w (some chip), going (chip_text info, true))

  -- print_chip_info: what is printed on standard output, and whether the chip could be opened.
  unfoldable pub print_opened : World × Result Chip → World × Run (List ℕ × Bool)
  unfolding print_read_info
  print_opened (w, err e) = (w, going ([], false))
  print_opened (w, ok chip) = print_read_info (chip_get_info kernel w chip true) chip

  abbrev pub joined_text : List ℕ × Bool → World × Run (List ℕ × Bool) → World × Run (List ℕ × Bool)
  joined_text first (w, died death) = (w, died death)
  joined_text first (w, going rest) = (w, going (first.0 ++ rest.0, first.1 && rest.1))

  module _ (files : Files) where
    unfoldable pub print_chip_info : World → List ℕ → World × Run (List ℕ × Bool)
    unfolding print_opened
    print_chip_info w path =
        print_opened (
          chip_open kernel w (some path) (λ p. check_gpiochip_device files true (some p)) true true)

    -- The loops of main over the paths: `none` is a chip of the command line that is not found.
    unfoldable pub print_chips : World → List (Option (List ℕ)) → World × Run (List ℕ × Bool)
    unfolding print_chip_info
    print_chips w [] = (w, going ([], true))
    print_chips w (none ∷ paths) = joined_text ([], false) (print_chips w paths)
    print_chips w (some path ∷ paths) =
        let (w', answer) = print_chip_info w path in
        elim answer [
          | died death ↦ (w', died death)
          | going first ↦ joined_text first (print_chips w' paths)
        ]

    abbrev pub found_paths : List (List ℕ) → List (Option (List ℕ))
    found_paths [] = []
    found_paths (path ∷ paths) = some path ∷ found_paths paths

    abbrev pub looked_up : List (List ℕ) → List (Option (List ℕ))
    looked_up [] = []
    looked_up (id ∷ ids) = chip_path_lookup files id ∷ looked_up ids

    -- main: what is printed and whether it returns EXIT_SUCCESS.
    unfoldable pub gpiodetect_main :
        World → Result (List (List ℕ)) → List (List ℕ) → World × Run (List ℕ × Bool)
    unfolding print_chips all_chip_paths chip_path_lookup
    gpiodetect_main w dev [] = elim (all_chip_paths files dev) [
      | died death ↦ (w, died death)
      | going paths ↦ print_chips w (found_paths paths)
    ]
    gpiodetect_main w dev (id ∷ ids) = print_chips w (looked_up (id ∷ ids))

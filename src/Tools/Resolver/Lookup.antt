-- ===== src/Tools/Resolver/Lookup.antt =====
-- resolve_lines of tools/tools-common.c: the walk over the chips and over the lines of each.
use libgpiod.Prelude.{
  ℕ, zero, suc, ◌==◌, Bool, true, false, not, ◌&&◌, ◌||◌, if◌then◌else◌, Option, none, some, List,
  [], ◌∷◌, ◌++◌, Errno, Result, ok, err, errno,
}
use libgpiod.Kernel.{Kernel}
use libgpiod.ChipInfo.{ChipInfo}
use libgpiod.Device.{Files, check_gpiochip_device}
use libgpiod.Chip.{Chip, chip_open, chip_close, chip_get_info, chip_get_line_info}
use libgpiod.Tools.Exit.{
  Run, going, died, Death, no_such_chip, cannot_open, no_chip_info, no_line_info,
}
use libgpiod.Tools.Resolver.{
  LineResolver, resolve_line, resolve_lines_by_offset, resolve_done, resolver_init,
}
use libgpiod.Tools.Resolver.Chips.{chip_paths}

abbrev pub is_some {ℓ} : {A : Type ℓ} → Option A → Bool
is_some none = false
is_some (some a) = true

-- `errno == EACCES`
abbrev pub is_eacces : Errno → Bool
is_eacces (errno n) = n == 13
is_eacces _ = false

abbrev pub none_found : Option (List ℕ) → List (List ℕ) → Option Death
none_found (some id) [] = some (no_such_chip id)
none_found _ _ = none

module _ (kernel : Kernel) where
  open kernel use {World}

  -- The loop over the lines that are left, from an offset on; `used` is chip_used.
  unfoldable pub scan_lines :
      ℕ → World → Chip → ℕ → ℕ → LineResolver → Bool → World × Run (LineResolver × Bool)
  scan_lines zero w chip offset i r used = (w, going (r, used))
  scan_lines (suc left) w chip offset i r used =
      let (w', answer) = chip_get_line_info kernel w chip offset true in
      elim (resolve_done r) [
        | true ↦ (w, going (r, used))
        | false ↦ elim answer [
          | err e ↦ (w', died (no_line_info offset e))
          | ok info ↦ elim (resolve_line r info i) [
            | died death ↦ (w', died death)
            | going (r', hit) ↦ scan_lines left w' chip (suc offset) i r' (used || hit)
          ]
        ]
      ]

  -- A chip that was used gets the next number.
  abbrev pub keep_chip : ChipInfo → List ℕ → LineResolver → Bool → LineResolver
  keep_chip info path r used =
      if used then record r { chips = r.chips ++ record { info = info; path = path } ∷ [] } else r

  -- Once the lines are scanned: the chip is closed, and the walk goes on.
  pub after_scan :
      World × Run (LineResolver × Bool)
      → Chip
      → ChipInfo
      → List ℕ
      → (World → LineResolver → World × Run LineResolver)
      → World × Run LineResolver
  after_scan (w, died death) chip info path next = (w, died death)
  after_scan (w, going (r, used)) chip info path next =
      next (chip_close kernel w (some chip)) (keep_chip info path r used)

  -- Once the chip's info is read: the offsets on the first chip, then the scan.
  pub with_info :
      Bool
      → World × Result ChipInfo
      → Chip
      → ℕ
      → List ℕ
      → LineResolver
      → (World → LineResolver → World × Run LineResolver)
      → World × Run LineResolver
  unfolding scan_lines after_scan
  with_info offsets (w, err e) chip i path r next = (w, died (no_chip_info path e))
  with_info offsets (w, ok info) chip i path r next =
      let (r', used) =
        if (i == 0) && offsets then resolve_lines_by_offset r info.num_lines else (r, false) in
      after_scan (scan_lines info.num_lines w chip 0 i r' used) chip info path next

  -- Once the chip is open, or is not. Without a chip on the command line, one that may not be
  -- opened is passed over.
  pub with_chip :
      Option (List ℕ)
      → Bool
      → World × Result Chip
      → ℕ
      → List ℕ
      → LineResolver
      → (World → LineResolver → World × Run LineResolver)
      → World × Run LineResolver
  unfolding with_info
  with_chip chip_id by_name (w, err e) i path r next =
      if is_eacces e && not (is_some chip_id) then next w r else (w, died (cannot_open path e))
  with_chip chip_id by_name (w, ok chip) i path r next =
      with_info (is_some chip_id && not by_name) (chip_get_info kernel w chip true) chip i path r
        next

  module _ (files : Files) where
    -- The loop over the paths, from chip i on.
    unfoldable pub walk_chips :
        Option (List ℕ) → Bool → ℕ → List (List ℕ) → World → LineResolver → World × Run LineResolver
    unfolding with_chip
    walk_chips chip_id by_name i [] w r = (w, going r)
    walk_chips chip_id by_name i (path ∷ paths) w r =
        let next : World → LineResolver → World × Run LineResolver =
          λ w' r'. walk_chips chip_id by_name (suc i) paths w' r' in
        let opened =
          chip_open kernel w (some path) (λ p. check_gpiochip_device files true (some p)) true
            true in
        if resolve_done r then (w, going r) else with_chip chip_id by_name opened i path r next

    -- resolve_lines. Without a chip, lines are resolved by name.
    unfoldable pub resolve_lines :
        World
        → Result (List (List ℕ))
        → List (List ℕ)
        → Option (List ℕ)
        → Bool
        → Bool
        → World × Run LineResolver
    unfolding walk_chips
    resolve_lines w dev ids chip_id strict by_name =
        let names = by_name || not (is_some chip_id) in
        elim (chip_paths files dev chip_id) [
          | died death ↦ (w, died death)
          | going paths ↦ elim (none_found chip_id paths) [
            | some death ↦ (w, died death)
            | none ↦ walk_chips chip_id names 0 paths w (resolver_init ids strict names)
          ]
        ]

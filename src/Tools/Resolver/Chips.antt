-- ===== src/Tools/Resolver/Chips.antt =====
-- The chip devices of the command line: isuint, chip_path_lookup, chip_paths, all_chip_paths and the
-- filter of the directory scan, of tools/tools-common.c.
use libgpiod.Prelude.{
  ℕ, ◌==◌, Bool, true, false, not, ◌&&◌, if◌then◌else◌, Option, none, some, List, [], ◌∷◌, ◌++◌,
  Result, ok, err,
}
use libgpiod.Device.{FileKind, symbolic_link, Files, is_gpiochip_device}
use libgpiod.Tools.Strings.{bytes, is_digit}
use libgpiod.Tools.Exit.{Run, going, died, cannot_scan}

abbrev pub is_link : FileKind → Bool
is_link symbolic_link = true
is_link _ = false

-- isuint: also true of the empty string.
unfoldable pub isuint : List ℕ → Bool
isuint [] = true
isuint (c ∷ cs) = is_digit c && isuint cs

-- strchr(id, c) != NULL
unfoldable pub has_byte : ℕ → List ℕ → Bool
has_byte b [] = false
has_byte b (c ∷ cs) = if c == b then true else has_byte b cs

-- The path that chip_path_lookup tries for an id.
unfoldable pub chip_path : List ℕ → List ℕ
chip_path id =
    if isuint id
    then bytes "/dev/gpiochip" ++ id
    else if has_byte b'/' id
    then id
    else bytes "/dev/" ++ id

module _ (files : Files) where
  unfoldable pub chip_path_lookup : List ℕ → Option (List ℕ)
  chip_path_lookup id =
      if is_gpiochip_device files true (some (chip_path id)) then some (chip_path id) else none

  -- chip_dir_filter, on the name of an entry of /dev.
  unfoldable pub chip_dir_filter : List ℕ → Bool
  chip_dir_filter name = elim (files.lstat (bytes "/dev/" ++ name)) [
    | err e ↦ false
    | ok st ↦ not (is_link st.kind) && is_gpiochip_device files true (some (bytes "/dev/" ++ name))
  ]

  pub kept_paths : List (List ℕ) → List (List ℕ)
  unfolding chip_dir_filter
  kept_paths [] = []
  kept_paths (name ∷ names) =
      let rest = kept_paths names in
      if chip_dir_filter name then (bytes "/dev/" ++ name) ∷ rest else rest

  -- all_chip_paths; `dev` holds the entries of /dev in the order of versionsort, as scandir gives
  -- them.
  unfoldable pub all_chip_paths : Result (List (List ℕ)) → Run (List (List ℕ))
  unfolding kept_paths
  all_chip_paths (err e) = died (cannot_scan e)
  all_chip_paths (ok names) = going (kept_paths names)

  -- chip_paths
  unfoldable pub chip_paths : Result (List (List ℕ)) → Option (List ℕ) → Run (List (List ℕ))
  unfolding chip_path_lookup all_chip_paths
  chip_paths dev none = all_chip_paths dev
  chip_paths dev (some id) = elim (chip_path_lookup id) [
    | none ↦ going []
    | some path ↦ going (path ∷ [])
  ]

-- ===== src/Tools/Banner.antt =====
-- The banners of tools/gpioset.c, tools/gpiomon.c and tools/gpionotify.c, as the bytes they print. The
-- programs end before where no line is given, so the first line is an argument of its own.
use libgpiod.Prelude.{ℕ, List, [], ◌∷◌, ◌++◌}
use libgpiod.Tools.Strings.{bytes}

-- The loop over the lines but the last, and the last one.
unfoldable pub listed : List ℕ → List (List ℕ) → List ℕ
listed line [] = bytes "and '" ++ line ++ bytes "'...\n"
listed line (next ∷ rest) = bytes "'" ++ line ++ bytes "', " ++ listed next rest

-- print_banner of the three programs, which differ in the first word.
abbrev pub banner : List ℕ → List ℕ → List (List ℕ) → List ℕ
banner verb line [] = verb ++ bytes " line '" ++ line ++ bytes "'...\n"
banner verb line (next ∷ rest) = verb ++ bytes " lines " ++ listed line (next ∷ rest)

unfoldable pub set_banner : List ℕ → List (List ℕ) → List ℕ
set_banner line rest = banner (bytes "Setting") line rest

unfoldable pub monitor_banner : List ℕ → List (List ℕ) → List ℕ
monitor_banner line rest = banner (bytes "Monitoring") line rest

unfoldable pub watch_banner : List ℕ → List (List ℕ) → List ℕ
watch_banner line rest = banner (bytes "Watching") line rest

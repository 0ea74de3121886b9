-- ===== src/Tools/Gpioinfo/Tests.antt =====
-- Listings of the lines of a chip with three lines.
use libgpiod.Prelude.Chars.{same_bytes}
use libgpiod.Prelude.Chars.{text}
use libgpiod.LineInfo.{get_name}
use libgpiod.Prelude.{◌≡◌, refl, true, false, some, [], ◌∷◌, ◌++◌}
use libgpiod.Fakes.{fake_kernel, fake_chip, fake_line}
use libgpiod.ChipInfo.{ChipInfo}
use libgpiod.LineInfo.{LineInfo, described}
use libgpiod.Tools.Strings.{bytes}
use libgpiod.Tools.Exit.{going}
use libgpiod.Tools.Resolver.{line_init}
use libgpiod.Tools.Gpioinfo.{mark_lines, line_title, list_from, quoted_name}
use libgpiod.Tools.Gpioinfo.Laws.{heading, rows, list_from-rows}

abbrev info : ChipInfo
info = record { num_lines = 3; name = bytes "c"; label = bytes "l" }

titles :
    (line_title true info 0 ≡ bytes "c - 3 lines:\n\tline   0:")
    × (line_title false info 7 ≡ bytes "c 7")
unfolding line_title
titles = (refl, refl)

padded_name : quoted_name (bytes "b") ≡ bytes "\"b\"             "
padded_name = refl

abbrev named : LineInfo
named = record (described (fake_line 1)) { name = bytes "b"; offset = 2 }

marked : mark_lines false named 0 (line_init true (bytes "b") ∷ line_init true (bytes "z") ∷ []) ≡ (
  record (line_init true (bytes "b")) { resolved = true; chip_num = some 0; offset = 2 }
      ∷ line_init true (bytes "z")
      ∷ [],
  true,
)
unfolding mark_lines get_name text same_bytes
marked = refl

list_from-rows_example :
    list_from fake_kernel 3 1
      (record { fd = 3; path = [] })
      info
      0
      0
      false
      (record { num_found = 0; strict = false; chips = []; lines = [] })
      []
    ≡ (
      1,
      going (
        record { num_found = 3; strict = false; chips = []; lines = [] },
        heading info ++ rows (λ o. described (fake_line o)) false 0 3,
      ),
    )
list_from-rows_example =
    list_from-rows fake_kernel 2 1 (record { fd = 3; path = [] }) fake_chip fake_line info 0 0 false
      false [] ((λ w. refl), (λ w offset. refl))

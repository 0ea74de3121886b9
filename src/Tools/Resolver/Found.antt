-- ===== src/Tools/Resolver/Found.antt =====
-- What a scan of one chip finds where lines need not be unique.
use libgpiod.Prelude.{
  ℕ, zero, suc, ◌+◌, ◌≤◌, ◌==◌, ltb, leb, ◌≡◌, refl, ◌∙◌, sym, Bool, true, false, not, ◌&&◌, ◌||◌,
  if◌then◌else◌, none, some, List, [], ◌∷◌, map, length, arith, All, Bool-cases, inl, inr, ok,
}
use libgpiod.Uapi.{GpiochipInfo, V2LineInfo}
use libgpiod.Kernel.{Kernel}
use libgpiod.LineInfo.RoundTrip.{get_offset-described}
use libgpiod.LineInfo.{LineInfo, get_offset, described}
use libgpiod.Chip.{Chip, chip_get_line_info}
use libgpiod.Chip.Laws.{Answers, chip_get_line_info-Answers}
use libgpiod.Tools.Exit.{going}
use libgpiod.Tools.Resolver.{
  ResolvedLine, LineResolver, on_chip, is_named, resolve_one, resolve_each, resolve_line,
  resolve_done,
}
use libgpiod.Tools.Resolver.Lookup.{scan_lines}

-- The line at the first offset from `cur` on, among the lines left, whose info has the name.
abbrev pub first_named : ℕ → (ℕ → LineInfo) → ℕ → ℕ → ResolvedLine → ResolvedLine
first_named chips infos zero cur line = line
first_named chips infos (suc left) cur line =
    let later = first_named chips infos left (suc cur) line in
    if is_named line.id (infos cur)
    then record line {
      offset = cur;
      info = some (infos cur);
      chip_num = some chips;
      resolved = true;
    }
    else later

-- A line that is resolved by offset gets the info of its own offset; any other the first line with
-- its name, if there is one.
abbrev pub located : ℕ → ℕ → (ℕ → LineInfo) → ℕ → ℕ → ResolvedLine → ResolvedLine
located chips i infos left cur line =
    if line.resolved
    then (if on_chip line i && leb cur line.offset && ltb line.offset (cur + left)
        then record line { info = some (infos line.offset) }
        else line)
    else first_named chips infos left cur line

abbrev pub has_info : ResolvedLine → Bool
has_info line = elim line.info [ none ↦ false | some info ↦ true ]

-- A line with an info is resolved, and the scan of chip i will not meet it from `cur` on.
abbrev pub IsSettled : ℕ → ℕ → ResolvedLine → Type 0
IsSettled i cur line =
    (not (has_info line) || (line.resolved && not (on_chip line i && leb cur line.offset))) ≡ true

abbrev pub count_found : List ResolvedLine → ℕ
count_found [] = 0
count_found (line ∷ lines) = (if has_info line then 1 else 0) + count_found lines

-- What one round does to a line that need not be unique, and how often it counts it.
abbrev pub settled : ℕ → ℕ → ℕ → LineInfo → ResolvedLine → ResolvedLine
settled chips i cur info line =
    if line.resolved
    then (if (line.offset == cur) && on_chip line i then record line { info = some info } else line)
    else if is_named line.id info
    then record line { offset = cur; info = some info; chip_num = some chips; resolved = true }
    else line

abbrev pub hits : ℕ → ℕ → LineInfo → ResolvedLine → ℕ
hits i cur info line =
    if line.resolved
    then (if (line.offset == cur) && on_chip line i then 1 else 0)
    else if is_named line.id info
    then 1
    else 0

-- The scan of chip i, whose number is `chips`, at an offset.
module _ (chips i cur : ℕ) where
  resolve_one-settled :
      (info : LineInfo) (line : ResolvedLine)
      → get_offset info ≡ cur
      → resolve_one false chips info i line
        ≡ going (settled chips i cur info line, hits i cur info line)
  unfolding resolve_one
  resolve_one-settled info line o = rw o (ground arith)

  located-settled :
      (infos : ℕ → LineInfo) (left : ℕ) (line : ResolvedLine)
      → located chips i infos left (suc cur) (settled chips i cur (infos cur) line)
        ≡ located chips i infos (suc left) cur line
  located-settled infos left line = elim (Bool-cases line.resolved) [
    | inl e ↦ rw e (ground arith)
    | inr e ↦ elim (Bool-cases (is_named line.id (infos cur))) [
      | inl f ↦ rw (f, e) (ground arith)
      | inr f ↦ rw (f, e) (ground arith)
    ]
  ]

  settled-IsSettled :
      (info : LineInfo) (line : ResolvedLine)
      → IsSettled i cur line
      → IsSettled i (suc cur) (settled chips i cur info line)
  settled-IsSettled info line s = ground arith

  count_found-settled :
      (info : LineInfo) (line : ResolvedLine)
      → IsSettled i cur line
      → count_found (settled chips i cur info line ∷ [])
        ≡ count_found (line ∷ []) + hits i cur info line
  count_found-settled info line s = ground arith

-- All lines in one round.
module _ (chips i cur : ℕ) (infos : ℕ → LineInfo) (o : get_offset (infos cur) ≡ cur) where
  abbrev total_hits : List ResolvedLine → ℕ
  total_hits [] = 0
  total_hits (line ∷ lines) = hits i cur (infos cur) line + total_hits lines

  resolve_each-settled :
      (lines : List ResolvedLine)
      → resolve_each false chips (infos cur) i lines
        ≡ going (map (settled chips i cur (infos cur)) lines, total_hits lines)
  unfolding resolve_each
  resolve_each-settled [] = refl
  resolve_each-settled (line ∷ lines) =
      rw (resolve_one-settled chips i cur (infos cur) line o, resolve_each-settled lines) refl

  map-located :
      (left : ℕ) (lines : List ResolvedLine)
      → map (located chips i infos left (suc cur)) (map (settled chips i cur (infos cur)) lines)
        ≡ map (located chips i infos (suc left) cur) lines
  map-located left [] = refl
  map-located left (line ∷ lines) =
      cc (located-settled chips i cur infos left line, map-located left lines)

  All-settled :
      (lines : List ResolvedLine)
      → All (IsSettled i cur) lines
      → All (IsSettled i (suc cur)) (map (settled chips i cur (infos cur)) lines)
        × (count_found (map (settled chips i cur (infos cur)) lines)
            ≡ count_found lines + total_hits lines)
  All-settled [] s = (tt, refl)
  All-settled (line ∷ lines) s =
      let (rest, count) = All-settled lines s.1 in
      (
        (settled-IsSettled chips i cur (infos cur) line s.0, rest),
        omega (arith, count, count_found-settled chips i cur (infos cur) line s.0),
      )

-- The resolver during a scan of chip i: the lines found are counted, and settled before `cur`.
pub record IsScanned (i cur : ℕ) (r : LineResolver) : Type 0 where
  pub counted : r.num_found ≡ count_found r.lines
  pub lines_settled : All (IsSettled i cur) r.lines
  pub lenient : r.strict ≡ false

count_found-le : (lines : List ResolvedLine) → count_found lines ≤ length lines
count_found-le [] = omega arith
count_found-le (line ∷ lines) = ground (arith, count_found-le lines)

located-has_info :
    (chips i : ℕ) (infos : ℕ → LineInfo) (left cur : ℕ) (line : ResolvedLine)
    → IsSettled i cur line
    → has_info line ≡ true
    → located chips i infos left cur line ≡ line
located-has_info chips i infos left cur line s h = ground arith

-- Where every line is found, the rest of a scan finds nothing new.
located_complete :
    (chips i : ℕ) (infos : ℕ → LineInfo) (left cur : ℕ) (lines : List ResolvedLine)
    → All (IsSettled i cur) lines
    → length lines ≤ count_found lines
    → map (located chips i infos left cur) lines ≡ lines
located_complete chips i infos left cur [] s h = refl
located_complete chips i infos left cur (line ∷ lines) s h = ground (
  arith,
  count_found-le lines,
  located_complete chips i infos left cur lines s.1,
  located-has_info chips i infos left cur line s.0,
)

located-zero :
    (chips i : ℕ) (infos : ℕ → LineInfo) (cur : ℕ) (lines : List ResolvedLine)
    → map (located chips i infos 0 cur) lines ≡ lines
located-zero chips i infos cur [] = refl
located-zero chips i infos cur (line ∷ lines) = ground (arith, located-zero chips i infos cur lines)

resolve_line-settled :
    (r : LineResolver) (i cur : ℕ) (infos : ℕ → LineInfo) (o : get_offset (infos cur) ≡ cur)
    → r.strict ≡ false
    → resolve_line r (infos cur) i
      ≡ going (
        record r {
          lines = map (settled (length r.chips) i cur (infos cur)) r.lines;
          num_found = r.num_found + total_hits (length r.chips) i cur infos o r.lines;
        },
        not (total_hits (length r.chips) i cur infos o r.lines == 0),
      )
unfolding resolve_line
resolve_line-settled r i cur infos o e =
    rw (e, resolve_line) (rw (resolve_each-settled (length r.chips) i cur infos o r.lines) refl)

module _ (kernel : Kernel) where
  open kernel use {World}

  scan_lines_step :
      (left : ℕ) (w : World) (c : Chip) (info : LineInfo) (cur i : ℕ) (r r' : LineResolver)
      (used hit : Bool)
      → resolve_done r ≡ false
      → chip_get_line_info kernel w c cur true ≡ (w, ok info)
      → resolve_line r info i ≡ going (r', hit)
      → scan_lines kernel (suc left) w c cur i r used
        ≡ scan_lines kernel left w c (suc cur) i r' (used || hit)
  unfolding scan_lines
  scan_lines_step left w c info cur i r r' used hit e a f =
      rw (e, scan_lines) (rw a (rw f (rw a refl)))

  -- A scan of a chip through a kernel that answers each query, where lines need not be unique, ends
  -- with each line at the place that a scan of all offsets gives it: a line that is not resolved yet
  -- at the first offset whose line has its name, and one that is resolved by offset with the info of
  -- its offset. So the early exit loses nothing; and the lines found are counted.
  pub scan_lines-located :
      (left : ℕ) (w : World) (c : Chip) (chip : GpiochipInfo) (raw : ℕ → V2LineInfo) (cur i : ℕ)
      (r : LineResolver) (used : Bool)
      → Answers kernel c.fd chip raw
      → ((n : ℕ) → (raw n).offset ≡ n)
      → IsScanned i cur r
      → (r' : LineResolver) × (used' : Bool) × (scan_lines kernel left w c cur i r used
          ≡ (w, going (r', used')))
        × (r'.lines ≡ map (located (length r.chips) i (λ n. described (raw n)) left cur) r.lines)
        × (r'.num_found ≡ count_found r'.lines)
  unfolding scan_lines
  scan_lines-located zero w c chip raw cur i r used a o v = (
    r,
    used,
    refl,
    sym (located-zero (length r.chips) i (λ n. described (raw n)) cur r.lines),
    v.counted,
  )
  scan_lines-located (suc left) w c chip raw cur i r used a o v =
      elim (Bool-cases (resolve_done r)) [
        | inl e ↦ (
          r,
          used,
          rw (e, scan_lines) refl,
          sym (
              located_complete (length r.chips) i (λ n. described (raw n)) (suc left) cur r.lines
                v.lines_settled (ground arith)),
          v.counted,
        )
        | inr e ↦
            let infos : ℕ → LineInfo = λ n. described (raw n) in
            let at : get_offset (infos cur) ≡ cur = get_offset-described (raw cur) ∙ o cur in
            let (settled_lines, count) =
              All-settled (length r.chips) i cur infos at r.lines v.lines_settled in
            let r' : LineResolver = record r {
              lines = map (settled (length r.chips) i cur (infos cur)) r.lines;
              num_found = r.num_found + total_hits (length r.chips) i cur infos at r.lines;
            } in
            let hit = not (total_hits (length r.chips) i cur infos at r.lines == 0) in
            let scanned : IsScanned i (suc cur) r' = record {
              counted = omega (arith, v.counted, count);
              lines_settled = settled_lines;
              lenient = v.lenient;
            } in
            let (r'', used', scan, lines, counted) =
              scan_lines-located left w c chip raw (suc cur) i r' (used || hit) a o scanned in
            (
              r'',
              used',
              scan_lines_step left w c (infos cur) cur i r r' used hit e
                    (chip_get_line_info-Answers kernel w c chip raw cur a)
                    (resolve_line-settled r i cur infos at v.lenient)
                  ∙ scan,
              lines ∙ map-located (length r.chips) i cur infos at left r.lines,
              counted,
            )
      ]

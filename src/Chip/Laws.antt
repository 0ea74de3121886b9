-- ===== src/Chip/Laws.antt =====
-- Looking up a line by its name, requesting lines, and waiting, through any kernel.
use libgpiod.Prelude.{
  ℕ, zero, suc, ◌+◌, ◌≤◌, ◌<◌, ◌≡◌, refl, ◌∙◌, ap, inl, inr, Bool, true, false, if◌then◌else◌,
  Option, some, List, Result, ok, err, enomem, enoent, arith, Bool-cases, subst, ◌≢◌, ◌&&◌,
}
use libgpiod.Prelude.Chars.{str_equal}
use libgpiod.Uapi.{GpiochipInfo, V2LineInfo, V2LineRequest}
use libgpiod.Kernel.{Kernel, IoctlReturn}
use libgpiod.RequestConfig.{RequestConfig}
use libgpiod.LineConfig.{LineConfig}
use libgpiod.LineRequest.{request_from_uapi}
use libgpiod.LineInfo.{described, line_info_from_uapi}
use libgpiod.Chip.{
  chip_get_line_info, Chip, find_name, find_line, chip_read_line_info, read_chip_info,
  get_line_offset_from_name, keep_or_close, requested, ioctl_get_line, request_with, request_uapi,
  request_lines,
}

-- The first offset from `offset` on whose line has the name, among the lines left.
abbrev pub first_named : (ℕ → V2LineInfo) → List ℕ → ℕ → ℕ → Result ℕ
first_named info name zero offset = err enoent
first_named info name (suc left) offset =
    let rest = first_named info name left (suc offset) in
    if str_equal name (info offset).name then ok offset else rest

first_named-ok :
    (info : ℕ → V2LineInfo) (name : List ℕ) (left offset n : ℕ)
    → first_named info name left offset ≡ ok n
    → (n < offset + left) × (str_equal name (info n).name ≡ true)
first_named-ok info name zero offset n h = cc
first_named-ok info name (suc left) offset n h =
    elim (Bool-cases (str_equal name (info offset).name)) [
      | inl e ↦
          let here : offset ≡ n = ground arith in
          (omega arith, subst (λ k. str_equal name (info k).name ≡ true) here e)
      | inr e ↦
          let later : first_named info name left (suc offset) ≡ ok n = ground arith in
          let (below, named) = first_named-ok info name left (suc offset) n later in
          (omega arith, named)
    ]

first_named-found :
    (info : ℕ → V2LineInfo) (name : List ℕ) (left offset m : ℕ)
    → offset ≤ m
    → m < offset + left
    → str_equal name (info m).name ≡ true
    → (n : ℕ) × (first_named info name left offset ≡ ok n)
      × (n ≤ m)
      × (str_equal name (info n).name ≡ true)
first_named-found info name zero offset m l b h = absurd (omega arith)
first_named-found info name (suc left) offset m l b h =
    elim (Bool-cases (str_equal name (info offset).name)) [
      | inl e ↦ (offset, rw e, l, e)
      | inr e ↦
          let past : offset ≢ m = λ q. cc (rw (← q) at h) in
          let (n, found, least, named) =
            first_named-found info name left (suc offset) m (omega arith) (omega arith) h in
          (n, rw e found, least, named)
    ]

module _ (kernel : Kernel) where
  open kernel use {World, get_chipinfo, get_lineinfo, get_line, close}

  -- A chip with this many lines and these infos, which a query does not change.
  abbrev pub Answers : ℕ → GpiochipInfo → (ℕ → V2LineInfo) → Type 0
  Answers fd chip info =
      ((w : World) → get_chipinfo w fd ≡ (w, chip, IoctlReturn.zero))
      × ((w : World) (offset : ℕ)
          → get_lineinfo w fd false offset ≡ (w, info offset, IoctlReturn.zero))

  module _ (fd : ℕ) (chip : GpiochipInfo) (info : ℕ → V2LineInfo) (a : Answers fd chip info) where
    line_answer :
        (w : World) (offset : ℕ)
        → chip_read_line_info kernel w fd offset false ≡ (w, ok (info offset))
    unfolding chip_read_line_info
    line_answer w offset = rw (a.1 w offset)

    find_name-first_named :
        (left : ℕ) (w : World) (offset : ℕ) (name : List ℕ)
        → find_name kernel left w fd offset name ≡ (w, first_named info name left offset)
    unfolding find_name
    find_name-first_named zero w offset name = refl
    find_name-first_named (suc left) w offset name =
        ground (arith, line_answer w offset, find_name-first_named left w (suc offset) name)

    chip_answer : (w : World) → read_chip_info kernel w fd ≡ (w, ok chip)
    unfolding read_chip_info
    chip_answer w = rw (a.0 w)

    by_name :
        (w : World) (c : Chip) (name : List ℕ)
        → c.fd ≡ fd
        → get_line_offset_from_name kernel w c (some name) ≡ (w, first_named info name chip.lines 0)
    unfolding get_line_offset_from_name find_line
    by_name w c name e =
        rw (e, get_line_offset_from_name)
          (ap (λ x. find_line kernel x fd name) (chip_answer w)
            ∙ find_name-first_named chip.lines w 0 name)

  -- Where the kernel answers each query and some line m of the chip has the name, the call gives an
  -- offset of at most m whose line has it, so the least one.
  pub get_line_offset_from_name-found :
      (w : World) (c : Chip) (chip : GpiochipInfo) (info : ℕ → V2LineInfo) (name : List ℕ) (m : ℕ)
      → Answers c.fd chip info
      → m < chip.lines
      → str_equal name (info m).name ≡ true
      → (n : ℕ) × (get_line_offset_from_name kernel w c (some name) ≡ (w, ok n))
        × (n ≤ m)
        × (str_equal name (info n).name ≡ true)
  get_line_offset_from_name-found w c chip info name m a b h =
      let (n, found, least, named) =
        first_named-found info name chip.lines 0 m (omega arith) (omega arith) h in
      (n, rw (by_name c.fd chip info a w c name refl, found), least, named)

  -- Where the kernel answers each query, an offset that the call gives is one of the chip's, and its
  -- line has the name.
  pub get_line_offset_from_name-ok :
      (w : World) (c : Chip) (chip : GpiochipInfo) (info : ℕ → V2LineInfo) (name : List ℕ) (n : ℕ)
      → Answers c.fd chip info
      → (get_line_offset_from_name kernel w c (some name)).1 ≡ ok n
      → (n < chip.lines) × (str_equal name (info n).name ≡ true)
  get_line_offset_from_name-ok w c chip info name n a h =
      let (below, named) =
        first_named-ok info name chip.lines 0 n
          (rw (by_name c.fd chip info a w c name refl) at h) in
      (omega arith, named)

  read_chip_info_ok :
      (w u : World) (fd : ℕ) (chip : GpiochipInfo)
      → get_chipinfo w fd ≡ (u, chip, IoctlReturn.zero)
      → read_chip_info kernel w fd ≡ (u, ok chip)
  unfolding read_chip_info
  read_chip_info_ok w u fd chip i = rw i

  ioctl_get_line_ok :
      (u v : World) (fd : ℕ) (uapi out : V2LineRequest)
      → get_line u fd uapi ≡ (v, out, IoctlReturn.zero)
      → ioctl_get_line kernel u fd uapi ≡ (v, out, ok tt)
  unfolding ioctl_get_line
  ioctl_get_line_ok u v fd uapi out g = rw g

  -- A request that the kernel grants is kept with the kernel's descriptor and offsets and the
  -- chip's name; where memory for the object is short, the descriptor is closed again.
  pub request_lines_granted :
      (w u v : World) (c : Chip) (req_cfg : Option RequestConfig) (cfg : LineConfig)
      (uapi out : V2LineRequest) (chip : GpiochipInfo) (m n : Bool)
      → request_uapi req_cfg cfg ≡ ok uapi
      → get_chipinfo w c.fd ≡ (u, chip, IoctlReturn.zero)
      → get_line u c.fd uapi ≡ (v, out, IoctlReturn.zero)
      → request_lines kernel w c req_cfg (some cfg) m n ≡ (
          if m && n
          then (v, ok (record { chip_name = chip.name; offsets = out.offsets; fd = out.fd }))
          else (close v out.fd, err enomem))
  unfolding request_lines request_with requested keep_or_close request_from_uapi
  request_lines_granted w u v c req_cfg cfg uapi out chip m n t i g =
      rw (t, request_lines)
        (ap (λ x. request_with kernel x c uapi m n) chip_info
          ∙ ap (λ x. requested kernel x chip.name m n) answered
          ∙ kept m n)
    where
      chip_info : read_chip_info kernel w c.fd ≡ (u, ok chip)
      chip_info = read_chip_info_ok w u c.fd chip i

      answered : ioctl_get_line kernel u c.fd uapi ≡ (v, out, ok tt)
      answered = ioctl_get_line_ok u v c.fd uapi out g

      kept :
          (m n : Bool)
          → keep_or_close kernel v out (request_from_uapi out chip.name m n) ≡ (
              if m && n
              then (v, ok (record { chip_name = chip.name; offsets = out.offsets; fd = out.fd }))
              else (close v out.fd, err enomem))
      kept true true = refl
      kept true false = refl
      kept false n = refl

  -- What such a kernel's infos are for a client.
  pub chip_get_line_info-Answers :
      (w : World) (c : Chip) (chip : GpiochipInfo) (info : ℕ → V2LineInfo) (offset : ℕ)
      → Answers c.fd chip info
      → chip_get_line_info kernel w c offset true ≡ (w, ok (described (info offset)))
  unfolding chip_get_line_info line_info_from_uapi
  chip_get_line_info-Answers w c chip info offset a = rw (a.1 w offset)

-- ===== src/Device/Laws.antt =====
-- Which paths are GPIO chips.
use libgpiod.Prelude.{
  ℕ, ◌≡◌, ◌≢◌, refl, sym, ap, ◌∙◌, ◌⊎◌, inl, inr, Bool, true, false, if◌then◌else◌, none, some,
  List, Errno, ok, ◌>>=◌, bind-ok, Result-cases, arith,
}
use libgpiod.Prelude.Chars.{same_bytes, same_bytes→eq}
use libgpiod.Device.{
  FileKind, symbolic_link, character_device, other_kind, FileStat, Files, gpio_bus, strdup,
  real_name, check_bus, check_stat, check_gpiochip_device, check_device, is_gpiochip_device,
}

module _ (files : Files) where
  -- The file that a path leads to: the target of a symbolic link, or the path itself.
  abbrev pub LeadsTo : List ℕ → List ℕ → Type 0
  LeadsTo path name =
      (st : FileStat) × (files.lstat path ≡ ok st)
      × (((st.kind ≡ symbolic_link) × (files.realpath path ≡ ok name))
          ⊎ ((st.kind ≢ symbolic_link) × (name ≡ path)))

  -- A file is a character device on the GPIO bus.
  abbrev pub IsGpioDevice : List ℕ → Type 0
  IsGpioDevice name =
      (st : FileStat) × (files.stat name ≡ ok st)
      × (st.kind ≡ character_device)
      × (files.subsystem st.major st.minor ≡ ok gpio_bus)

  abbrev pub IsChip : List ℕ → Type 0
  IsChip path = (name : List ℕ) × LeadsTo path name × IsGpioDevice name

  real_name-LeadsTo :
      (path name : List ℕ) (st : FileStat)
      → files.lstat path ≡ ok st
      → real_name files true path st.kind ≡ ok name
      → LeadsTo path name
  unfolding real_name strdup
  real_name-LeadsTo path name st l h = (st, l, kinds st.kind h)
    where
      kinds :
          (kind : FileKind)
          → real_name files true path kind ≡ ok name
          → ((kind ≡ symbolic_link) × (files.realpath path ≡ ok name))
            ⊎ ((kind ≢ symbolic_link) × (name ≡ path))
      kinds symbolic_link h = inl (refl, h)
      kinds character_device h = inr (λ e. cc, cc)
      kinds other_kind h = inr (λ e. cc, cc)

  LeadsTo-real_name :
      (path name : List ℕ) (d : LeadsTo path name) → real_name files true path d.0.kind ≡ ok name
  unfolding real_name strdup
  LeadsTo-real_name path name (st, l, inl (k, r)) = rw k r
  LeadsTo-real_name path name (st, l, inr (k, r)) = kinds st.kind k
    where
      kinds : (kind : FileKind) → kind ≢ symbolic_link → real_name files true path kind ≡ ok name
      kinds symbolic_link k = absurd (k refl)
      kinds character_device k = ap ok (sym r)
      kinds other_kind k = ap ok (sym r)

  check_bus-ok : (sysfsp : List ℕ) → check_bus sysfsp ≡ ok tt → sysfsp ≡ gpio_bus
  unfolding check_bus
  check_bus-ok sysfsp h = same_bytes→eq sysfsp gpio_bus (ground arith)

  check_stat-ok :
      (st : FileStat)
      → check_stat files st ≡ ok tt
      → (st.kind ≡ character_device) × (files.subsystem st.major st.minor ≡ ok gpio_bus)
  unfolding check_stat
  check_stat-ok st h = kinds st.kind h
    where
      kinds :
          (kind : FileKind)
          → check_stat files (record st { kind = kind }) ≡ ok tt
          → (kind ≡ character_device) × (files.subsystem st.major st.minor ≡ ok gpio_bus)
      kinds symbolic_link h = cc
      kinds other_kind h = cc
      kinds character_device h =
          let (sysfsp, s, b) = bind-ok (files.subsystem st.major st.minor) check_bus h in
          (refl, s ∙ ap ok (check_bus-ok sysfsp b))

  check-IsChip :
      (path : List ℕ) → check_gpiochip_device files true (some path) ≡ ok tt → IsChip path
  unfolding check_gpiochip_device
  check-IsChip path h =
      let (first, l, h1) =
        bind-ok (files.lstat path)
          (λ st. real_name files true path st.kind >>= λ name. files.stat name >>= check_stat files)
          h in
      let (name, r, h2) =
        bind-ok (real_name files true path first.kind)
          (λ name. files.stat name >>= check_stat files) h1 in
      let (st, s, h3) = bind-ok (files.stat name) (check_stat files) h2 in
      let (k, b) = check_stat-ok st h3 in
      (name, real_name-LeadsTo path name first l r, (st, s, k, b))

  IsChip-check :
      (path : List ℕ) → IsChip path → check_gpiochip_device files true (some path) ≡ ok tt
  unfolding check_gpiochip_device check_stat check_bus same_bytes
  IsChip-check path (name, (first, l, way), (st, s, k, b)) =
      rw (l, check_gpiochip_device)
        (rw (LeadsTo-real_name path name (first, l, way)) (rw s (rw (k, check_stat) (rw b refl))))

  -- With memory, a path is reported as a chip exactly if it leads, by itself or as a symbolic link,
  -- to a character device whose subsystem is the GPIO bus. Where it does not, some errno is left if
  -- the caller asks for it, and none if not.
  pub check_device_lem :
      (path : List ℕ) (set_errno : Bool)
      → ((check_device files true (some path) set_errno ≡ (true, none)) × IsChip path)
        ⊎ ((e : Errno) × (check_device files true (some path) set_errno
              ≡ (false, if set_errno then some e else none))
            × (¬ IsChip path))
  unfolding check_device
  check_device_lem path set_errno =
      elim (Result-cases (check_gpiochip_device files true (some path))) [
        | inl (_, h) ↦ inl (rw (h, check_device) (ground arith), check-IsChip path h)
        | inr (e, h) ↦ inr (e, rw (h, check_device) refl, λ p. cc (h, IsChip-check path p))
      ]

  -- A symbolic link to a file is judged as the file itself is.
  pub is_gpiochip_device-link :
      (link path : List ℕ) (at_link st : FileStat)
      → files.lstat link ≡ ok at_link
      → at_link.kind ≡ symbolic_link
      → files.realpath link ≡ ok path
      → files.lstat path ≡ ok st
      → st.kind ≡ character_device
      → is_gpiochip_device files true (some link) ≡ is_gpiochip_device files true (some path)
  unfolding is_gpiochip_device check_device check_gpiochip_device real_name strdup
  is_gpiochip_device-link link path at_link st l k r p d = ground arith

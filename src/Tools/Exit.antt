-- ===== src/Tools/Exit.antt =====
-- The tools end with a message where something is wrong (die and die_perror of
-- tools/tools-common.c, and exit after print_error). A step either goes on or has ended the program.
use libgpiod.Prelude.{ℕ, List, Errno}

-- The message, by what it tells.
pub data Death : Type 0 where
  shown : Death  -- the help or the version, with success
  unknown_option : Death
  aborted : Death
  not_combined : Death
  bad_number : List ℕ → Death
  line_needed : Death
  too_many_lines : Death
  not_unique : List ℕ → Death
  no_such_chip : List ℕ → Death
  cannot_scan : Errno → Death
  cannot_open : List ℕ → Errno → Death
  no_chip_info : List ℕ → Errno → Death
  no_line_info : ℕ → Errno → Death
  bad_resolution : Death
  bad_option : List ℕ → Death
  bad_line_value : List ℕ → Death
  bad_period : List ℕ → Death
  period_too_long : ℕ → Death
  cannot_poll : Errno → Death
  cannot_read : Errno → Death
  no_event : Death
  cannot_watch : List ℕ → Errno → Death
  cannot_configure : Errno → Death
  cannot_request : List ℕ → Errno → Death

pub data Run {ℓ} (A : Type ℓ) : Type ℓ where
  going : A → Run A
  died : Death → Run A

infixl 5 ◌>>=◌
abbrev pub ◌>>=◌ {ℓ κ} : {A : Type ℓ} {B : Type κ} → Run A → (A → Run B) → Run B
died death >>= next = died death
going a >>= next = next a

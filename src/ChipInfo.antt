-- ===== src/ChipInfo.antt =====
-- lib/chip-info.c. The name and the label are arrays of 32 bytes.
use libgpiod.Prelude.{ℕ, Bool, true, false, Option, none, some, List, [], ◌∷◌, ◌==◌, if◌then◌else◌}
use libgpiod.Prelude.Chars.{text, strncpy}
use libgpiod.Uapi.{GpiochipInfo}

pub record ChipInfo : Type 0 where
  pub num_lines : ℕ
  pub name : List ℕ
  pub label : List ℕ

-- The bytes of "unknown".
abbrev pub unknown_label : List ℕ
unknown_label = b'u' ∷ b'n' ∷ b'k' ∷ b'n' ∷ b'o' ∷ b'w' ∷ b'n' ∷ []

pub starts_with_nul : List ℕ → Bool
starts_with_nul [] = true
starts_with_nul (c ∷ cs) = c == 0

-- gpiod_chip_info_from_uapi
unfoldable pub chip_info_from_uapi : Bool → GpiochipInfo → Option ChipInfo
unfolding starts_with_nul
chip_info_from_uapi false uapi = none
chip_info_from_uapi true uapi = some (record {
  num_lines = uapi.lines;
  name = strncpy 32 uapi.name;
  label = if starts_with_nul uapi.label then strncpy 32 unknown_label else strncpy 32 uapi.label;
})

abbrev pub get_name : ChipInfo → List ℕ
get_name i = text i.name

abbrev pub get_label : ChipInfo → List ℕ
get_label i = text i.label

abbrev pub get_num_lines : ChipInfo → ℕ
get_num_lines i = i.num_lines

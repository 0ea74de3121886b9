-- ===== src/LineRequest.antt =====
-- lib/line-request.c. `offsets` holds the first `num_lines` entries of the array. A call that
-- reaches the kernel takes the kernel's state and returns the next one.
pub mod Bits
pub mod Values
pub mod Reconfigure
pub mod Events
mod Tests
use libgpiod.Prelude.{
  ℕ, suc, ◌==◌, min, Bool, true, false, ◌&&◌, if◌then◌else◌, Option, none, some, List, [], ◌∷◌, map,
  length, take, replicate, Result, ok, err, einval, ◌>>=◌,
}
use libgpiod.Mask.{mask_zero, mask_test_bit, mask_set_bit, mask_assign_bit}
use libgpiod.Enums.{LineValue, error, inactive, active, value_is_nonzero}
use libgpiod.Uapi.{gpio_max_name_size, V2LineRequest, V2LineConfig, V2LineValues}
use libgpiod.Kernel.{Kernel, gpiod_ioctl}
use libgpiod.LineConfig.{LineConfig}
use libgpiod.LineConfig.ToUapi.{to_uapi}

pub record LineRequest : Type 0 where
  pub chip_name : List ℕ
  pub offsets : List ℕ
  pub fd : ℕ

-- gpiod_line_request_from_uapi; the Booleans tell whether malloc and strdup give memory.
unfoldable pub request_from_uapi : V2LineRequest → List ℕ → Bool → Bool → Option LineRequest
request_from_uapi uapi chip_name true true =
    some (record { chip_name = chip_name; offsets = uapi.offsets; fd = uapi.fd })
request_from_uapi uapi chip_name _ _ = none

abbrev pub get_chip_name : LineRequest → List ℕ
get_chip_name r = r.chip_name

abbrev pub get_num_requested_lines : LineRequest → ℕ
get_num_requested_lines r = length r.offsets

-- gpiod_line_request_get_requested_offsets: what is written to a buffer of `max_offsets` entries.
unfoldable pub get_requested_offsets : LineRequest → Option ℕ → List ℕ
get_requested_offsets r none = []
get_requested_offsets r (some max_offsets) = take (min (length r.offsets) max_offsets) r.offsets

abbrev pub get_fd : LineRequest → ℕ
get_fd r = r.fd

pub next : Option ℕ → Option ℕ
next none = none
next (some i) = some (suc i)

-- offset_to_bit: the first index of an offset; `none` is -1.
unfoldable pub offset_to_bit : List ℕ → ℕ → Option ℕ
unfolding next
offset_to_bit [] offset = none
offset_to_bit (o ∷ os) offset =
    let later = next (offset_to_bit os offset) in if offset == o then some 0 else later

-- The first loop of gpiod_line_request_get_values_subset: the mask of the lines to read.
pub read_mask : List ℕ → List ℕ → ℕ → Result ℕ
unfolding offset_to_bit
read_mask requested [] mask = ok mask
read_mask requested (o ∷ os) mask = elim (offset_to_bit requested o) [
  | none ↦ err einval
  | some bit ↦ read_mask requested os (mask_set_bit mask bit)
]

-- The second loop. Each offset has an index, since the first loop found it.
pub value_of : ℕ → Option ℕ → LineValue
value_of bits none = inactive
value_of bits (some bit) = if mask_test_bit bits bit then active else inactive

pub values_of : List ℕ → ℕ → List ℕ → List LineValue
unfolding value_of
values_of requested bits offsets = map (λ o. value_of bits (offset_to_bit requested o)) offsets

-- The loop of gpiod_line_request_set_values_subset: the mask and the bits.
unfoldable pub write_masks : List ℕ → List (ℕ × LineValue) → ℕ → ℕ → Result V2LineValues
write_masks requested [] mask bits = ok (record { bits = bits; mask = mask })
write_masks requested ((o, v) ∷ vs) mask bits = elim (offset_to_bit requested o) [
  | none ↦ err einval
  | some bit ↦
      write_masks requested vs (mask_set_bit mask bit)
        (mask_assign_bit bits bit (value_is_nonzero v))
]

-- offsets_equal: the counts, then the entries.
unfoldable pub offsets_equal : List ℕ → List ℕ → Bool
offsets_equal [] [] = true
offsets_equal (x ∷ xs) (y ∷ ys) = (x == y) && offsets_equal xs ys
offsets_equal _ _ = false

abbrev pub pair_up : List ℕ → List LineValue → List (ℕ × LineValue)
pair_up (o ∷ os) (v ∷ vs) = (o, v) ∷ pair_up os vs
pair_up _ _ = []

-- `memset(&uapi_cfg, 0, …)`
abbrev pub cleared : V2LineRequest
cleared = record {
  offsets = [];
  consumer = replicate gpio_max_name_size 0;
  config = record { flags = 0; attrs = [] };
  event_buffer_size = 0;
  fd = 0;
}

module _ (kernel : Kernel) where
  open kernel use {World, get_values, set_values, set_config, close}

  -- What the caller gets once the kernel has answered.
  pub read_answer :
      LineRequest → List ℕ → World × Result (V2LineValues) → World × Result (List LineValue)
  unfolding values_of
  read_answer r offsets (w, answer) =
      (w, answer >>= λ values. ok (values_of r.offsets values.bits offsets))

  pub ioctl_get_values : World → ℕ → ℕ → World × Result V2LineValues
  ioctl_get_values w fd mask =
      let (w', values, answer) = get_values w fd (record { bits = 0; mask = mask }) in
      (w', gpiod_ioctl answer >>= λ _. ok values)

  -- gpiod_line_request_get_values_subset; `none` is a NULL pointer. The values are written only on
  -- success.
  unfoldable pub get_values_subset :
      World → LineRequest → Option (List ℕ) → World × Result (List LineValue)
  unfolding read_mask read_answer ioctl_get_values
  get_values_subset w r none = (w, err einval)
  get_values_subset w r (some offsets) = elim (read_mask r.offsets offsets mask_zero) [
    | err e ↦ (w, err e)
    | ok mask ↦ read_answer r offsets (ioctl_get_values w r.fd mask)
  ]

  -- gpiod_line_request_get_value
  pub get_value : World → LineRequest → ℕ → World × LineValue
  unfolding get_values_subset
  get_value w r offset =
      let (w', answer) = get_values_subset w r (some (offset ∷ [])) in
      (w', elim answer [ ok (v ∷ _) ↦ v | _ ↦ error ])

  -- gpiod_line_request_get_values
  unfoldable pub get_all_values : World → LineRequest → Bool → World × Result (List LineValue)
  unfolding get_values_subset
  get_all_values w r true = get_values_subset w r (some r.offsets)
  get_all_values w r false = get_values_subset w r none

  -- gpiod_line_request_set_values_subset: entry i of the two arrays is a pair.
  unfoldable pub set_values_subset :
      World → LineRequest → Option (List (ℕ × LineValue)) → World × Result (Unit {0})
  unfolding write_masks
  set_values_subset w r none = (w, err einval)
  set_values_subset w r (some entries) = elim (write_masks r.offsets entries mask_zero mask_zero) [
    | err e ↦ (w, err e)
    | ok values ↦ let (w', answer) = set_values w r.fd values in (w', gpiod_ioctl answer)
  ]

  -- gpiod_line_request_set_value
  pub set_value : World → LineRequest → ℕ → LineValue → World × Result (Unit {0})
  unfolding set_values_subset
  set_value w r offset value = set_values_subset w r (some ((offset, value) ∷ []))

  -- gpiod_line_request_set_values: the caller's array has a value for each line.
  unfoldable pub set_all_values :
      World → LineRequest → Option (List LineValue) → World × Result (Unit {0})
  unfolding set_values_subset
  set_all_values w r none = set_values_subset w r none
  set_all_values w r (some values) = set_values_subset w r (some (pair_up r.offsets values))

  pub reconfigure : World → LineRequest → V2LineRequest → World × Result (Unit {0})
  reconfigure w r uapi =
      let (w', answer) = set_config w r.fd uapi.config in
      if offsets_equal r.offsets uapi.offsets then (w', gpiod_ioctl answer) else (w, err einval)

  -- gpiod_line_request_reconfigure_lines
  pub reconfigure_lines : World → LineRequest → Option LineConfig → World × Result (Unit {0})
  unfolding reconfigure
  reconfigure_lines w r none = (w, err einval)
  reconfigure_lines w r (some config) = elim (to_uapi config cleared) [
    | err e ↦ (w, err e)
    | ok uapi ↦ reconfigure w r uapi
  ]

  -- gpiod_line_request_release
  unfoldable pub release : World → Option LineRequest → World
  release w none = w
  release w (some r) = close w r.fd

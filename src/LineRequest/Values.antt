-- ===== src/LineRequest/Values.antt =====
-- Reading and writing the values of requested lines, through any kernel.
use libgpiod.Prelude.{
  ℕ, ◌≤◌, ◌<◌, ◌≡◌, refl, ◌∙◌, ap, true, false, ◌||◌, if◌then◌else◌, Option, none, some, List,
  length, ok, err, einval, arith, map,
}
use libgpiod.Mask.{mask_zero, mask_test_bit}
use libgpiod.Enums.{LineValue, active, inactive, value_is_nonzero}
use libgpiod.Uapi.{V2LineValues}
use libgpiod.Kernel.{Kernel, IoctlReturn, gpiod_ioctl}
use libgpiod.LineRequest.{
  LineRequest, offset_to_bit, read_mask, write_masks, value_of, values_of, get_values_subset,
  set_values_subset,
}
use libgpiod.LineRequest.Bits.{
  all_requested, read_mask-refused, read_mask-taken, write_masks-refused, write_masks-taken,
  offsets_of, reads_bit, last_write, write_masks-bits, is_some, written, last_write-reads_bit,
  map-requested, offset_to_bit-lt,
}

-- How a value that was set reads back: anything but GPIOD_LINE_VALUE_INACTIVE, even a number that
-- no enumerator has, counts as active.
abbrev pub read_back : Option LineValue → LineValue
read_back none = inactive
read_back (some v) = if value_is_nonzero v then active else inactive

abbrev pub last_at : LineRequest → List (ℕ × LineValue) → Option ℕ → Option LineValue
last_at r entries none = none
last_at r entries (some bit) = last_write r.offsets entries bit

-- Bits that agree with what was written, where something was written, give the last values.
values_of_written :
    (r : LineRequest) (entries : List (ℕ × LineValue)) (out : V2LineValues) (bits : ℕ)
    → length r.offsets ≤ 64
    → all_requested r.offsets (offsets_of entries) ≡ true
    → write_masks r.offsets entries mask_zero mask_zero ≡ ok out
    → ((j : ℕ)
        → mask_test_bit out.mask j ≡ true
        → reads_bit r.offsets (offsets_of entries) j ≡ true
        → mask_test_bit bits j ≡ mask_test_bit out.bits j)
    → values_of r.offsets bits (offsets_of entries)
      ≡ map (λ o. read_back (last_at r entries (offset_to_bit r.offsets o))) (offsets_of entries)
unfolding values_of value_of
values_of_written r entries out bits l h set same =
    map-requested (λ o. value_of bits (offset_to_bit r.offsets o))
      (λ o. read_back (last_at r entries (offset_to_bit r.offsets o))) r.offsets
      (offsets_of entries) h agree
  where
    agree :
        (o i : ℕ)
        → offset_to_bit r.offsets o ≡ some i
        → reads_bit r.offsets (offsets_of entries) i ≡ true
        → value_of bits (offset_to_bit r.offsets o)
          ≡ read_back (last_at r entries (offset_to_bit r.offsets o))
    agree o i e b =
        let small : i < 64 = omega (arith, offset_to_bit-lt r.offsets o i e) in
        let laws : (mask_test_bit out.mask i
              ≡ (is_some (last_write r.offsets entries i) || mask_test_bit mask_zero i))
            × (mask_test_bit out.bits i
                ≡ written (last_write r.offsets entries i) (mask_test_bit mask_zero i)) =
          write_masks-bits r.offsets entries mask_zero mask_zero i l small set in
        rw e (ground (arith, laws.0, laws.1, last_write-reads_bit r.offsets entries i, b, same i))

module _ (kernel : Kernel) where
  open kernel use {World, get_values, set_values}

  -- An offset that was not requested makes the call fail with EINVAL before the kernel is asked:
  -- no line is read or written, whatever the other offsets are.
  pub values_subset-refused :
      (w : World) (r : LineRequest) (entries : List (ℕ × LineValue))
      → all_requested r.offsets (offsets_of entries) ≡ false
      → (set_values_subset kernel w r (some entries) ≡ (w, err einval))
        × (get_values_subset kernel w r (some (offsets_of entries)) ≡ (w, err einval))
  unfolding set_values_subset get_values_subset
  values_subset-refused w r entries h = (
    rw (write_masks-refused r.offsets entries mask_zero mask_zero h, set_values_subset),
    rw (read_mask-refused r.offsets (offsets_of entries) mask_zero h, get_values_subset),
  )

  -- The kernel answers a read of lines that were just set with the bits that were written, for the
  -- lines that the mask of the read selects. It may give any other bit for the others.
  abbrev pub Remembers : ℕ → Type 0
  Remembers fd =
      (w : World) (values : V2LineValues) (mask : ℕ)
      → ((set_values w fd values).1 ≡ IoctlReturn.zero)
        × (w' : World) × (bits : ℕ) × (get_values (set_values w fd values).0 fd
              (record { bits = 0; mask = mask })
            ≡ (w', record { bits = bits; mask = mask }, IoctlReturn.zero))
        × ((j : ℕ)
            → mask_test_bit values.mask j ≡ true
            → mask_test_bit mask j ≡ true
            → mask_test_bit bits j ≡ mask_test_bit values.bits j)

  set_taken :
      (w : World) (r : LineRequest) (entries : List (ℕ × LineValue)) (out : V2LineValues)
      → write_masks r.offsets entries mask_zero mask_zero ≡ ok out
      → set_values_subset kernel w r (some entries)
        ≡ ((set_values w r.fd out).0, gpiod_ioctl (set_values w r.fd out).1)
  unfolding set_values_subset
  set_taken w r entries out e = rw (e, set_values_subset)

  get_taken :
      (w w' : World) (r : LineRequest) (os : List ℕ) (m bits : ℕ)
      → read_mask r.offsets os mask_zero ≡ ok m
      → get_values w r.fd (record { bits = 0; mask = m })
        ≡ (w', record { bits = bits; mask = m }, IoctlReturn.zero)
      → (get_values_subset kernel w r (some os)).1 ≡ ok (values_of r.offsets bits os)
  unfolding get_values_subset
  get_taken w w' r os m bits e g = rw (e, get_values_subset) (rw g)

  -- Through a kernel that remembers the lines that a read selects, what is set for at most 64
  -- requested lines reads back: each line of the set gives inactive if the last value that the
  -- entries have for it is inactive, and active if it is any other.
  pub get_values_subset-set_values_subset :
      (w : World) (r : LineRequest) (entries : List (ℕ × LineValue))
      → Remembers r.fd
      → length r.offsets ≤ 64
      → all_requested r.offsets (offsets_of entries) ≡ true
      → ((set_values_subset kernel w r (some entries)).1 ≡ ok tt)
        × ((get_values_subset kernel
              (set_values_subset kernel w r (some entries)).0
              r
              (some (offsets_of entries))).1
            ≡ ok (
                map
                  (λ o. read_back (last_at r entries (offset_to_bit r.offsets o)))
                  (offsets_of entries)))
  unfolding set_values_subset get_values_subset
  get_values_subset-set_values_subset w r entries k l h =
      let (out, set) = write_masks-taken r.offsets entries mask_zero mask_zero h in
      let (m, read, covers) = read_mask-taken r.offsets (offsets_of entries) mask_zero h in
      let (zero', w', bits, got, same) = k w out m in
      let stored : set_values_subset kernel w r (some entries)
          ≡ ((set_values w r.fd out).0, gpiod_ioctl (set_values w r.fd out).1) =
        set_taken w r entries out set in
      rw (stored, zero')
        (
          refl,
          get_taken (set_values w r.fd out).0 w' r (offsets_of entries) m bits read got
              ∙ ap ok (
                  values_of_written r entries out bits l h set
                    (λ j a b. same j a (ground (arith, covers j, b)))),
        )

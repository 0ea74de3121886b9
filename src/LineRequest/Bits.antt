-- ===== src/LineRequest/Bits.antt =====
-- The bits that a call on a subset of the requested lines reads and writes.
use libgpiod.Prelude.{
  ℕ, zero, suc, ◌≤◌, ◌<◌, ◌==◌, ◌≡◌, refl, inl, inr, Bool, true, false, ◌||◌, if◌then◌else◌, Option,
  none, some, List, [], ◌∷◌, length, map, get_elem?, ok, err, einval, arith, Option-cases,
  get_elem?-lt,
}
use libgpiod.Mask.{mask_test_bit, mask_set_bit, mask_assign_bit}
use libgpiod.Mask.Laws.{mask_test_bit-set_bit, mask_test_bit-assign_bit}
use libgpiod.Enums.{LineValue, value_is_nonzero}
use libgpiod.Uapi.{V2LineValues}
use libgpiod.LineRequest.{next, offset_to_bit, read_mask, write_masks}

-- The bit of an offset is an index of it in the request.
pub offset_to_bit-get :
    (os : List ℕ) (o i : ℕ) → offset_to_bit os o ≡ some i → get_elem? os i ≡ some o
unfolding offset_to_bit next
offset_to_bit-get [] o i h = cc
offset_to_bit-get (x ∷ os) o zero h = ground arith
offset_to_bit-get (x ∷ os) o (suc i) h = ground (arith, offset_to_bit-get os o i)

pub offset_to_bit-lt : (os : List ℕ) (o i : ℕ) → offset_to_bit os o ≡ some i → i < length os
offset_to_bit-lt os o i h = get_elem?-lt os i o (offset_to_bit-get os o i h)

abbrev pub at_bit : Option ℕ → ℕ → Bool
at_bit none j = false
at_bit (some i) j = i == j

-- The last value that the entries give for a bit.
abbrev pub later : Option LineValue → Option LineValue → Option LineValue
later none old = old
later (some v) old = some v

unfoldable pub last_write : List ℕ → List (ℕ × LineValue) → ℕ → Option LineValue
last_write requested [] j = none
last_write requested ((o, v) ∷ vs) j =
    later (last_write requested vs j)
      (if at_bit (offset_to_bit requested o) j then some v else none)

abbrev pub is_some : Option LineValue → Bool
is_some none = false
is_some (some v) = true

abbrev pub written : Option LineValue → Bool → Bool
written none old = old
written (some v) old = value_is_nonzero v

-- One step of the loop, for a bit below 64.
pub write_masks-bits :
    (requested : List ℕ) (entries : List (ℕ × LineValue)) (mask bits j : ℕ) {out : V2LineValues}
    → length requested ≤ 64
    → j < 64
    → write_masks requested entries mask bits ≡ ok out
    → (mask_test_bit out.mask j
        ≡ (is_some (last_write requested entries j) || mask_test_bit mask j))
      × (mask_test_bit out.bits j ≡ written (last_write requested entries j) (mask_test_bit bits j))
unfolding write_masks last_write
write_masks-bits requested [] mask bits j l b h = ground arith
write_masks-bits requested ((o, v) ∷ vs) mask bits j l b h =
    elim (Option-cases (offset_to_bit requested o)) [
      | inl e ↦ cc (rw (e, write_masks) at h)
      | inr (i, e) ↦ ground (
        arith,
        write_masks-bits requested vs (mask_set_bit mask i)
            (mask_assign_bit bits i (value_is_nonzero v)) j l b (rw (e, write_masks) at h),
        mask_test_bit-set_bit mask i j,
        mask_test_bit-assign_bit bits i j (value_is_nonzero v),
        offset_to_bit-lt requested o i e,
      )
    ]

-- The loop succeeds exactly when every offset is a requested one.
abbrev pub all_requested : List ℕ → List ℕ → Bool
all_requested requested [] = true
all_requested requested (o ∷ os) = elim (offset_to_bit requested o) [
  | none ↦ false
  | some i ↦ all_requested requested os
]

pub read_mask-refused :
    (requested os : List ℕ) (mask : ℕ)
    → all_requested requested os ≡ false
    → read_mask requested os mask ≡ err einval
unfolding read_mask
read_mask-refused requested [] mask h = cc
read_mask-refused requested (o ∷ os) mask h = elim (Option-cases (offset_to_bit requested o)) [
  | inl e ↦ rw (e, read_mask)
  | inr (i, e) ↦
      rw (e, read_mask)
        (read_mask-refused requested os (mask_set_bit mask i) (rw (e, all_requested) at h))
]

-- Some offset of the list has this bit.
abbrev pub reads_bit : List ℕ → List ℕ → ℕ → Bool
reads_bit requested [] j = false
reads_bit requested (o ∷ os) j = at_bit (offset_to_bit requested o) j || reads_bit requested os j

pub read_mask-taken :
    (requested os : List ℕ) (mask : ℕ)
    → all_requested requested os ≡ true
    → (m : ℕ) × (read_mask requested os mask ≡ ok m)
      × ((j : ℕ) → mask_test_bit m j ≡ (reads_bit requested os j || mask_test_bit mask j))
unfolding read_mask
read_mask-taken requested [] mask h = (mask, refl, λ j. refl)
read_mask-taken requested (o ∷ os) mask h = elim (Option-cases (offset_to_bit requested o)) [
  | inl e ↦ cc (rw (e, all_requested) at h)
  | inr (i, e) ↦
      let (m, done, bits) =
        read_mask-taken requested os (mask_set_bit mask i) (rw (e, all_requested) at h) in
      (
        m,
        rw (e, read_mask) done,
        λ j. rw e (ground (arith, bits j, mask_test_bit-set_bit mask i j)),
      )
]

abbrev pub offsets_of : List (ℕ × LineValue) → List ℕ
offsets_of [] = []
offsets_of ((o, v) ∷ vs) = o ∷ offsets_of vs

pub write_masks-refused :
    (requested : List ℕ) (entries : List (ℕ × LineValue)) (mask bits : ℕ)
    → all_requested requested (offsets_of entries) ≡ false
    → write_masks requested entries mask bits ≡ err einval
unfolding write_masks
write_masks-refused requested [] mask bits h = cc
write_masks-refused requested ((o, v) ∷ vs) mask bits h =
    elim (Option-cases (offset_to_bit requested o)) [
      | inl e ↦ rw (e, write_masks)
      | inr (i, e) ↦
          rw (e, write_masks)
            (write_masks-refused requested vs (mask_set_bit mask i)
              (mask_assign_bit bits i (value_is_nonzero v)) (rw (e, all_requested) at h))
    ]

pub write_masks-taken :
    (requested : List ℕ) (entries : List (ℕ × LineValue)) (mask bits : ℕ)
    → all_requested requested (offsets_of entries) ≡ true
    → (out : V2LineValues) × (write_masks requested entries mask bits ≡ ok out)
unfolding write_masks
write_masks-taken requested [] mask bits h = (record { bits = bits; mask = mask }, refl)
write_masks-taken requested ((o, v) ∷ vs) mask bits h =
    elim (Option-cases (offset_to_bit requested o)) [
      | inl e ↦ cc (rw (e, all_requested) at h)
      | inr (i, e) ↦
          let (out, done) =
            write_masks-taken requested vs (mask_set_bit mask i)
              (mask_assign_bit bits i (value_is_nonzero v)) (rw (e, all_requested) at h) in
          (out, rw (e, write_masks) done)
    ]

-- The bits that are written are those of the entries' offsets.
pub last_write-reads_bit :
    (requested : List ℕ) (entries : List (ℕ × LineValue)) (j : ℕ)
    → is_some (last_write requested entries j) ≡ reads_bit requested (offsets_of entries) j
unfolding last_write
last_write-reads_bit requested [] j = refl
last_write-reads_bit requested ((o, v) ∷ vs) j =
    joined (last_write requested vs j) (at_bit (offset_to_bit requested o) j)
      (reads_bit requested (offsets_of vs) j) (last_write-reads_bit requested vs j)
  where
    joined :
        (x : Option LineValue) (here there : Bool)
        → is_some x ≡ there
        → is_some (later x (if here then some v else none)) ≡ (here || there)
    joined x here there e = ground arith

-- Two functions that agree on every requested offset of a list agree on the list.
pub map-requested :
    (f g : ℕ → LineValue) (requested os : List ℕ)
    → all_requested requested os ≡ true
    → ((o i : ℕ) → offset_to_bit requested o ≡ some i → reads_bit requested os i ≡ true → f o ≡ g o)
    → map f os ≡ map g os
map-requested f g requested [] a h = refl
map-requested f g requested (o ∷ os) a h = elim (Option-cases (offset_to_bit requested o)) [
  | inl e ↦ cc (rw (e, all_requested) at a)
  | inr (i, e) ↦
      let here : f o ≡ g o = h o i e (rw e (ground arith)) in
      let there : map f os ≡ map g os =
        map-requested f g requested os (rw (e, all_requested) at a)
          (λ x j x' b. h x j x' (rw b (ground arith))) in
      rw (here, there)
]

-- ===== src/Mask/Laws.antt =====
-- What a test reads from a mask after each of the operations of lib/internal.c.
use libgpiod.Prelude.{
  ℕ, ◌-◌, ◌^◌, ◌<◌, ◌==◌, ◌≡◌, bit_and, bit_or, Bool, true, false, ◌||◌, arith, ◌∙◌, if◌then◌else◌,
}
use libgpiod.Prelude.Bits.{
  bit, bit-le-one, bit-bit_and, bit-bit_or, bit_and-pow, bit-pow_self, bit-pow_ne, bit_zero,
  pow-pos, bit-complement_self, bit-complement_ne, bit_or-lt, pow-lt,
}
use libgpiod.Mask.{mask_zero, mask_test_bit, mask_set_bit, mask_assign_bit}

test-bit : (m n : ℕ) → mask_test_bit m n ≡ (bit m n == 1)
unfolding mask_test_bit
test-bit m n = grind (arith, bit_and-pow m n, bit-le-one m n, pow-pos n)

pub mask_test_bit-zero : (n : ℕ) → mask_test_bit mask_zero n ≡ false
mask_test_bit-zero n = ground (arith, test-bit mask_zero n, bit_zero n)

-- After setting line n, a test of line k succeeds exactly when k is n or it did before.
pub mask_test_bit-set_bit :
    (m n k : ℕ) → mask_test_bit (mask_set_bit m n) k ≡ ((n == k) || mask_test_bit m k)
unfolding mask_set_bit
mask_test_bit-set_bit m n k = ground (
  arith,
  test-bit (bit_or m (2 ^ n)) k,
  test-bit m k,
  bit-bit_or m (2 ^ n) k,
  bit-le-one m k,
  bit-pow_self n,
  bit-pow_ne n k,
)

-- After assigning line n, a test of line n gives the value and one of any other line what it did
-- before, for lines below 64.
pub mask_test_bit-assign_bit :
    (m n k : ℕ) (v : Bool)
    → n < 64
    → k < 64
    → mask_test_bit (mask_assign_bit m n v) k ≡ (if n == k then v else mask_test_bit m k)
unfolding mask_assign_bit
mask_test_bit-assign_bit m n k true h g = mask_test_bit-set_bit m n k ∙ ground arith
mask_test_bit-assign_bit m n k false h g = ground (
  arith,
  test-bit (bit_and m (2 ^ 64 - 1 - 2 ^ n)) k,
  test-bit m k,
  bit-bit_and m (2 ^ 64 - 1 - 2 ^ n) k,
  bit-le-one m k,
  bit-complement_self 64 n h,
  bit-complement_ne 64 n k h g,
)

pub mask_set_bit-lt : (m n : ℕ) → m < 2 ^ 64 → n < 64 → mask_set_bit m n < 2 ^ 64
unfolding mask_set_bit
mask_set_bit-lt m n h g = bit_or-lt 64 m (2 ^ n) h (pow-lt n 64 g)

pub mask_test_bit-bit_or :
    (a b k : ℕ) → mask_test_bit (bit_or a b) k ≡ (mask_test_bit a k || mask_test_bit b k)
mask_test_bit-bit_or a b k = ground (
  arith,
  test-bit (bit_or a b) k,
  test-bit a k,
  test-bit b k,
  bit-bit_or a b k,
  bit-le-one a k,
  bit-le-one b k,
)

-- The digits of the word `1 << n`.
pub mask_test_bit-pow : (n k : ℕ) → mask_test_bit (2 ^ n) k ≡ (n == k)
mask_test_bit-pow n k = ground (arith, test-bit (2 ^ n) k, bit-pow_self n, bit-pow_ne n k)

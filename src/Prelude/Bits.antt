-- ===== src/Prelude/Bits.antt =====
-- The binary digits of a number, and what `|`, `&`, `1 << n` and `~(1 << n)` do to them.
use Prim.Native.Nat.{
  ℕ, zero, suc, ◌+◌, ◌-◌, ◌*◌, ◌/◌, ◌%◌, ◌^◌, ◌≤◌, ◌<◌, min, max, bit_and, bit_or, digits,
  bit_and-bitwise, bit_or-bitwise,
}
use mathlib.Core.Path.{◌≡◌, refl, ap}
use mathlib.Core.Logic.{◌≢◌}
use native.Mathlib.Omega.{arith}
use native.Mathlib.Nat.{pow-suc}

-- Digit n of m: 0 or 1.
pub bit : ℕ → ℕ → ℕ
bit m zero = m % 2
bit m (suc n) = bit (m / 2) n

pub bit-le-one : (m n : ℕ) → bit m n ≤ 1
unfolding bit
bit-le-one m zero = omega arith
bit-le-one m (suc n) = bit-le-one (m / 2) n

pub bit_zero : (n : ℕ) → bit 0 n ≡ 0
unfolding bit
bit_zero zero = refl
bit_zero (suc n) = bit_zero n

-- The recursion on digits gives one answer for all fuel that covers the left number.
digits_stable :
    (last : ℕ → ℕ) (op : ℕ → ℕ → ℕ) (k l x y : ℕ)
    → x ≤ k
    → x ≤ l
    → digits last op k x y ≡ digits last op l x y
digits_stable last op zero zero zero y h g = refl
digits_stable last op zero (suc l) zero y h g = refl
digits_stable last op (suc k) zero zero y h g = refl
digits_stable last op (suc k) (suc l) zero y h g = refl
digits_stable last op zero l (suc x) y h g = absurd (omega arith)
digits_stable last op (suc k) zero (suc x) y h g = absurd (omega arith)
digits_stable last op (suc k) (suc l) (suc x) y h g =
    ap (λ (high : ℕ). high * 2 + op (suc x % 2) (y % 2))
      (digits_stable last op k l (suc x / 2) (y / 2) (omega arith) (omega arith))

-- So each number may be its own fuel, and the lowest digit comes off.
digits_halved :
    (last : ℕ → ℕ) (op : ℕ → ℕ → ℕ) (x y : ℕ)
    → digits last op (suc x) (suc x) y
      ≡ digits last op (suc x / 2) (suc x / 2) (y / 2) * 2 + op (suc x % 2) (y % 2)
digits_halved last op x y =
    ap (λ (high : ℕ). high * 2 + op (suc x % 2) (y % 2))
      (digits_stable last op x (suc x / 2) (suc x / 2) (y / 2) (omega arith) (omega arith))

bit_and_step : (x y : ℕ) → bit_and x y ≡ bit_and (x / 2) (y / 2) * 2 + min (x % 2) (y % 2)
bit_and_step zero y = omega (arith, bit_and-bitwise 0 y, bit_and-bitwise 0 (y / 2))
bit_and_step (suc x) y = omega (
  digits_halved (λ z. zero) min x y,
  arith,
  bit_and-bitwise (suc x / 2) (y / 2),
  bit_and-bitwise (suc x) y,
)

bit_or_step : (x y : ℕ) → bit_or x y ≡ bit_or (x / 2) (y / 2) * 2 + max (x % 2) (y % 2)
bit_or_step zero y = omega (arith, bit_or-bitwise 0 y, bit_or-bitwise 0 (y / 2))
bit_or_step (suc x) y = omega (
  digits_halved (λ z. z) max x y,
  arith,
  bit_or-bitwise (suc x / 2) (y / 2),
  bit_or-bitwise (suc x) y,
)

-- Each digit of `a & b` and of `a | b`.
pub bit-bit_and : (a b n : ℕ) → bit (bit_and a b) n ≡ min (bit a n) (bit b n)
unfolding bit
bit-bit_and a b zero = omega (arith, bit_and_step a b)
bit-bit_and a b (suc n) =
    let e : bit_and a b / 2 ≡ bit_and (a / 2) (b / 2) = omega (arith, bit_and_step a b) in
    rw e (bit-bit_and (a / 2) (b / 2) n)

pub bit-bit_or : (a b n : ℕ) → bit (bit_or a b) n ≡ max (bit a n) (bit b n)
unfolding bit
bit-bit_or a b zero = omega (arith, bit_or_step a b)
bit-bit_or a b (suc n) =
    let e : bit_or a b / 2 ≡ bit_or (a / 2) (b / 2) = omega (arith, bit_or_step a b) in
    rw e (bit-bit_or (a / 2) (b / 2) n)

-- `|` of two w-bit words is a w-bit word.
pub bit_or-lt : (w a b : ℕ) → a < 2 ^ w → b < 2 ^ w → bit_or a b < 2 ^ w
bit_or-lt zero a b p q =
    let za : a ≡ 0 = omega arith in let zb : b ≡ 0 = omega arith in rw (za, zb) (omega arith)
bit_or-lt (suc w) a b p q = omega (
  arith,
  bit_or_step a b,
  pow-suc 2 w,
  bit_or-lt w (a / 2) (b / 2) (omega (arith, pow-suc 2 w)) (omega (arith, pow-suc 2 w)),
)

pub pow-pos : (n : ℕ) → 0 < 2 ^ n
pow-pos zero = omega arith
pow-pos (suc n) = omega (arith, pow-suc 2 n, pow-pos n)

no_common_digit : (room x : ℕ) → x < room → bit_and x 0 ≡ 0
no_common_digit zero x h = elim h [ ]
no_common_digit (suc room) zero h = refl
no_common_digit (suc room) (suc x) h =
    omega (no_common_digit room (suc x / 2) (omega arith), bit_and_step (suc x) 0, arith)

bit_and-zero : (x : ℕ) → bit_and x 0 ≡ 0
bit_and-zero x = no_common_digit (suc x) x (omega arith)

pub pow-lt : (n w : ℕ) → n < w → 2 ^ n < 2 ^ w
pow-lt n zero h = elim h [ ]
pow-lt zero (suc w) h = omega (arith, pow-suc 2 w, pow-pos w)
pow-lt (suc n) (suc w) h = omega (arith, pow-suc 2 w, pow-suc 2 n, pow-lt n w (omega arith))

-- `a & b` is at most `b`.
pub bit_and-le : (w a b : ℕ) → b < 2 ^ w → bit_and a b ≤ b
bit_and-le zero a b q = let zb : b ≡ 0 = omega arith in rw zb (omega (arith, bit_and-zero a))
bit_and-le (suc w) a b q =
    omega (arith, bit_and_step a b, bit_and-le w (a / 2) (b / 2) (omega (arith, pow-suc 2 w)))

-- The digits of `1 << n`.
pub bit-pow_self : (n : ℕ) → bit (2 ^ n) n ≡ 1
unfolding bit
bit-pow_self zero = refl
bit-pow_self (suc n) =
    let e : 2 ^ suc n / 2 ≡ 2 ^ n = omega (arith, pow-suc 2 n) in rw e (bit-pow_self n)

pub bit-pow_ne : (n k : ℕ) → n ≢ k → bit (2 ^ n) k ≡ 0
unfolding bit
bit-pow_ne zero zero h = absurd (h refl)
bit-pow_ne zero (suc k) h = bit_zero k
bit-pow_ne (suc n) zero h = omega (arith, pow-suc 2 n)
bit-pow_ne (suc n) (suc k) h =
    let e : 2 ^ suc n / 2 ≡ 2 ^ n = omega (arith, pow-suc 2 n) in
    rw e (bit-pow_ne n k (omega arith))

-- A word of w ones, and one of its digits cleared.
bit_ones : (w k : ℕ) → k < w → bit (2 ^ w - 1) k ≡ 1
unfolding bit
bit_ones zero k h = elim h [ ]
bit_ones (suc w) zero h = omega (arith, pow-suc 2 w, pow-pos w)
bit_ones (suc w) (suc k) h =
    let e : (2 ^ suc w - 1) / 2 ≡ 2 ^ w - 1 = omega (arith, pow-suc 2 w, pow-pos w) in
    rw e (bit_ones w k (omega arith))

pub bit-complement_self : (w n : ℕ) → n < w → bit (2 ^ w - 1 - 2 ^ n) n ≡ 0
unfolding bit
bit-complement_self zero n h = elim h [ ]
bit-complement_self (suc w) zero h = omega (arith, pow-suc 2 w, pow-pos w)
bit-complement_self (suc w) (suc n) h =
    let e : (2 ^ suc w - 1 - 2 ^ suc n) / 2 ≡ 2 ^ w - 1 - 2 ^ n =
      omega (arith, pow-suc 2 w, pow-suc 2 n, pow-pos w, pow-pos n) in
    rw e (bit-complement_self w n (omega arith))

pub bit-complement_ne : (w n k : ℕ) → n < w → k < w → n ≢ k → bit (2 ^ w - 1 - 2 ^ n) k ≡ 1
unfolding bit
bit-complement_ne zero n k h p q = elim h [ ]
bit-complement_ne (suc w) zero zero h p q = absurd (q refl)
bit-complement_ne (suc w) zero (suc k) h p q =
    let e : (2 ^ suc w - 1 - 2 ^ zero) / 2 ≡ 2 ^ w - 1 = omega (arith, pow-suc 2 w, pow-pos w) in
    rw e (bit_ones w k (omega arith))
bit-complement_ne (suc w) (suc n) zero h p q =
    omega (arith, pow-suc 2 w, pow-suc 2 n, pow-pos w, pow-pos n, pow-lt n w (omega arith))
bit-complement_ne (suc w) (suc n) (suc k) h p q =
    let e : (2 ^ suc w - 1 - 2 ^ suc n) / 2 ≡ 2 ^ w - 1 - 2 ^ n =
      omega (arith, pow-suc 2 w, pow-suc 2 n, pow-pos w, pow-pos n) in
    rw e (bit-complement_ne w n k (omega arith) (omega arith) (omega arith))

-- The test `a & (1 << n)`.
pub bit_and-pow : (a n : ℕ) → bit_and a (2 ^ n) ≡ bit a n * 2 ^ n
unfolding bit
bit_and-pow a zero = omega (arith, bit_and_step a 1, bit_and-zero (a / 2))
bit_and-pow a (suc n) =
    let e : 2 ^ suc n / 2 ≡ 2 ^ n = omega (arith, pow-suc 2 n) in
    omega (
      arith,
      bit_and_step a (2 ^ suc n),
      ap (λ (t : ℕ). bit (a / 2) n * t) (pow-suc 2 n),
      pow-suc 2 n,
      ap (bit_and (a / 2)) e,
      bit_and-pow (a / 2) n,
    )

-- ===== src/Tools/Numbers/Laws.antt =====
-- Numbers and periods that are written in decimal are read back.
use libgpiod.Prelude.{
  ℕ, zero, suc, ◌+◌, ◌-◌, ◌*◌, ◌/◌, ◌%◌, ◌^◌, ◌≤◌, ◌<◌, ◌==◌, ◌≡◌, refl, sym, ◌∙◌, ltb, leb, Bool,
  true, false, if◌then◌else◌, Option, none, some, List, [], ◌∷◌, arith, Bool-cases, inl, inr, ap,
}
use libgpiod.Tools.Strings.{is_space, is_digit, decimal_loop, decimal, bytes}
use libgpiod.Tools.Numbers.{
  int_max, llong_max, ulong_max, skip_spaces, take_digits, signed, unsigned_part, strtoull,
  parse_uint, unit_prefix, unit_factor, scaled, ◌>>=?◌, parse_period,
}

take_digits-digit :
    (n c : ℕ) (cs : List ℕ)
    → is_digit c ≡ true
    → take_digits n (c ∷ cs) ≡ take_digits (n * 10 + (c - b'0')) cs
unfolding take_digits
take_digits-digit n c cs h = rw h

digit-is_digit : (n : ℕ) → is_digit (b'0' + n % 10) ≡ true
unfolding is_digit
digit-is_digit n = ground arith

take_digits-decimal_loop :
    (fuel n : ℕ) (rest : List ℕ)
    → n < fuel
    → take_digits 0 (decimal_loop fuel n rest) ≡ take_digits n rest
unfolding decimal_loop
take_digits-decimal_loop zero n rest h = elim h [ ]
take_digits-decimal_loop (suc fuel) n rest h = elim (Bool-cases (n / 10 == 0)) [
  | inl e ↦
      let small : 0 * 10 + (b'0' + n % 10 - b'0') ≡ n = ground arith in
      rw e (
        take_digits-digit 0 (b'0' + n % 10) rest (digit-is_digit n)
        ∙ ap (λ k. take_digits k rest) small)
  | inr e ↦
      let whole : n / 10 * 10 + (b'0' + n % 10 - b'0') ≡ n = omega arith in
      rw e (
        take_digits-decimal_loop fuel (n / 10) ((b'0' + n % 10) ∷ rest) (ground arith)
        ∙ take_digits-digit (n / 10) (b'0' + n % 10) rest (digit-is_digit n)
        ∙ ap (λ k. take_digits k rest) whole)
]

-- A decimal text begins with a digit.
decimal_loop-head :
    (fuel n : ℕ) (rest : List ℕ)
    → n < fuel
    → (d : ℕ) × (ds : List ℕ) × (decimal_loop fuel n rest ≡ d ∷ ds) × (b'0' ≤ d) × (d ≤ b'9')
unfolding decimal_loop
decimal_loop-head zero n rest h = elim h [ ]
decimal_loop-head (suc fuel) n rest h = elim (Bool-cases (n / 10 == 0)) [
  | inl e ↦ (b'0' + n % 10, rest, rw e, omega arith, omega arith)
  | inr e ↦ rw e (decimal_loop-head fuel (n / 10) ((b'0' + n % 10) ∷ rest) (ground arith))
]

-- What stands behind the number does not go on with a digit.
abbrev pub ends_number : List ℕ → Bool
ends_number [] = true
ends_number (c ∷ cs) = if ltb c b'0' then true else ltb b'9' c

take_digits-end : (n : ℕ) (rest : List ℕ) → ends_number rest ≡ true → take_digits n rest ≡ (n, rest)
unfolding take_digits is_digit
take_digits-end n [] h = refl
take_digits-end n (c ∷ cs) h = ground arith

strtoull-digit :
    (d : ℕ) (ds : List ℕ)
    → b'0' ≤ d
    → d ≤ b'9'
    → strtoull (d ∷ ds) ≡ (signed false (take_digits 0 (d ∷ ds)).0, (take_digits 0 (d ∷ ds)).1)
unfolding strtoull skip_spaces is_space unsigned_part is_digit
strtoull-digit d ds l h = ground arith

pub strtoull-decimal :
    (n : ℕ) (rest : List ℕ)
    → ends_number rest ≡ true
    → strtoull (decimal n rest) ≡ (signed false n, rest)
unfolding decimal
strtoull-decimal n rest h =
    let (d, ds, text, low, high) = decimal_loop-head (suc n) n rest (omega arith) in
    let read : take_digits 0 (d ∷ ds) ≡ (n, rest) =
      ap (take_digits 0) (sym text)
      ∙ take_digits-decimal_loop (suc n) n rest (omega arith)
      ∙ take_digits-end n rest h in
    rw text (strtoull-digit d ds low high ∙ ap (λ r. (signed false r.0, r.1)) read)

-- A number that is written in decimal is read back if it is an `int`, and refused otherwise.
pub parse_uint-decimal :
    (n : ℕ) → parse_uint (decimal n []) ≡ (if leb n int_max then some n else none)
unfolding parse_uint signed
parse_uint-decimal n = rw (strtoull-decimal n [] refl, parse_uint) (ground arith)

-- The suffixes that parse_period takes.
pub data PeriodUnit : Type 0 where
  bare microseconds milliseconds seconds minutes lone_u : PeriodUnit

abbrev pub suffix : PeriodUnit → List ℕ
suffix PeriodUnit.bare = []
suffix PeriodUnit.microseconds = bytes "us"
suffix PeriodUnit.milliseconds = bytes "ms"
suffix PeriodUnit.seconds = bytes "s"
suffix PeriodUnit.minutes = bytes "m"
suffix PeriodUnit.lone_u = bytes "u"

-- The microseconds in one unit, and those that the code takes for a lone `u`.
abbrev pub factor : PeriodUnit → ℕ
factor PeriodUnit.bare = 1000
factor PeriodUnit.microseconds = 1
factor PeriodUnit.milliseconds = 1000
factor PeriodUnit.seconds = 1_000_000
factor PeriodUnit.minutes = 60_000_000
factor PeriodUnit.lone_u = 60_000_000

-- A period of n units, in decimal with a suffix, reads as the product on 64-bit words, and is
-- refused where this word is above LLONG_MAX. A lone `u` stands for a minute, as `m` does.
pub parse_period-decimal :
    (n : ℕ) (unit : PeriodUnit)
    → n ≤ ulong_max
    → parse_period (decimal n (suffix unit))
      ≡ (if ltb llong_max (n * factor unit % 2 ^ 64) then none else some (n * factor unit % 2 ^ 64))
unfolding parse_period signed
parse_period-decimal n PeriodUnit.bare h =
    rw (strtoull-decimal n [] refl, parse_period) (ground arith)
parse_period-decimal n PeriodUnit.microseconds h =
    rw (strtoull-decimal n (bytes "us") refl, parse_period) (ground arith)
parse_period-decimal n PeriodUnit.milliseconds h =
    rw (strtoull-decimal n (bytes "ms") refl, parse_period) (ground arith)
parse_period-decimal n PeriodUnit.seconds h =
    rw (strtoull-decimal n (bytes "s") refl, parse_period) (ground arith)
parse_period-decimal n PeriodUnit.minutes h =
    rw (strtoull-decimal n (bytes "m") refl, parse_period) (ground arith)
parse_period-decimal n PeriodUnit.lone_u h =
    rw (strtoull-decimal n (bytes "u") refl, parse_period) (ground arith)

scaled-lt : (p : ℕ) (v : ℕ × List ℕ) (q : ℕ) → scaled p v ≡ some q → q < 2 ^ 63
unfolding scaled
scaled-lt p (k, []) q h = ground arith
scaled-lt p (k, c ∷ cs) q h = cc

bind-some {ℓ κ} :
    {A : Type ℓ} {B : Type κ} (first : Option A) (next : A → Option B) {b : B}
    → (first >>=? next) ≡ some b
    → (a : A) × (next a ≡ some b)
bind-some none next h = cc
bind-some (some a) next h = (a, h)

-- Whatever the text, a period that is taken is a nonnegative `long long`.
pub parse_period-lt : (text : List ℕ) (q : ℕ) → parse_period text ≡ some q → q < 2 ^ 63
unfolding parse_period
parse_period-lt text q h =
    let (p, end) = strtoull text in
    let (v, rest) = bind-some (unit_prefix end) (λ w. unit_factor w.0 w.1 >>=? scaled p) h in
    let (w, last) = bind-some (unit_factor v.0 v.1) (scaled p) rest in scaled-lt p w q last

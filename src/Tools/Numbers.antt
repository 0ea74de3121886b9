-- ===== src/Tools/Numbers.antt =====
-- parse_uint, parse_period and sleep_us of tools/tools-common.c, on top of the C library's strtoul
-- and strtoull at base 10. `none` is -1, which the callers named *_or_die turn into an exit.
pub mod Laws
mod Tests
use libgpiod.Prelude.{
  ℕ, ◌+◌, ◌-◌, ◌*◌, ◌/◌, ◌%◌, ◌^◌, ◌==◌, ltb, leb, min, Bool, true, false, if◌then◌else◌, Option,
  none, some, List, [], ◌∷◌,
}
use libgpiod.Tools.Strings.{is_space, is_digit}

abbrev pub int_max : ℕ
int_max = 2 ^ 31 - 1

abbrev pub llong_max : ℕ
llong_max = 2 ^ 63 - 1

abbrev pub ulong_max : ℕ
ulong_max = 2 ^ 64 - 1

unfoldable pub skip_spaces : List ℕ → List ℕ
unfolding is_space
skip_spaces [] = []
skip_spaces (c ∷ cs) = if is_space c then skip_spaces cs else c ∷ cs

-- The digits at the front of a text, as a number, and the rest.
unfoldable pub take_digits : ℕ → List ℕ → ℕ × List ℕ
unfolding is_digit
take_digits n [] = (n, [])
take_digits n (c ∷ cs) =
    let rest = take_digits (n * 10 + (c - b'0')) cs in if is_digit c then rest else (n, c ∷ cs)

-- A number too large saturates; one behind a minus sign is negated as an unsigned word.
pub signed : Bool → ℕ → ℕ
signed negative n =
    if ltb ulong_max n then ulong_max else if negative then (2 ^ 64 - n) % 2 ^ 64 else n

-- What stands behind the sign; where no digit does, nothing is taken and the number is 0.
pub unsigned_part : List ℕ → Bool → List ℕ → ℕ × List ℕ
unfolding is_digit signed take_digits
unsigned_part all negative [] = (0, all)
unsigned_part all negative (c ∷ cs) =
    let (n, rest) = take_digits 0 (c ∷ cs) in
    if is_digit c then (signed negative n, rest) else (0, all)

pub signed_part : List ℕ → List ℕ → ℕ × List ℕ
unfolding unsigned_part
signed_part all [] = (0, all)
signed_part all (c ∷ cs) =
    if c == b'-'
    then unsigned_part all true cs
    else if c == b'+'
    then unsigned_part all false cs
    else unsigned_part all false (c ∷ cs)

-- strtoul and strtoull at base 10, with 64-bit words: the number and what `end` points to.
unfoldable pub strtoull : List ℕ → ℕ × List ℕ
unfolding signed_part skip_spaces
strtoull text = signed_part text (skip_spaces text)

pub whole_uint : ℕ × List ℕ → Option ℕ
whole_uint (o, []) = if leb o int_max then some o else none
whole_uint (o, c ∷ cs) = none

unfoldable pub parse_uint : List ℕ → Option ℕ
unfolding strtoull whole_uint
parse_uint option = whole_uint (strtoull option)

-- The switch over the byte behind the number: the factor so far, and the rest.
pub unit_prefix : List ℕ → Option (ℕ × List ℕ)
unit_prefix [] = some (0, [])
unit_prefix (c ∷ cs) =
    if c == b'u'
    then some (1, cs)
    else if c == b'm'
    then some (1000, cs)
    else if c == b's'
    then some (1_000_000, c ∷ cs)
    else none

-- The `if (m)` that follows.
pub unit_factor : ℕ → List ℕ → Option (ℕ × List ℕ)
unit_factor m [] = some (if m == 0 then 1000 else 60_000_000, [])
unit_factor m (c ∷ cs) =
    if m == 0 then some (1000, c ∷ cs) else if c == b's' then some (m, cs) else none

-- `p *= m` on 64-bit words, and the last test.
pub scaled : ℕ → ℕ × List ℕ → Option ℕ
scaled p (m, c ∷ cs) = none
scaled p (m, []) = let q = p * m % 2 ^ 64 in if ltb llong_max q then none else some q

infixl 5 ◌>>=?◌
abbrev pub ◌>>=?◌ {ℓ κ} : {A : Type ℓ} {B : Type κ} → Option A → (A → Option B) → Option B
none >>=? next = none
some a >>=? next = next a

unfoldable pub parse_period : List ℕ → Option ℕ
unfolding strtoull unit_prefix unit_factor scaled
parse_period option =
    let (p, end) = strtoull option in unit_prefix end >>=? λ u. unit_factor u.0 u.1 >>=? scaled p

-- The timespec of sleep_us.
unfoldable pub sleep_us : ℕ → ℕ × ℕ
sleep_us period = (period / 1_000_000, period % 1_000_000 * 1000)

-- ===== src/Tools/Strings.antt =====
-- Strings of C without their NUL: literals, the classes of ctype.h in the C locale, and the decimal
-- text that printf's %u, %d and %lu give for a number.
use Prim.Native.Char.{code}
use Prim.Native.String.{String}
use libgpiod.Prelude.{
  ℕ, zero, suc, ◌+◌, ◌/◌, ◌%◌, ◌==◌, leb, Bool, ◌&&◌, ◌||◌, if◌then◌else◌, List, [], ◌∷◌,
}

-- The bytes of an ASCII literal.
abbrev pub bytes : String → List ℕ
bytes String.[] = []
bytes (String.◌∷◌ c s) = code c ∷ bytes s

unfoldable pub is_space : ℕ → Bool
is_space c = (c == b' ') || (leb 9 c && leb c 13)

unfoldable pub is_digit : ℕ → Bool
is_digit c = leb b'0' c && leb c b'9'

-- The digits of n in front of a text; n + 1 rounds are enough.
unfoldable pub decimal_loop : ℕ → ℕ → List ℕ → List ℕ
decimal_loop zero n rest = rest
decimal_loop (suc fuel) n rest =
    let text = (b'0' + n % 10) ∷ rest in
    let more = decimal_loop fuel (n / 10) text in if n / 10 == 0 then text else more

unfoldable pub decimal : ℕ → List ℕ → List ℕ
unfolding decimal_loop
decimal n rest = decimal_loop (suc n) n rest

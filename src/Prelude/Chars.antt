-- ===== src/Prelude/Chars.antt =====
-- Strings of C in arrays of bytes: `strncpy`, `strcpy`, `strcmp` and the text of an array.
use Prim.Native.Nat.{ℕ, zero, suc}
use mathlib.Core.Path.{◌≡◌, refl, ap}
use mathlib.Core.Bool.{Bool, true, false, ◌&&◌}
use mathlib.Core.List.{List, [], ◌∷◌, ◌++◌}
use native.Mathlib.Omega.{arith}
use libgpiod.Prelude.Tests.{◌==◌, if◌then◌else◌}
use libgpiod.Prelude.Lists.{length, take, replicate, length-replicate}

-- The bytes before the first NUL.
unfoldable pub text : List ℕ → List ℕ
text [] = []
text (c ∷ cs) = if c == 0 then [] else c ∷ text cs

-- What strncpy(dst, src, n) leaves in dst[0 .. n].
unfoldable pub strncpy : ℕ → List ℕ → List ℕ
strncpy zero src = []
strncpy (suc n) [] = 0 ∷ strncpy n []
strncpy (suc n) (c ∷ cs) = if c == 0 then replicate (suc n) 0 else c ∷ strncpy n cs

-- What strcpy(dst, src) leaves in dst.
pub drop_after : List ℕ → List ℕ → List ℕ
drop_after [] [] = []
drop_after [] (d ∷ ds) = ds
drop_after (s ∷ ss) [] = []
drop_after (s ∷ ss) (d ∷ ds) = drop_after ss ds

unfoldable pub strcpy : List ℕ → List ℕ → List ℕ
unfolding text drop_after
strcpy dst src = text src ++ 0 ∷ drop_after (text src) dst

unfoldable pub same_bytes : List ℕ → List ℕ → Bool
same_bytes [] [] = true
same_bytes (a ∷ x) (b ∷ y) = (a == b) && same_bytes x y
same_bytes _ _ = false

-- strcmp(a, b) == 0
unfoldable pub str_equal : List ℕ → List ℕ → Bool
unfolding text same_bytes
str_equal a b = same_bytes (text a) (text b)

pub same_bytes→eq : (x y : List ℕ) → same_bytes x y ≡ true → x ≡ y
unfolding same_bytes
same_bytes→eq [] [] h = refl
same_bytes→eq [] (b ∷ y) h = cc
same_bytes→eq (a ∷ x) [] h = cc
same_bytes→eq (a ∷ x) (b ∷ y) h = ground (arith, same_bytes→eq x y)

pub length-strncpy : (n : ℕ) (src : List ℕ) → length (strncpy n src) ≡ n
unfolding strncpy
length-strncpy zero src = refl
length-strncpy (suc n) [] = ap suc (length-strncpy n [])
length-strncpy (suc n) (c ∷ cs) = ground (arith, length-replicate {A = ℕ} n 0, length-strncpy n cs)

-- A copy holds the first n bytes of the text.
pub text-strncpy : (n : ℕ) (src : List ℕ) → text (strncpy n src) ≡ take n (text src)
unfolding text strncpy
text-strncpy zero src = refl
text-strncpy (suc n) [] = refl
text-strncpy (suc n) (c ∷ cs) = ground (arith, text-strncpy n cs)

pub text-append_nul : (s rest : List ℕ) → text (text s ++ 0 ∷ rest) ≡ text s
unfolding text
text-append_nul [] rest = refl
text-append_nul (c ∷ cs) rest = ground (arith, text-append_nul cs rest)

pub text-strcpy : (dst src : List ℕ) → text (strcpy dst src) ≡ text src
unfolding strcpy
text-strcpy dst src = text-append_nul src (drop_after (text src) dst)

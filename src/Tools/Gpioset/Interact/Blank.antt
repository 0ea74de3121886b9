-- ===== src/Tools/Gpioset/Interact/Blank.antt =====
-- A line of input that holds nothing but blanks.
use libgpiod.Prelude.{ℕ, ◌≡◌, refl, Bool, true, ◌&&◌, some, List, [], ◌∷◌, arith}
use libgpiod.Kernel.{Kernel}
use libgpiod.LineRequest.{LineRequest}
use libgpiod.Tools.Strings.{is_space}
use libgpiod.Tools.Gpioset.Words.{split_from, all_words, split_words}
use libgpiod.Tools.Gpioset.Interact.{cut_blanks, trim, Session, no_word, interact_line}

abbrev pub all_blank : List ℕ → Bool
all_blank [] = true
all_blank (c ∷ cs) = is_space c && all_blank cs

cut_blanks-all_blank : (cs : List ℕ) → all_blank cs ≡ true → cut_blanks cs ≡ []
unfolding cut_blanks
cut_blanks-all_blank [] h = refl
cut_blanks-all_blank (c ∷ cs) h =
    let e : is_space c ≡ true = ground arith in
    rw (cut_blanks-all_blank cs (ground arith)) (rw e refl)

all_words-blank : (c : ℕ) → is_space c ≡ true → all_words (c ∷ []) ≡ []
unfolding all_words split_from
all_words-blank c h = rw (h, all_words) refl

-- A line of input that is not empty and holds nothing but blanks has no word, so the command is
-- read from a word that was not stored for this line.
pub interact_line-blank :
    (kernel : Kernel) (requests : List LineRequest) (unquoted : Bool) (s : Session kernel) (c : ℕ)
    (cs : List ℕ)
    → all_blank (c ∷ cs) ≡ true
    → interact_line kernel requests unquoted s (some (c ∷ cs)) ≡ no_word
unfolding interact_line trim split_words
interact_line-blank kernel requests unquoted s c cs h =
    rw (cut_blanks-all_blank cs (ground arith))
      (rw (all_words-blank c (ground arith)) (ground arith))

-- ===== src/Tools/Gpioset/Interact/Completion.antt =====
-- Tab completion of gpioset's interactive mode. A generator keeps the index of the next candidate
-- between its calls; a call gives the next match, or `none` for NULL.
use libgpiod.Prelude.{
  ℕ, zero, suc, ◌-◌, ◌==◌, Bool, true, false, not, ◌&&◌, ◌||◌, if◌then◌else◌, Option, none, some,
  List, [], ◌∷◌, length, map,
}
use libgpiod.Tools.Strings.{bytes, is_space}
use libgpiod.Tools.Resolver.{ResolvedLine}

abbrev pub drop : ℕ → List ℕ → List ℕ
drop zero text = text
drop (suc n) [] = []
drop (suc n) (c ∷ cs) = drop n cs

-- strncmp(text, prefix, strlen(prefix)) == 0
unfoldable pub has_prefix : List ℕ → List ℕ → Bool
has_prefix text [] = true
has_prefix [] (p ∷ ps) = false
has_prefix (c ∷ cs) (p ∷ ps) = (c == p) && has_prefix cs ps

-- `*text == '=' || isspace(*text)`, of the byte at the front.
abbrev pub ends_id : List ℕ → Bool
ends_id [] = false
ends_id (c ∷ cs) = (c == b'=') || is_space c

-- The loop of in_line_buffer from a byte of the buffer on. `after_blank` tells whether the byte
-- before is a blank; after a match that does not count, `skip` bytes are passed over.
unfoldable pub in_buffer_from : Bool → ℕ → List ℕ → List ℕ → Bool
unfolding has_prefix
in_buffer_from after_blank skip id [] = false
in_buffer_from after_blank (suc skip) id (c ∷ cs) = in_buffer_from (is_space c) skip id cs
in_buffer_from after_blank zero id (c ∷ cs) =
    let past = in_buffer_from (is_space c) (length id - 1) id cs in
    let next = in_buffer_from (is_space c) 0 id cs in
    if has_prefix (c ∷ cs) id
    then (if after_blank && ends_id (drop (length id) (c ∷ cs)) then true else past)
    else next

-- in_line_buffer, for an id that is not empty.
unfoldable pub in_line_buffer : List ℕ → List ℕ → Bool
unfolding in_buffer_from
in_line_buffer buffer id = in_buffer_from false 0 id buffer

-- The loop of a generator over the candidates that are left: the match and the candidates behind
-- it.
unfoldable pub next_match : (List ℕ → Bool) → List (List ℕ) → Option (List ℕ) × List (List ℕ)
next_match test [] = (none, [])
next_match test (candidate ∷ candidates) =
    let later = next_match test candidates in
    if test candidate then (some candidate, candidates) else later

unfoldable pub complete_line_id : List ℕ → List ℕ → List (List ℕ) → Option (List ℕ) × List (List ℕ)
unfolding next_match in_line_buffer has_prefix
complete_line_id buffer text left =
    next_match (λ id. has_prefix id text && not (in_line_buffer buffer id)) left

-- The candidates of complete_line_id at its first call.
abbrev pub line_ids : List ResolvedLine → List (List ℕ)
line_ids lines = map (λ line. line.id) lines

abbrev pub values : List (List ℕ)
values =
    bytes "1"
    ∷ bytes "0"
    ∷ bytes "active"
    ∷ bytes "inactive"
    ∷ bytes "on"
    ∷ bytes "off"
    ∷ bytes "true"
    ∷ bytes "false"
    ∷ []

unfoldable pub complete_value : List ℕ → List (List ℕ) → Option (List ℕ) × List (List ℕ)
unfolding next_match has_prefix
complete_value text left = next_match (λ value. has_prefix value text) left

abbrev pub commands : List (List ℕ)
commands =
    bytes "get" ∷ bytes "set" ∷ bytes "toggle" ∷ bytes "sleep" ∷ bytes "help" ∷ bytes "exit" ∷ []

unfoldable pub complete_command : List ℕ → List (List ℕ) → Option (List ℕ) × List (List ℕ)
unfolding next_match has_prefix
complete_command text left = next_match (λ cmd. has_prefix cmd text) left

-- The function that readline calls for the matches.
pub data Generator : Type 0 where
  of_command : Generator
  of_value : Generator
  of_line_id : Generator

-- What tab_completion does: it asks a generator, if any, with rl_completion_append_character, or it
-- reads the byte in front of the buffer.
pub data Completion : Type 0 where
  offered : Option Generator → ℕ → Completion
  outside : Completion

-- The first loop: how many blanks there are in front, up to `end`.
unfoldable pub skip_blanks : ℕ → List ℕ → ℕ
skip_blanks zero cs = 0
skip_blanks (suc n) [] = 0
skip_blanks (suc n) (c ∷ cs) = let rest = skip_blanks n cs in if is_space c then suc rest else 0

-- The second loop: how many bytes that are not blanks follow, up to `n`.
unfoldable pub skip_word : ℕ → List ℕ → ℕ
skip_word zero cs = 0
skip_word (suc n) [] = 0
skip_word (suc n) (c ∷ cs) = let rest = skip_word n cs in if is_space c then 0 else suc rest

-- The completion behind `set `.
abbrev pub complete_set : List ℕ → ℕ → Completion
complete_set buffer zero = outside
complete_set buffer (suc before) =
    if has_prefix (drop before buffer) (bytes "=")
    then offered (some of_value) b' '
    else offered (some of_line_id) b'='

-- tab_completion of the bytes from `start` to `end` of the buffer, which lie inside it.
unfoldable pub tab_completion : List ℕ → ℕ → ℕ → Completion
unfolding skip_blanks skip_word has_prefix
tab_completion buffer start end =
    let cmd_start = skip_blanks end buffer in
    let cmd = drop cmd_start buffer in
    let len = suc (skip_word (end - suc cmd_start) (drop 1 cmd)) in
    if (len == 3) && has_prefix cmd (bytes "set ")
    then complete_set buffer start
    else if ((len == 3) && has_prefix cmd (bytes "get "))
        || ((len == 6) && has_prefix cmd (bytes "toggle "))
    then offered (some of_line_id) b' '
    else if cmd_start == start
    then offered (some of_command) b' '
    else offered none b' '

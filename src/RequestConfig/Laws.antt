-- ===== src/RequestConfig/Laws.antt =====
-- The consumer's name is cut to the kernel's array and always ends in a NUL.
use libgpiod.Prelude.{
  ℕ, zero, suc, ◌≡◌, ◌∙◌, refl, ap, Option, none, some, List, [], ◌∷◌, ◌++◌, length, take,
  length-append, arith,
}
use libgpiod.Prelude.Chars.{text, strncpy, length-strncpy, text-strcpy}
use libgpiod.Uapi.{V2LineRequest, gpio_max_name_size}
use libgpiod.RequestConfig.{RequestConfig, set_consumer, clear_first, get_consumer, config_to_uapi}

abbrev pub non_empty : List ℕ → Option (List ℕ)
non_empty [] = none
non_empty (x ∷ xs) = some (x ∷ xs)

-- A name of n bytes in front of a NUL that nothing else ends.
text-terminated : (n : ℕ) (src : List ℕ) → text (strncpy n src ++ 0 ∷ []) ≡ take n (text src)
unfolding text strncpy
text-terminated zero src = refl
text-terminated (suc n) [] = refl
text-terminated (suc n) (c ∷ cs) = ground (arith, text-terminated n cs)

cleared_none : (xs : List ℕ) → non_empty (text (clear_first xs)) ≡ none
unfolding text clear_first
cleared_none [] = refl
cleared_none (c ∷ cs) = refl

-- The name that is read back is the one that was set, cut to 31 bytes; none, and an empty one, read
-- back as NULL. The array keeps its 32 bytes.
pub get_consumer-set_consumer :
    (c : RequestConfig) (name : List ℕ)
    → (get_consumer (set_consumer c (some name)) ≡ non_empty (take 31 (text name)))
      × (length (set_consumer c (some name)).consumer ≡ gpio_max_name_size)
      × (get_consumer (set_consumer c none) ≡ none)
unfolding get_consumer set_consumer clear_first
get_consumer-set_consumer c name = (
  ap non_empty (text-terminated 31 name),
  omega (arith, length-append (strncpy 31 name) (0 ∷ []), length-strncpy 31 name),
  cleared_none c.consumer,
)

-- The kernel is handed the same name.
pub text-config_to_uapi :
    (c : RequestConfig) (uapi : V2LineRequest)
    → non_empty (text (config_to_uapi c uapi).consumer) ≡ get_consumer c
unfolding config_to_uapi get_consumer
text-config_to_uapi c uapi = ap non_empty (text-strcpy uapi.consumer c.consumer)

-- The name that is set reaches the kernel, and reads back, cut to 31 bytes, whatever stood in either
-- array before. An empty name reads back as NULL, and so does NULL.
pub config_to_uapi-set_consumer :
    (c : RequestConfig) (name : List ℕ) (uapi : V2LineRequest)
    → (text (config_to_uapi (set_consumer c (some name)) uapi).consumer ≡ take 31 (text name))
      × (get_consumer (set_consumer c (some name)) ≡ non_empty (take 31 (text name)))
      × (get_consumer (set_consumer c none) ≡ none)
unfolding config_to_uapi set_consumer
config_to_uapi-set_consumer c name uapi = (
  text-strcpy uapi.consumer (strncpy 31 name ++ 0 ∷ []) ∙ text-terminated 31 name,
  (get_consumer-set_consumer c name).0,
  (get_consumer-set_consumer c name).2,
)

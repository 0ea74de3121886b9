-- ===== src/RequestConfig.antt =====
-- lib/request-config.c. The consumer is an array of GPIO_MAX_NAME_SIZE bytes.
pub mod Laws
mod Tests
use libgpiod.Prelude.{
  ℕ, ◌-◌, ◌%◌, ◌^◌, Bool, true, false, Option, none, some, List, [], ◌∷◌, ◌++◌, replicate,
}
use libgpiod.Prelude.Chars.{text, strncpy, strcpy}
use libgpiod.Uapi.{V2LineRequest, gpio_max_name_size}

pub record RequestConfig : Type 0 where
  pub consumer : List ℕ
  pub event_buffer_size : ℕ

-- gpiod_request_config_new
abbrev pub config_new : Bool → Option RequestConfig
config_new true = some (record { consumer = replicate gpio_max_name_size 0; event_buffer_size = 0 })
config_new false = none

-- Assignment of '\0' to the first byte.
pub clear_first : List ℕ → List ℕ
clear_first [] = []
clear_first (c ∷ cs) = 0 ∷ cs

-- gpiod_request_config_set_consumer
unfoldable pub set_consumer : RequestConfig → Option (List ℕ) → RequestConfig
unfolding clear_first
set_consumer c none = record c { consumer = clear_first c.consumer }
set_consumer c (some consumer) = record c {
  consumer = strncpy (gpio_max_name_size - 1) consumer ++ 0 ∷ [];
}

-- gpiod_request_config_get_consumer: the text of the array, or NULL if it is empty.
unfoldable pub get_consumer : RequestConfig → Option (List ℕ)
get_consumer c = elim (text c.consumer) [ [] ↦ none | x ∷ xs ↦ some (x ∷ xs) ]

-- gpiod_request_config_set_event_buffer_size
unfoldable pub set_event_buffer_size : RequestConfig → ℕ → RequestConfig
set_event_buffer_size c size = record c { event_buffer_size = size }

abbrev pub get_event_buffer_size : RequestConfig → ℕ
get_event_buffer_size c = c.event_buffer_size

-- gpiod_request_config_to_uapi; the size goes into a __u32.
unfoldable pub config_to_uapi : RequestConfig → V2LineRequest → V2LineRequest
config_to_uapi c uapi = record uapi {
  consumer = strcpy uapi.consumer c.consumer;
  event_buffer_size = c.event_buffer_size % 2 ^ 32;
}

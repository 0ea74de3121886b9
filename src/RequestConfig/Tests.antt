-- ===== src/RequestConfig/Tests.antt =====
-- Runs of the request config's operations.
use libgpiod.Prelude.{◌≡◌, refl, none, some, [], ◌∷◌, replicate}
use libgpiod.Prelude.Chars.{text, strncpy}
use libgpiod.Uapi.{V2LineRequest, gpio_max_name_size}
use libgpiod.RequestConfig.{
  RequestConfig, set_consumer, get_consumer, set_event_buffer_size, config_to_uapi,
}
use libgpiod.RequestConfig.Laws.{config_to_uapi-set_consumer}

abbrev fresh : RequestConfig
fresh = record { consumer = replicate gpio_max_name_size 0; event_buffer_size = 0 }

abbrev named : RequestConfig
named = record { consumer = b'a' ∷ b'b' ∷ replicate 30 0; event_buffer_size = 0 }

abbrev blank : V2LineRequest
blank = record {
  offsets = [];
  consumer = replicate gpio_max_name_size 0;
  config = record { flags = 0; attrs = [] };
  event_buffer_size = 0;
  fd = 0;
}

sized : (set_event_buffer_size fresh 16).event_buffer_size ≡ 16
unfolding set_event_buffer_size
sized = refl

handed_size :
    (config_to_uapi (set_event_buffer_size named 0x1_0000_0003) blank).event_buffer_size ≡ 3
unfolding config_to_uapi set_event_buffer_size
handed_size = refl

set_named : set_consumer fresh (some (b'a' ∷ b'b' ∷ 0 ∷ [])) ≡ named
unfolding set_consumer strncpy
set_named = refl

-- The kernel's array held another name before.
config_to_uapi-set_consumer_example :
    (text
        (config_to_uapi
          (set_consumer fresh (some (b'a' ∷ b'b' ∷ 0 ∷ [])))
          (record blank { consumer = replicate gpio_max_name_size b'x' })).consumer
      ≡ b'a' ∷ b'b' ∷ [])
    × (get_consumer (set_consumer fresh (some (b'a' ∷ b'b' ∷ 0 ∷ []))) ≡ some (b'a' ∷ b'b' ∷ []))
    × (get_consumer (set_consumer fresh none) ≡ none)
unfolding text
config_to_uapi-set_consumer_example =
    config_to_uapi-set_consumer fresh (b'a' ∷ b'b' ∷ 0 ∷ [])
      (record blank { consumer = replicate gpio_max_name_size b'x' })

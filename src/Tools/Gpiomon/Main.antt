-- ===== src/Tools/Gpiomon/Main.antt =====
-- main of gpiomon: from the lines of the command line to the requests, and the loop over them.
use libgpiod.Prelude.{
  ℕ, suc, ltb, Bool, false, if◌then◌else◌, Option, none, List, [], ◌∷◌, length, Result, replicate,
}
use libgpiod.Kernel.{Kernel}
use libgpiod.LineSettings.{LineSettings}
use libgpiod.LineConfig.{LineConfig, config_empty}
use libgpiod.RequestConfig.{RequestConfig}
use libgpiod.LineRequest.{LineRequest}
use libgpiod.EdgeEvent.{EventBuffer}
use libgpiod.Device.{Files}
use libgpiod.Tools.Exit.{Run, going, died, line_needed, too_many_lines}
use libgpiod.Tools.Printing.{Calendar}
use libgpiod.Tools.Resolver.{ResolvedLine, ResolvedChip, LineResolver}
use libgpiod.Tools.Resolver.Lookup.{resolve_lines}
use libgpiod.Tools.Resolver.Validate.{validate_resolution}
use libgpiod.Tools.Gpioset.Request.{request_chip, joined_requests, release_all}
use libgpiod.Tools.Gpioset.Main.{consumer_config}
use libgpiod.Tools.Gpiomon.{
  MonitorOptions, PollAll, Watching, watching, finished, dead, gpiomon_settings, monitor_config,
  event_print, watch_rounds,
}

-- The options of the lines' resolution.
pub record LookupOptions : Type 0 where
  pub consumer : List ℕ
  pub chip_id : Option (List ℕ)
  pub strict : Bool
  pub by_name : Bool

-- EVENT_BUF_SIZE slots, zeroed.
abbrev pub event_buffer : EventBuffer
event_buffer = record { capacity = 32; num_events = 0; events = replicate 32 none }

module _ (kernel : Kernel) where
  open kernel use {World}

  -- The loop of main after n rounds; where it has ended, the requests are released.
  unfoldable pub gpiomon_watch :
      ℕ
      → PollAll kernel
      → Calendar
      → MonitorOptions
      → World
      → LineResolver
      → List LineRequest
      → Watching kernel
  unfolding watch_rounds event_print release_all
  gpiomon_watch n poll_all calendar options w r requests =
      let start = watching (record {
        world = w;
        buffer = event_buffer;
        printed = record { output = []; events_done = 0; enough = false };
      }) in
      elim (watch_rounds kernel n poll_all
        (λ chip_num event. event_print calendar options r chip_num event) options requests start) [
          | watching m ↦ watching m
          | finished m ↦ finished (record m { world = release_all kernel m.world requests })
          | dead death ↦ dead death
        ]

  module _ (files : Files) where
    -- The loop over the chips, from a number on.
    unfoldable pub monitor_chips :
        LineSettings
        → RequestConfig
        → List ResolvedLine
        → List ResolvedChip
        → ℕ
        → LineConfig
        → World
        → World × Run (List LineRequest)
    unfolding request_chip monitor_config
    monitor_chips settings req_cfg lines [] chip_num c w = (w, going [])
    monitor_chips settings req_cfg lines (chip ∷ chips) chip_num c w =
        elim (monitor_config settings c lines chip_num) [
          | died death ↦ (w, died death)
          | going c' ↦
              let (w', answer) = request_chip kernel files w req_cfg c' chip in
              elim answer [
                | died death ↦ (w', died death)
                | going request ↦
                    joined_requests kernel request
                      (monitor_chips settings req_cfg lines chips (suc chip_num) c' w')
              ]
        ]

    abbrev pub monitor_resolved :
        LineSettings
        → RequestConfig
        → World × Run LineResolver
        → World × Run (LineResolver × List LineRequest)
    monitor_resolved settings req_cfg (w, died death) = (w, died death)
    monitor_resolved settings req_cfg (w, going r) = elim (validate_resolution r) [
      | died death ↦ (w, died death)
      | going _ ↦
          let (w', answer) = monitor_chips settings req_cfg r.lines r.chips 0 config_empty w in
          elim answer [ died death ↦ (w', died death) | going requests ↦ (w', going (r, requests)) ]
    ]

    -- From the words of the command line to the requests.
    unfoldable pub gpiomon_start :
        World
        → Result (List (List ℕ))
        → MonitorOptions
        → LookupOptions
        → List (List ℕ)
        → World × Run (LineResolver × List LineRequest)
    unfolding monitor_chips gpiomon_settings
    gpiomon_start w dev options lookup [] = (w, died line_needed)
    gpiomon_start w dev options lookup (word ∷ words) =
        if ltb 64 (length (word ∷ words))
        then (w, died too_many_lines)
        else elim (gpiomon_settings options) [
          | died death ↦ (w, died death)
          | going settings ↦ monitor_resolved settings (consumer_config lookup.consumer) (
              resolve_lines kernel files w dev (word ∷ words) lookup.chip_id lookup.strict
                lookup.by_name)
        ]

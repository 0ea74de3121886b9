-- ===== src/Tools/Gpioset/Tests.antt =====
-- Runs of gpioset's functions on two lines.
use libgpiod.Tools.Resolver.Validate.{same_chip}
use libgpiod.Mask.{mask_assign_bit}
use libgpiod.LineRequest.{offset_to_bit}
use libgpiod.Tools.Resolver.{get_line_offsets_and_values}
use libgpiod.LineRequest.{set_all_values}
use libgpiod.Tools.Gpioset.Toggle.{toggle_all_lines}
use libgpiod.Tools.Gpioset.Toggle.{apply_values}
use libgpiod.Tools.Strings.{is_space}
use libgpiod.Prelude.Chars.{same_bytes}
use libgpiod.Tools.Gpioset.Values.{find_id}
use libgpiod.Tools.Numbers.{parse_period}
use libgpiod.Prelude.{ℕ, ◌≡◌, refl, true, false, none, some, List, [], ◌∷◌, ok, arith, get_elem?}
use libgpiod.Enums.{LineValue, inactive, active, open_drain, pull_up}
use libgpiod.Fakes.{fake_kernel}
use libgpiod.Uapi.{V2LineRequest}
use libgpiod.LineConfig.{LineConfig, config_empty}
use libgpiod.LineConfig.Fresh.{fresh_config}
use libgpiod.LineConfig.Flags.{make_kernel_flags}
use libgpiod.LineConfig.ToUapi.{to_uapi}
use libgpiod.LineConfig.ToUapi.Effective.{line_value, line_flags}
use libgpiod.LineConfig.ToUapi.Total.{to_uapi-small}
use libgpiod.LineRequest.{LineRequest, cleared}
use libgpiod.Tools.Gpioset.Request.{LineOptions, gpioset_settings, chip_config}
use libgpiod.Tools.Gpioset.Request.Driven.{chip_config_lem, chip_config-driven}
use libgpiod.Tools.Options.{answer, stored}
use libgpiod.Tools.Gpioset.Options.{parse_config, set_options, no_options}
use libgpiod.Tools.Gpioset.Interact.Completion.{
  offered, outside, of_command, of_value, of_line_id, tab_completion, has_prefix, skip_blanks,
  skip_word,
}
use libgpiod.Tools.Banner.{listed, set_banner}
use libgpiod.Tools.Strings.{bytes}
use libgpiod.Tools.Exit.{going, died, bad_line_value, not_combined, unknown_option}
use libgpiod.Tools.Resolver.{ResolvedLine, line_init, get_line_offsets_and_values}
use libgpiod.Tools.Gpioset.Values.{
  parsed, invalid, parse_line_values, parse_line_values_or_die, print_all_line_values,
}
use libgpiod.Tools.Gpioset.Words.{all_words, split_words, parse_line_ids}
use libgpiod.Tools.Gpioset.Words.RoundTrip.{parse_line_values-print_all_line_values}
use libgpiod.Tools.Gpioset.Toggle.{toggle_sequence, parse_periods_or_die, hold_periods, returned}
use libgpiod.Tools.Gpioset.Toggle.Laws.{toggle_sequence-progress}
use libgpiod.Tools.Gpioset.Interact.{
  Session, session, no_word, interact, interact_line, set_line_values_subset, set_command,
  get_command, sleep_command,
}
use libgpiod.Tools.Gpioset.Interact.Laws.{
  value_with, value_with-set_line_values_subset, set_command-get_command,
}
use libgpiod.Tools.Gpioset.Interact.Blank.{interact_line-blank}
use libgpiod.Tools.Gpioset.Interact.Completion.{
  complete_command, complete_line_id, commands, line_ids,
}

abbrev line : List ℕ → ℕ → LineValue → ResolvedLine
line id offset value = record (line_init true id) {
  resolved = true;
  chip_num = some 0;
  offset = offset;
  value = value;
}

abbrev two_lines : List ResolvedLine
two_lines = line (bytes "a b") 4 active ∷ line (bytes "c") 9 inactive ∷ []

abbrev request : LineRequest
request = record { chip_name = []; offsets = 4 ∷ 9 ∷ []; fd = 5 }

abbrev start : Session fake_kernel
start = record { world = 0; lines = two_lines; slept = []; output = []; finished = false }

parsed_values :
    parse_line_values (bytes "\"a=b\"=on" ∷ bytes "c=0" ∷ [])
    ≡ parsed ((bytes "a=b", active) ∷ (bytes "c", inactive) ∷ [])
unfolding parse_line_values
parsed_values = refl

bad_values :
    (parse_line_values (bytes "c" ∷ []) ≡ invalid (bytes "c"))
    × (parse_line_values_or_die (bytes "c=2" ∷ []) ≡ died (bad_line_value (bytes "2")))
unfolding parse_line_values parse_line_values_or_die
bad_values = (refl, refl)

printed_values : print_all_line_values two_lines false ≡ bytes "\"a b\"=active \"c\"=inactive\n"
unfolding print_all_line_values
printed_values = refl

words :
    split_words (bytes " set \"a b\"=1  c") 3
    ≡ (3, bytes "set" ∷ bytes "\"a b\"=1" ∷ bytes "c" ∷ [])
unfolding split_words
words = refl

ids : parse_line_ids (bytes "\"a b\"" ∷ bytes "c" ∷ []) ≡ parsed (bytes "a b" ∷ bytes "c" ∷ [])
unfolding parse_line_ids
ids = refl

periods : parse_periods_or_die (bytes "1s,5,0") ≡ going (1_000_000 ∷ 5000 ∷ 0 ∷ [])
unfolding parse_periods_or_die parse_period
periods = refl

held : hold_periods 10 (3 ∷ 20 ∷ 0 ∷ []) ≡ 10 ∷ 20 ∷ 0 ∷ []
unfolding hold_periods
held = refl

-- 5000 seconds of sleep are taken as 705.
slept : sleep_command (bytes "5000s" ∷ []) ≡ parsed 705_032_704
unfolding sleep_command parse_period
slept = refl

completed : (complete_command (bytes "s") commands).0 ≡ some (bytes "set")
unfolding complete_command
completed = refl

not_twice : (complete_line_id (bytes "set c=1 ") (bytes "c") (line_ids two_lines)).0 ≡ none
unfolding complete_line_id is_space
not_twice = refl

-- "set", "toggle" and "exit": the value of the second line, bit 1, ends as 0 again.
dialogue :
    interact fake_kernel
      (request ∷ [])
      false
      (session start)
      (some (bytes "set c=1") ∷ none ∷ some (bytes "toggle") ∷ some (bytes "exit") ∷ none ∷ [])
    ≡ session (record {
      world = 0;
      lines = line (bytes "a b") 4 inactive ∷ line (bytes "c") 9 inactive ∷ [];
      slept = [];
      output = [];
      finished = true;
    })
unfolding interact apply_values set_all_values get_line_offsets_and_values offset_to_bit
    mask_assign_bit
dialogue = refl

parse_line_values-print_all_line_values_example :
    parse_line_values (all_words (print_all_line_values two_lines false))
    ≡ parsed ((bytes "a b", active) ∷ (bytes "c", inactive) ∷ [])
parse_line_values-print_all_line_values_example =
    parse_line_values-print_all_line_values two_lines false (refl, (refl, tt))

toggle_sequence-progress_example :
    toggle_sequence fake_kernel 5 (request ∷ []) (7 ∷ 0 ∷ []) 0 two_lines
    ≡ returned (record {
      i = 1;
      world = 2;
      lines = line (bytes "a b") 4 inactive ∷ line (bytes "c") 9 active ∷ [];
      slept = 7 ∷ [];
    })
unfolding apply_values toggle_all_lines set_all_values get_line_offsets_and_values offset_to_bit
    mask_assign_bit
toggle_sequence-progress_example =
    toggle_sequence-progress fake_kernel (request ∷ []) (7 ∷ []) 0 0 two_lines 5

value_with-set_line_values_subset_example :
    value_with (set_line_values_subset two_lines ((bytes "c", active) ∷ [])) (bytes "c")
    ≡ some active
unfolding same_bytes find_id
value_with-set_line_values_subset_example =
    value_with-set_line_values_subset two_lines ((bytes "c", active) ∷ []) (bytes "c")

set_command-get_command_example :
    set_command two_lines (all_words (get_command two_lines false []))
    ≡ record { lines = two_lines; applied = true; printed = [] }
unfolding same_bytes
set_command-get_command_example =
    set_command-get_command (line (bytes "a b") 4 active) (line (bytes "c") 9 inactive ∷ []) false
      (refl, (refl, tt)) ((refl, tt), (tt, tt)) (refl, (refl, tt))

interact_line-blank_example : interact_line fake_kernel [] false start (some (bytes "  ")) ≡ no_word
unfolding is_space
interact_line-blank_example = interact_line-blank fake_kernel [] false start b' ' (bytes " ") refl

abbrev options : LineOptions
options = record { bias = some pull_up; drive = some open_drain; active_low = true }

abbrev driven : LineConfig
driven = fresh_config (gpioset_settings options) (4 ∷ 9 ∷ []) (active ∷ inactive ∷ [])

small : (out : V2LineRequest) × (to_uapi driven cleared ≡ ok out)
small = to_uapi-small driven cleared (omega arith)

configured : chip_config (gpioset_settings options) config_empty two_lines 0 ≡ going driven
unfolding get_line_offsets_and_values same_chip
configured =
    chip_config_lem (gpioset_settings options) config_empty two_lines 0 refl (omega arith)
      (omega arith) refl

chip_config-driven_example :
    (get_elem? small.0.offsets 1 ≡ some 9)
    × (line_value small.0.config 1 ≡ some false)
    × (line_flags small.0.config 1 ≡ make_kernel_flags (gpioset_settings options))
unfolding get_line_offsets_and_values same_chip
chip_config-driven_example =
    chip_config-driven options config_empty driven two_lines 0 cleared small.0 1 9 inactive refl
      (omega arith) (omega arith) refl configured small.1 refl

combined : parse_config (answer b't' (bytes "1s") ∷ answer b'i' [] ∷ []) ≡ died not_combined
unfolding parse_config set_options parse_period same_bytes
combined = refl

stopped : parse_config (answer b's' [] ∷ answer b'?' [] ∷ answer b'i' [] ∷ []) ≡ died unknown_option
unfolding parse_config set_options
stopped = refl

daemon :
    parse_config (answer b'z' [] ∷ stored 1 ∷ answer b'C' (bytes "x") ∷ [])
    ≡ going (record no_options { daemonize = true; consumer = bytes "x" })
unfolding parse_config set_options
daemon = refl

complete_word : tab_completion (bytes " ge") 1 3 ≡ offered (some of_command) b' '
unfolding tab_completion has_prefix skip_blanks skip_word is_space
complete_word = refl

complete_id : tab_completion (bytes "set a") 4 5 ≡ offered (some of_line_id) b'='
unfolding tab_completion has_prefix skip_blanks skip_word is_space
complete_id = refl

complete_id_value : tab_completion (bytes "set a=") 6 6 ≡ offered (some of_value) b' '
unfolding tab_completion has_prefix skip_blanks skip_word is_space
complete_id_value = refl

complete_before_blank : tab_completion (bytes "set a") 0 3 ≡ outside
unfolding tab_completion has_prefix skip_blanks skip_word is_space
complete_before_blank = refl

two_line_banner : set_banner (bytes "a") (bytes "b" ∷ []) ≡ bytes "Setting lines 'a', and 'b'...\n"
unfolding set_banner listed
two_line_banner = refl

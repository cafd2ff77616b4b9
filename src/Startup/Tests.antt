-- ===== src/Startup/Tests.antt =====
-- -debug=false against a configuration that asks for debug.
use arex.Prelude.{◌≡◌, refl, true, false, ok}
use arex.Config.LogLevel.{Level, parse_log_level, trimmed, drop_spaces, codes_eq}
use arex.Startup.{Flags, start_level, resolve_level, resolve_debug, named_level, is_below_info}
use arex.Startup.Laws.{start_level_debug}

abbrev quiet : Flags
quiet = record { debug = false; debug_set = true; level = ""; level_set = false }

quiet_starts : start_level true "debug" quiet ≡ ok Level.info
unfolding start_level resolve_level resolve_debug named_level parse_log_level trimmed drop_spaces
    codes_eq
quiet_starts = refl

start_level_debug_example : is_below_info Level.info ≡ false
start_level_debug_example = start_level_debug true "debug" quiet Level.info quiet_starts

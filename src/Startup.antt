-- ===== src/Startup.antt =====
-- main.go: resolveDebug and resolveLevel, the level that arex logs at, and how run composes them.
pub mod Laws
pub mod Wiring
mod Tests
use arex.Prelude.{
  Bool, true, false, not, ◌&&◌, String, nonempty, Option, none, some, Result, ok, err, ◌>>=◌,
  if◌then◌else◌,
}
use arex.Config.LogLevel.{Level, parse_log_level}

-- Which of the two names is unknown.
pub data LevelError : Type 0 where
  bad_flag bad_config : LevelError

unfoldable pub resolve_debug : Bool → Bool → Bool → Bool
resolve_debug from_config from_flag flag_set = if flag_set then from_flag else from_config

-- `level < slog.LevelInfo`, which holds of one level.
abbrev pub is_below_info : Level → Bool
is_below_info Level.debug = true
is_below_info l = false

abbrev pub or_error : LevelError → Option Level → Result LevelError Level
or_error e none = err e
or_error e (some l) = ok l

-- The switch of resolveLevel: the flag, else the configuration, else info.
unfoldable pub named_level : String → String → Bool → Result LevelError Level
named_level from_config from_flag flag_set =
    if flag_set
    then or_error bad_flag (parse_log_level from_flag)
    else if nonempty from_config
    then or_error bad_config (parse_log_level from_config)
    else ok Level.info

unfoldable pub resolve_level : String → String → Bool → Bool → Bool → Result LevelError Level
resolve_level from_config from_flag flag_set debug debug_off = if debug then ok Level.debug else do
  level ← named_level from_config from_flag flag_set
  ok (if debug_off && is_below_info level then Level.info else level)

-- The flags of the command line that matter here.
pub record Flags : Type 0 where
  pub debug : Bool
  pub debug_set : Bool
  pub level : String
  pub level_set : Bool

-- As run calls them, with the configuration's debug and logLevel.
unfoldable pub start_level : Bool → String → Flags → Result LevelError Level
start_level config_debug config_level f =
    resolve_level config_level f.level f.level_set (resolve_debug config_debug f.debug f.debug_set)
      (f.debug_set && not f.debug)

-- ===== src/Startup/Laws.antt =====
-- How the debug switch and the log level agree: run of main.go.
use arex.Prelude.{
  ◌≡◌, Bool, false, ◌||◌, String, Result, ok, err, arith, Result-cases, inl, inr, if◌then◌else◌,
}
use arex.Config.LogLevel.{Level}
use arex.Startup.{
  Flags, LevelError, resolve_debug, named_level, resolve_level, start_level, is_below_info,
}

abbrev pub is_debug : Result LevelError Level → Bool
is_debug (ok l) = is_below_info l
is_debug (err e) = false

-- The flag -debug decides whether arex starts at debug, where it is given; with -debug=false it
-- starts above, whatever names the level. Where the flag is not given, debug in the configuration
-- does it, or else the level that is named.
pub start_level_debug :
    (config_debug : Bool) (config_level : String) (f : Flags) (l : Level)
    → start_level config_debug config_level f ≡ ok l
    → is_below_info l ≡ (
        if f.debug_set
        then f.debug
        else (config_debug || is_debug (named_level config_level f.level f.level_set)))
unfolding start_level resolve_level resolve_debug
start_level_debug config_debug config_level f l h =
    elim (Result-cases (named_level config_level f.level f.level_set)) [
      | inl (named, e) ↦ ground arith
      | inr (bad, e) ↦ ground arith
    ]

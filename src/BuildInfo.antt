-- ===== src/BuildInfo.antt =====
-- internal/buildinfo/buildinfo.go: which build is running. The Go runtime's answers are arguments:
-- runtime.Version() and debug.ReadBuildInfo(), which is none where the binary has no stamps.
pub mod Laws
mod Tests
use arex.Prelude.{
  ◌≡◌, refl, Bool, true, String, ◌+s◌, str_eq, nonempty, List, [], ◌∷◌, Option, none, some,
  if◌then◌else◌, arith, eq_iff, not, ◌&&◌,
}
use arex.Prelude.Assoc.{Map}

pub record Build : Type 0 where
  pub version : String
  pub revision : String
  pub go_version : String
  pub modified : String
  pub built : String

unfoldable pub to_string : Build → String
to_string b =
    "arex " +s b.version +s " (commit " +s b.revision +s ", built " +s b.built +s ", "
    +s b.go_version +s ", modified " +s b.modified +s ")"

-- debug.BuildInfo, as far as it is read: Main.Version and the settings in their order.
pub record DebugInfo : Type 0 where
  pub main_version : String
  pub settings : Map String

unfoldable pub read_setting : String → String → Build → Build
read_setting key value b =
    if str_eq key "vcs.revision"
    then record b { revision = value }
    else if str_eq key "vcs.modified"
    then record b { modified = value }
    else if str_eq key "vcs.time"
    then record b { built = value }
    else b

-- The loop over the settings.
unfoldable pub read_settings : Map String → Build → Build
unfolding read_setting
read_settings [] b = b
read_settings ((key, value) ∷ rest) b = read_settings rest (read_setting key value b)

abbrev pub or_unknown : String → String
or_unknown s = if nonempty s then s else "unknown"

unfoldable pub read_debug_info : Option DebugInfo → Build → Build
unfolding read_settings
read_debug_info none b = b
read_debug_info (some info) b =
    read_settings info.settings
      (record b { version = if nonempty b.version then b.version else info.main_version })

-- `version` is the variable that a release build sets.
unfoldable pub load_build : String → String → Option DebugInfo → Build
unfolding read_debug_info
load_build version go_version info =
    let b = read_debug_info info (record {
      version = version;
      revision = "unknown";
      go_version = go_version;
      modified = "unknown";
      built = "unknown";
    }) in
    record b { version = or_unknown b.version; go_version = or_unknown b.go_version }

-- once.Do: the first call loads, the later ones read what it left.
unfoldable pub get_build : Option Build → String → String → Option DebugInfo → Build × Option Build
unfolding load_build
get_build none version go_version info = let b = load_build version go_version info in (b, some b)
get_build (some cached) version go_version info = (cached, some cached)

-- ===== src/BuildInfo/Tests.antt =====
-- A build with a stamp, and one without a record.
use arex.Prelude.{◌≡◌, refl, true, [], ◌∷◌, some}
use arex.BuildInfo.{DebugInfo, load_build}
use arex.BuildInfo.Laws.{is_filled, load_build_filled}

abbrev stamped : DebugInfo
stamped = record { main_version = "(devel)"; settings = ("vcs.revision", "abc") ∷ [] }

stamped_build : is_filled (load_build "" "go1" (some stamped)) ≡ true
stamped_build = load_build_filled "" "go1" (some stamped) refl

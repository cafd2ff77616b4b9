-- ===== src/Config/Modules.antt =====
-- Which command groups a switch collects and how often: resolveInterval of config/module.go, and
-- CollectKeys, EffectiveCollect, validateCollect and validateScope of config/config.go.
pub mod Laws
use arex.Prelude.{
  ℕ, ◌*◌, Bool, true, false, ◌&&◌, ◌||◌, not, String, str_eq, codes, List, [], ◌∷◌, Option, none,
  some, Result, ok, err, ltb, ◌==◌, any, if◌then◌else◌,
}
use arex.Prelude.Int.{pos, ltb_ℤ, is_pos, is_zero}
use arex.Prelude.Assoc.{Map, lookup, copy_over}
use arex.GoTime.{Duration, minute}
use arex.Config.Types.{ModuleConfig, CollectSet, SwitchConfig}

-- Five modules default to an interval of their own.
abbrev pub default_module_interval : Map Duration
default_module_interval =
    ("ntp", pos minute)
    ∷ ("capacity", pos (5 * minute))
    ∷ ("esi", pos (15 * minute))
    ∷ ("transceiver", pos (5 * minute))
    ∷ ("phy", pos (15 * minute))
    ∷ []

abbrev pub collect_keys : List String
collect_keys =
    "processes" ∷ "temperature" ∷ "power" ∷ "cooling" ∷ "ntp" ∷ "capacity" ∷ "interfaces" ∷ "bgp"
    ∷ "vxlan" ∷ "evpn" ∷ "esi" ∷ "transceiver" ∷ "phy" ∷ []

-- A missing key of a map of durations reads as 0.
abbrev pub duration_or_zero : Option Duration → Duration
duration_or_zero none = pos 0
duration_or_zero (some d) = d

unfoldable pub resolve_interval : String → Duration → Duration → Duration
resolve_interval module_name explicit poll_interval =
    let d =
      if is_zero explicit
      then duration_or_zero (lookup module_name default_module_interval)
      else explicit in
    if ltb_ℤ d poll_interval then poll_interval else d

-- The second loop of EffectiveCollect: enabled entries, at their resolved intervals.
unfoldable pub resolve_all : Duration → CollectSet → CollectSet
resolve_all poll_interval [] = []
resolve_all poll_interval ((k, v) ∷ m) =
    let rest = resolve_all poll_interval m in
    if v.enabled
    then (k, record { enabled = true; interval = resolve_interval k v.interval poll_interval })
      ∷ rest
    else rest

unfoldable pub effective_collect : SwitchConfig → CollectSet → Duration → CollectSet
effective_collect s defaults poll_interval =
    resolve_all poll_interval (copy_over s.collect (copy_over defaults []))

pub data CollectError : Type 0 where
  unknown_key : String → String → CollectError
  too_short : String → String → Duration → Duration → CollectError

unfoldable pub is_known_key : String → Bool
is_known_key k = any (str_eq k) collect_keys

unfoldable pub validate_collect : CollectSet → String → Duration → Result CollectError (Unit {0})
validate_collect [] location poll_interval = ok tt
validate_collect ((k, m) ∷ rest) location poll_interval =
    let checked = validate_collect rest location poll_interval in
    if not (is_known_key k)
    then err (unknown_key location k)
    else if is_pos m.interval && ltb_ℤ m.interval poll_interval
    then err (too_short location k m.interval poll_interval)
    else checked

abbrev pub is_control : ℕ → Bool
is_control r = ltb r 0x20 || (r == 0x7f)

-- True where the source reports no error.
unfoldable pub scope_is_valid : String → Bool
scope_is_valid scope = not (any is_control (codes scope))

-- ===== src/Config/Tests.antt =====
-- Collect blocks and switches: the theorems of the configuration at concrete values.
use arex.Prelude.{◌≡◌, refl, ◌↔◌, ◌*◌, true, false, String, [], ◌∷◌, some, ok}
use arex.Prelude.Int.{pos}
use arex.Prelude.Assoc.{lookup, copy_over, insert}
use arex.Prelude.Assoc.Laws.{Distinct}
use arex.GoTime.{second, minute}
use arex.Config.Types.{ModuleConfig, CollectSet, SwitchConfig}
use arex.Config.Modules.{effective_collect, resolve_all, resolve_interval, validate_collect}
use arex.Config.Modules.Laws.{Acceptable, lookup-effective_collect, resolved, validate_collect_iff}

abbrev fleet : CollectSet
fleet =
    ("phy", record { enabled = true; interval = pos 0 })
    ∷ ("bgp", record { enabled = true; interval = pos 0 })
    ∷ []

abbrev spine : SwitchConfig
spine = record {
  host = "https://10.0.0.1";
  username = "prometheus";
  password = "secret";
  password_file = "";
  name = "spine1";
  fabric = "";
  tls_skip_verify = true;
  ca_file = "";
  pinned_cert_sha256 = "";
  collect = ("bgp", record { enabled = false; interval = pos 0 }) ∷ [];
  interface_scope = "";
}

fleet-Distinct : Distinct fleet
unfolding lookup
fleet-Distinct = (refl, (refl, tt))

spine-Distinct : Distinct spine.collect
unfolding lookup
spine-Distinct = (refl, tt)

lookup-effective_collect_example :
    lookup "phy" (effective_collect spine fleet (pos (30 * second)))
    ≡ resolved "phy" (pos (30 * second)) (lookup "phy" fleet)
unfolding lookup
lookup-effective_collect_example =
    lookup-effective_collect "phy" spine fleet (pos (30 * second)) spine-Distinct fleet-Distinct

-- The default of phy is a quarter of an hour, and bgp is switched off.
effective_spine :
    effective_collect spine fleet (pos (30 * second))
    ≡ ("phy", record { enabled = true; interval = pos (15 * minute) }) ∷ []
unfolding effective_collect resolve_all resolve_interval lookup copy_over insert
effective_spine = refl

validate_collect_iff_example : (validate_collect fleet "collect" (pos (30 * second)) ≡ ok tt) ↔ (
    (k : String) (m : ModuleConfig) → lookup k fleet ≡ some m → Acceptable (pos (30 * second)) k m)
validate_collect_iff_example =
    validate_collect_iff fleet "collect" (pos (30 * second)) fleet-Distinct

-- ===== src/Metrics/Catalogue.antt =====
-- internal/metrics/catalogue.go: the families, their descriptors and value types, and which of
-- them the switch collector and the build collector describe. A Desc is the arguments of
-- prometheus.NewDesc, since that type belongs to the client library.
pub mod Labels
pub mod Laws
mod FirstFamilies
mod InterfaceFamilies
mod PhyFamilies
mod LastFamilies
use text.Mathlib.Text.{starts_with}
use arex.Prelude.{Bool, not, String, str_eq, List, [], ◌∷◌, ◌++◌, map, keep, Option, if◌then◌else◌}
use arex.Prelude.Assoc.{Map, lookup}
use arex.Metrics.Catalogue.Labels.{MetricDef}
use arex.Metrics.Catalogue.FirstFamilies.{first_families}
use arex.Metrics.Catalogue.InterfaceFamilies.{interface_families}
use arex.Metrics.Catalogue.PhyFamilies.{phy_families}
use arex.Metrics.Catalogue.LastFamilies.{last_families}

unfoldable pub metric_defs : List MetricDef
unfolding first_families interface_families phy_families last_families
metric_defs = first_families ++ interface_families ++ phy_families ++ last_families

pub data ValueType : Type 0 where
  counter_value gauge_value : ValueType

unfoldable pub value_type : MetricDef → ValueType
value_type d = if str_eq d.typ "counter" then counter_value else gauge_value

pub record Desc : Type 0 where
  pub name : String
  pub help : String
  pub labels : List String

abbrev pub new_desc : MetricDef → Desc
new_desc d = record { name = d.name; help = d.help; labels = d.labels }

-- The two maps are built by the same loop, from a value for each family.
unfoldable pub by_name : {V : Type 0} → (MetricDef → V) → List MetricDef → Map V
by_name f [] = []
by_name f (d ∷ defs) = (d.name, f d) ∷ by_name f defs

unfoldable pub descs : Map Desc
unfolding by_name metric_defs
descs = by_name new_desc metric_defs

unfoldable pub types : Map ValueType
unfolding by_name metric_defs value_type
types = by_name value_type metric_defs

abbrev pub is_internal : MetricDef → Bool
is_internal d = starts_with d.name "arex_"

unfoldable pub switch_descs : List Desc
unfolding metric_defs
switch_descs = map new_desc (keep (λ d. not (is_internal d)) metric_defs)

unfoldable pub internal_descs : List Desc
unfolding metric_defs
internal_descs = map new_desc (keep is_internal metric_defs)

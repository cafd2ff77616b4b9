-- ===== src/Metrics/Emit.antt =====
-- How internal/metrics/collector.go emits a sample: set, setBool, setTime, and the two helpers for
-- PHY attributes. The channel is the list of the metrics sent so far; a function gives what it
-- sends. What the client library and float64 do is the parameter Host.
pub mod Laws
use arex.Prelude.{ℕ, Bool, String, ◌+s◌, List, [], ◌∷◌, ◌++◌, Option, none, some, if◌then◌else◌}
use arex.Prelude.Int.{ℤ}
use arex.Prelude.Assoc.{lookup}
use arex.GoTime.{Duration}
use arex.Eapi.Types.Optics.{PhyBoolAttr, PhyCounterAttr}
use arex.Metrics.Catalogue.{Desc, ValueType, gauge_value, descs, types}

-- float64: its conversions from the integers, `*`, `/`, the test `<= 0` and Duration.Seconds.
-- prometheus.NewConstMetric: whether it gives a metric for the label values, or an error.
pub record Host (F : Type 0) : Type 0 where
  pub of_ℕ : ℕ → F
  pub of_ℤ : ℤ → F
  pub mul : F → F → F
  pub quot : F → F → F
  pub at_most_zero : F → Bool
  pub seconds : Duration → F
  pub accepts : Desc → List String → Bool

pub data Metric (F : Type 0) : Type 0 where
  const_metric : Desc → ValueType → F → List String → Metric F
  invalid_metric : Option Desc → Metric F

-- A missing key of `types` reads as the zero ValueType, which no family has.
abbrev pub type_or_gauge : Option ValueType → ValueType
type_or_gauge none = gauge_value
type_or_gauge (some t) = t

module _ {F : Type 0} ⦃h : Host F⦄ where
  unfoldable pub set : String → F → List String → List (Metric F)
  set name v label_values = elim (lookup name descs) [
    | none ↦ invalid_metric none ∷ []
    | some d ↦
        if h.accepts d label_values
        then const_metric d (type_or_gauge (lookup name types)) v label_values ∷ []
        else invalid_metric (some d) ∷ []
  ]

  unfoldable pub set_bool : String → Bool → List String → List (Metric F)
  unfolding set
  set_bool name b label_values = set name (if b then h.of_ℕ 1 else h.of_ℕ 0) label_values

  unfoldable pub set_time : String → F → List String → List (Metric F)
  unfolding set
  set_time name epoch label_values =
      let sample = set name epoch label_values in if h.at_most_zero epoch then [] else sample

  unfoldable pub bool_attr : String → PhyBoolAttr F → List String → List (Metric F)
  unfolding set set_bool
  bool_attr name a lv =
      set_bool name a.value lv ++ set (name +s "_changes_total") (h.of_ℕ a.changes) lv

  unfoldable pub count_attr : String → PhyCounterAttr F → List String → List (Metric F)
  unfolding set set_time
  count_attr name a lv =
      set name a.value lv
      ++ set (name +s "_changes_total") (h.of_ℕ a.changes) lv
      ++ set_time (name +s "_last_change_timestamp_seconds") a.last_change lv

-- ===== src/Metrics/Requests.antt =====
-- The decision of NewHandler in internal/metrics/handler.go: what a scrape request is refused for,
-- and else which of the registries answers it. A refusal stands for its text by the arguments of the
-- text; all of them are answered with the status 400.
pub mod Laws
use arex.Prelude.{
  Bool, true, false, not, ◌&&◌, ◌||◌, String, nonempty, str_eq, List, [], ◌∷◌, any, Option, none,
  some, if◌then◌else◌,
}
use arex.Prelude.Assoc.{Map, lookup, has}
use arex.Config.Modules.{collect_keys}
use arex.Collector.Data.{SwitchData, Store, get, get_each}

abbrev pub internal_target : String
internal_target = "internal"

pub record Filter : Type 0 where
  pub module_name : String
  pub interface : String

-- The three values of the query that the handler reads.
pub record Query : Type 0 where
  pub target : String
  pub filter : Filter

pub data Refusal : Type 0 where
  filter_on_internal : Refusal
  unknown_module unknown_target : String → Refusal
  unknown_interface : String → String → Refusal

-- The registry that answers: arex's own metrics, every switch's beside them, or those of a label
-- ("" for every switch) under a filter.
pub data Answer : Type 0 where
  refused : Refusal → Answer
  internal full : Answer
  filtered : String → Filter → Answer

unfoldable pub valid_modules : List String
valid_modules = "version" ∷ collect_keys

abbrev pub is_valid_module : String → Bool
is_valid_module name = any (str_eq name) valid_modules

module _ {F : Type 0} where
  unfoldable pub has_interface : String → SwitchData F → Bool
  has_interface name sw =
      has name sw.output.interfaces.interfaces
      || has name sw.output.optics.interfaces
      || has name sw.output.phy.interfaces

  unfoldable pub known_interface : Store F → String → String → Bool
  known_interface store label name =
      if nonempty label
      then (elim (get store label) [ none ↦ false | some sw ↦ has_interface name sw ])
      else any (λ o. elim o [ none ↦ false | some sw ↦ has_interface name sw ])
          (get_each store store.order)

  -- From the resolved label on.
  unfoldable pub serve_label : Store F → Query → String → Answer
  serve_label store q label =
      if nonempty q.filter.interface && not (known_interface store label q.filter.interface)
      then refused (unknown_interface q.filter.interface label)
      else if str_eq q.target internal_target
      then internal
      else if str_eq q.target "" && str_eq q.filter.module_name "" && str_eq q.filter.interface ""
      then full
      else filtered label q.filter

  unfoldable pub handle : Store F → Map String → Query → Answer
  handle store index q =
      if str_eq q.target internal_target
        && (nonempty q.filter.module_name || nonempty q.filter.interface)
      then refused filter_on_internal
      else if nonempty q.filter.module_name && not (is_valid_module q.filter.module_name)
      then refused (unknown_module q.filter.module_name)
      else if nonempty q.target && not (str_eq q.target internal_target)
      then (elim (lookup q.target index) [
        | none ↦ refused (unknown_target q.target)
        | some label ↦ serve_label store q label
      ])
      else serve_label store q ""

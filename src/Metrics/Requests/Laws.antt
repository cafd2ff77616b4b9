-- ===== src/Metrics/Requests/Laws.antt =====
-- What a scrape request is answered with: NewHandler of internal/metrics/handler.go over the index of
-- its targets.
use arex.Prelude.{
  ◌≡◌, Bool, true, false, String, nonempty, str_eq, List, some, arith, eq_iff, ◌↔◌, ◌&&◌,
  if◌then◌else◌, not,
}
use arex.Prelude.Assoc.{Map, lookup, has}
use arex.Config.Types.{SwitchConfig}
use arex.Collector.Data.{Store}
use arex.Metrics.Targets.{target_index, text_or_nil}
use arex.Metrics.Targets.Owners.{StandsFor, target_index_sound}
use arex.Metrics.Requests.{
  Answer, refused, filtered, Filter, Query, internal_target, handle, serve_label, known_interface,
  is_valid_module,
}

abbrev pub is_refused : Answer → Bool
is_refused (refused r) = true
is_refused a = false

-- Whether the target is a switch: not empty, and not arex itself.
abbrev pub names_switch : Query → Bool
names_switch q = nonempty q.target && not (str_eq q.target internal_target)

-- The label of the switch that is selected, "" for all of them.
abbrev pub selected_label : Map String → Query → String
selected_label index q = if names_switch q then text_or_nil (lookup q.target index) else ""

abbrev pub IsAcceptable : {F : Type 0} → Store F → Map String → Query → Type 0
IsAcceptable store index q =
    (q.target ≡ internal_target
      → (nonempty q.filter.module_name ≡ false) × (nonempty q.filter.interface ≡ false))
    × (nonempty q.filter.module_name ≡ true → is_valid_module q.filter.module_name ≡ true)
    × (names_switch q ≡ true → has q.target index ≡ true)
    × (nonempty q.filter.interface ≡ true
        → known_interface store (selected_label index q) q.filter.interface ≡ true)

module _ {F : Type 0} (store : Store F) (q : Query) where
  handled_label :
      (index : Map String) (l : String) (f : Filter)
      → nonempty q.target ≡ true
      → handle store index q ≡ filtered l f
      → (lookup q.target index ≡ some l) × (f ≡ q.filter)
  unfolding handle serve_label
  handled_label index l f given h = ground arith

  -- A request for a target other than arex itself that is answered with the metrics of a label is
  -- answered with those of the switch that the target stands for: that switch has the label and is
  -- named by the target, and no switch with another label is, unless the target is the label.
  pub handle_target_sound :
      (switches : List SwitchConfig) (l : String) (f : Filter)
      → nonempty q.target ≡ true
      → handle store (target_index switches) q ≡ filtered l f
      → StandsFor q.target l switches
  handle_target_sound switches l f given h =
      target_index_sound q.target given switches l
        (handled_label (target_index switches) l f given h).0

  -- A request is answered exactly if it puts no filter on arex itself, its module exists, its target
  -- is known, and its interface is known of the switch that it selects, each of these where it is
  -- given.
  pub handle_refused_iff :
      (index : Map String)
      → (is_refused (handle store index q) ≡ false) ↔ IsAcceptable store index q
  unfolding handle serve_label
  handle_refused_iff index = (
    λ h. ground (arith, eq_iff q.target internal_target),
    λ h. ground (arith, eq_iff q.target internal_target),
  )

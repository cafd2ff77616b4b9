-- ===== src/Collector/Tests/Stores.antt =====
-- The store of two switches, and the order of the times after a poll.
use arex.Prelude.{ℕ, ◌≡◌, refl, String, true, List, [], ◌∷◌, map, some, arith}
use arex.Prelude.Int.{pos}
use arex.Prelude.Assoc.{lookup, insert}
use arex.Config.Types.{SwitchConfig, label}
use arex.Collector.Data.{Store, new_store, add_switches, get_each}
use arex.Collector.Data.Laws.{
  WellLabelled, fresh_switch, distinct_labels, is_ok, with_switch, new_store_refines, new_store_iff,
}
use arex.Collector.Collect.{collect}
use arex.Collector.Collect.Order.{LastOrdered, new_switch_data-LastOrdered, collect-LastOrdered}
use arex.Collector.Fixtures.{two_specs, idle_decoder, picky}
use arex.Collector.Fixtures

abbrev named : String → SwitchConfig
named name = record {
  host = "https://10.0.0.1";
  username = "prometheus";
  password = "secret";
  password_file = "";
  name = name;
  fabric = "";
  tls_skip_verify = true;
  ca_file = "";
  pinned_cert_sha256 = "";
  collect = [];
  interface_scope = "";
}

abbrev leaf_and_spine : List SwitchConfig
leaf_and_spine = named "leaf1" ∷ named "spine1" ∷ []

built : Store ℕ
unfolding with_switch
built =
    with_switch 0 [] (pos 30)
      (with_switch 0 [] (pos 30) (record { switches = []; order = [] }) (named "leaf1"))
      (named "spine1")

new_store_refines_example :
    (get_each built built.order ≡ map (λ sw. some (fresh_switch 0 [] (pos 30) sw)) leaf_and_spine)
    × WellLabelled built
unfolding built with_switch new_store add_switches fresh_switch label lookup insert
new_store_refines_example = new_store_refines 0 [] (pos 30) leaf_and_spine built refl

new_store_iff_example :
    is_ok (new_store {F = ℕ} 0 leaf_and_spine [] (pos 30)) ≡ distinct_labels leaf_and_spine
new_store_iff_example = new_store_iff {F = ℕ} 0 [] (pos 30) leaf_and_spine

collect-LastOrdered_example :
    LastOrdered (collect picky idle_decoder 0 Fixtures.fresh_switch two_specs 100 0).switch
unfolding Fixtures.fresh_switch
collect-LastOrdered_example =
    collect-LastOrdered picky idle_decoder 0 Fixtures.fresh_switch two_specs 100 0
      (refl, (refl, tt)) (omega arith) (new_switch_data-LastOrdered {F = ℕ} 0 "leaf1" "" two_specs)

-- ===== src/Metrics/Render/Tests.antt =====
-- The theorems on rendering and serving at a switch that was polled.
use arex.Prelude.{
  ℕ, ◌≡◌, refl, String, nonempty, List, [], ◌∷◌, ◌++◌, flat_map, Memᴰ, some, ok, arith, eq_iff,
  true,
}
use arex.Prelude.Int.{pos}
use arex.Prelude.Assoc.{Map, lookup}
use arex.GoTime.{since}
use arex.BuildInfo.{Build}
use arex.Collector.Data.{get, get_each}
use arex.Collector.Collect.Order.{LastOrdered}
use arex.Collector.Fixtures.{fresh_switch}
use arex.Metrics.Requests.{Query, handle, serve_label, valid_modules}
use arex.Metrics.Catalogue.{gauge_value, descs, types, by_name, metric_defs, value_type}
use arex.Metrics.Catalogue.Laws.{is_valid_desc}
use arex.Metrics.Emit.{Metric, const_metric, set, set_bool}
use arex.Metrics.Emit.Laws.{IsDescribed}
use arex.Metrics.Render.Switch.{
  new_collector, new_switch_collector, collect_modules, collect_aged, collect_switch, collect_found,
  collect_store,
}
use arex.Metrics.Render.Described.Scrape.{Asked, collect_store-IsDescribed}
use arex.Metrics.Render.Staleness.{collect_aged-collect_modules}
use arex.Metrics.Render.Filter.{Narrows, on_the_scrape, collect_switch-Within}
use arex.Metrics.Render.Partition.{of_module, collect_modules-valid_modules}
use arex.Metrics.Render.Fixtures.{
  whole, whole_counts, polled_switch, one_switch, one_switch-WellLabelled, lenient,
}
use arex.Metrics.Serve.{serve, scrape}
use arex.Metrics.Serve.Laws.{scrape_switch}

polled-LastOrdered : LastOrdered polled_switch
unfolding polled_switch lookup
polled-LastOrdered cli last e = ground arith

-- The limit is passed by the data of one command and not of the other.
collect_aged-collect_modules_example :
    collect_aged lenient polled_switch 1050
    ≡ set "arista_scrape_age_seconds"
        (whole.seconds (since 1050 polled_switch.last_success))
        (polled_switch.label ∷ [])
      ++ collect_modules lenient polled_switch 1050
collect_aged-collect_modules_example =
    collect_aged-collect_modules lenient polled_switch 1050 (omega arith) polled-LastOrdered

collect_switch-Within_example :
    Narrows
      (on_the_scrape polled_switch 1050)
      (collect_switch
        (new_switch_collector (pos 100) "leaf1" (of_module "version"))
        polled_switch
        1050)
      (collect_switch (new_collector (pos 100)) polled_switch 1050)
collect_switch-Within_example =
    collect_switch-Within (pos 100) "leaf1" (of_module "version") polled_switch 1050

collect_modules-valid_modules_example :
    collect_modules (new_collector (pos 100)) polled_switch 1050
    ≡ flat_map
        (λ name.
          collect_modules (new_switch_collector (pos 100) "" (of_module name)) polled_switch 1050)
        valid_modules
collect_modules-valid_modules_example =
    collect_modules-valid_modules (pos 100) "" polled_switch 1050

some_build : Build
some_build = record {
  version = "v1";
  revision = "abc";
  go_version = "go1";
  modified = "false";
  built = "unknown";
}

abbrev of_leaf : Query
of_leaf = record { target = "leaf1"; filter = record { module_name = ""; interface = "" } }

abbrev leaf_index : Map String
leaf_index = ("leaf1", "leaf1") ∷ []

abbrev sent : List (Metric ℕ)
sent = collect_store (new_switch_collector (pos 100) "leaf1" of_leaf.filter) one_switch 1050

leaf_sent : scrape one_switch leaf_index (pos 100) some_build [] 1050 of_leaf ≡ ok sent
unfolding scrape serve handle serve_label valid_modules lookup
leaf_sent = refl

scrape_switch_example :
    (l : String) × ((lookup "leaf1" leaf_index ≡ some l)
      × ((m : Metric ℕ) → Memᴰ m sent → IsDescribed l m))
unfolding lookup
scrape_switch_example =
    scrape_switch one_switch leaf_index (pos 100) some_build [] 1050 of_leaf sent
      one_switch-WellLabelled refl leaf_named leaf_sent
  where
    leaf_named : (l : String) → lookup "leaf1" leaf_index ≡ some l → nonempty l ≡ true
    leaf_named l e = ground (arith, eq_iff "leaf1" "", eq_iff l "")

-- What a poll that landed is reported as.
abbrev success_sample : Metric ℕ
success_sample =
    const_metric
      (record {
        name = "arista_scrape_success";
        help = "1 if the last poll of this switch succeeded";
        labels = "switch" ∷ [];
      })
      gauge_value 1 ("leaf1" ∷ [])

success_sent : Memᴰ success_sample (collect_store (new_collector (pos 100)) one_switch 1050)
unfolding collect_store collect_found collect_switch new_collector one_switch polled_switch
    fresh_switch get_each get lookup set_bool set descs types by_name metric_defs value_type
    is_valid_desc
success_sent = Memᴰ.head refl

collect_store-IsDescribed_example :
    (label : String) × (IsDescribed label success_sample
      × Asked (new_collector (pos 100)) one_switch label)
collect_store-IsDescribed_example =
    collect_store-IsDescribed (new_collector (pos 100)) one_switch 1050 one_switch-WellLabelled
      success_sample success_sent

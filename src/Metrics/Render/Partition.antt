-- ===== src/Metrics/Render/Partition.antt =====
-- The modules that a query can name, as a partition of a full scrape: the field module of the
-- collector in internal/metrics/collector.go.
use mathlib.Core.List.{append-nil, append_assoc}
use arex.Prelude.{◌≡◌, String, flat_map}
use arex.GoTime.{Time, Duration}
use arex.Collector.Data.{SwitchData}
use arex.Metrics.Requests.{Filter, valid_modules}
use arex.Metrics.Emit.{Host}
use arex.Metrics.Render.Switch.{
  new_collector, new_switch_collector, wants, limit_for, is_fresh, collect_modules,
}

abbrev pub of_module : String → Filter
of_module name = record { module_name = name; interface = "" }

module _ {F : Type 0} ⦃h : Host F⦄ where
  -- The modules that a query may ask for partition the data of a switch: the unfiltered scrape sends
  -- the samples of each module after those of the one before, each once, and no others.
  pub collect_modules-valid_modules :
      (limit : Duration) (label : String) (sw : SwitchData F) (now : Time)
      → collect_modules (new_collector limit) sw now
        ≡ flat_map
            (λ name. collect_modules (new_switch_collector limit label (of_module name)) sw now)
            valid_modules
  unfolding collect_modules new_collector new_switch_collector wants is_fresh limit_for
      valid_modules
  collect_modules-valid_modules limit label sw now = simp (append-nil, append_assoc)

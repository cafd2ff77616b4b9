-- ===== src/Metrics/Render/Described/Switch.antt =====
-- Every sample that collectSwitch of internal/metrics/collector.go sends is of a described family.
use arex.Prelude.{ℕ, String, List, Option, none, some}
use arex.Prelude.Assoc.{Map}
use arex.GoTime.{Time}
use arex.Eapi.Error.{Err}
use arex.Eapi.Stats.{RequestKey, Reload, StatsSnapshot}
use arex.Collector.Data.{SwitchData}
use arex.Metrics.Emit.{Host}
use arex.Metrics.Emit.Laws.{Counts, AllDescribed, described_rules, is_family}
use arex.Metrics.Render.Switch.{
  Scope, collect_request, collect_reload, collect_eapi_stats, collect_command, collect_commands,
  collect_modules, collect_aged, collect_switch,
}
use arex.Metrics.Render.Described.System.{
  collect_version-IsDescribed, collect_cpu_memory-IsDescribed, collect_ntp-IsDescribed,
  collect_capacity-IsDescribed,
}
use arex.Metrics.Render.Described.Hardware.{
  collect_temperature-IsDescribed, collect_power-IsDescribed, collect_cooling-IsDescribed,
  collect_interfaces-IsDescribed, collect_bgp-IsDescribed,
}
use arex.Metrics.Render.Described.Overlay.{
  collect_vxlan_vteps-IsDescribed, collect_vxlan_interface-IsDescribed,
  collect_vxlan_addresses-IsDescribed, collect_evpn_peers-IsDescribed,
  collect_evpn_routes-IsDescribed, collect_evpn_segments-IsDescribed,
}
use arex.Metrics.Render.Described.Optics.{collect_transceivers-IsDescribed, collect_phy-IsDescribed}

module _ {F : Type 0} ⦃h : Host F⦄ ⦃counts : Counts h⦄ {label : String} where
  collect_request-IsDescribed :
      (k : RequestKey × ℕ) → AllDescribed {F = F} label (collect_request label k)
  unfolding collect_request is_family
  collect_request-IsDescribed (k, v) = search described_rules

  collect_reload-IsDescribed :
      (r : Reload × ℕ) → AllDescribed {F = F} label (collect_reload label r)
  unfolding collect_reload is_family
  collect_reload-IsDescribed (r, v) = search described_rules

  collect_eapi_stats-IsDescribed :
      (snap : StatsSnapshot F) → AllDescribed label (collect_eapi_stats label snap)
  unfolding collect_eapi_stats is_family
  collect_eapi_stats-IsDescribed snap =
      search (described_rules, collect_request-IsDescribed, collect_reload-IsDescribed)

  collect_command-IsDescribed :
      (errors : Map Err) (name : String)
      → AllDescribed {F = F} label (collect_command label errors name)
  unfolding collect_command is_family
  collect_command-IsDescribed errors name = search described_rules

  collect_commands-IsDescribed :
      (errors : Option (Map Err)) (commands : List String)
      → AllDescribed {F = F} label (collect_commands label errors commands)
  unfolding collect_commands
  collect_commands-IsDescribed none commands = search described_rules
  collect_commands-IsDescribed (some errors) commands =
      search (described_rules, collect_command-IsDescribed)

module _ {F : Type 0} ⦃h : Host F⦄ ⦃counts : Counts h⦄ where
  collect_modules-IsDescribed :
      (c : Scope) (sw : SwitchData F) (now : Time)
      → AllDescribed sw.label (collect_modules c sw now)
  unfolding collect_modules
  collect_modules-IsDescribed c sw now =
      search
        (
          described_rules, collect_version-IsDescribed, collect_cpu_memory-IsDescribed,
          collect_ntp-IsDescribed, collect_capacity-IsDescribed, collect_temperature-IsDescribed,
          collect_power-IsDescribed, collect_cooling-IsDescribed, collect_interfaces-IsDescribed,
          collect_bgp-IsDescribed, collect_vxlan_vteps-IsDescribed,
          collect_vxlan_interface-IsDescribed, collect_vxlan_addresses-IsDescribed,
          collect_evpn_peers-IsDescribed, collect_evpn_routes-IsDescribed,
          collect_evpn_segments-IsDescribed, collect_transceivers-IsDescribed,
          collect_phy-IsDescribed,
        )
        depth 24 fits 100000

  collect_aged-IsDescribed :
      (c : Scope) (sw : SwitchData F) (now : Time) → AllDescribed sw.label (collect_aged c sw now)
  unfolding collect_aged is_family
  collect_aged-IsDescribed c sw now = search (described_rules, collect_modules-IsDescribed)

  -- Whatever a switch's data, every metric that its rendering sends is a sample, never an error,
  -- provided that NewConstMetric takes a value for each label: its family is one of the catalogue
  -- that Describe announces, its value type is the declared one, it has a value for each label of
  -- the family, and the first is the switch's label.
  pub collect_switch-IsDescribed :
      (c : Scope) (sw : SwitchData F) (now : Time) → AllDescribed sw.label (collect_switch c sw now)
  unfolding collect_switch is_family
  collect_switch-IsDescribed c sw now = search (
    described_rules, collect_aged-IsDescribed, collect_commands-IsDescribed,
    collect_eapi_stats-IsDescribed,
  )

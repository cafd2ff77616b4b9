-- ===== src/Metrics/Render/Switch.antt =====
-- The switch collector of internal/metrics/collector.go: what it is narrowed to, how old data may
-- be, and what it sends for one switch and for the store.
use arex.Prelude.{
  ℕ, Bool, true, false, not, ◌&&◌, String, nonempty, str_eq, List, [], ◌∷◌, ◌++◌, any, flat_map,
  Option, none, some, is_some, if◌then◌else◌,
}
use arex.Prelude.Int.{pos, negsuc, ltb_ℤ, leb_ℤ}
use arex.Prelude.Assoc.{Map, lookup, has}
use arex.GoTime.{Time, Duration, times, since, is_zero_time}
use arex.Eapi.Error.{Err}
use arex.Eapi.Stats.{
  RequestKey, Reload, StatsSnapshot, snapshot, outcome_text, attempt_text, reload_text,
}
use arex.Collector.Commands.{
  cmd_version, cmd_processes_top, cmd_env_temp, cmd_env_power, cmd_env_cooling,
  cmd_ntp_associations, cmd_hardware_capacity, cmd_interfaces, cmd_bgp_summary, cmd_vxlan_vtep,
  cmd_vxlan_interface, cmd_vxlan_address_count, cmd_bgp_evpn_summary, cmd_bgp_evpn_route_count,
  cmd_bgp_evpn_instance, cmd_transceivers, cmd_phy,
}
use arex.Collector.Data.{SwitchData, Store, get, get_each, or_nil}
use arex.Metrics.Requests.{Filter}
use arex.Metrics.Emit.{Host, Metric, set, set_bool}
use arex.Metrics.Render.System.{collect_version, collect_cpu_memory, collect_ntp, collect_capacity}
use arex.Metrics.Render.Environment.{collect_temperature, collect_power, collect_cooling}
use arex.Metrics.Render.Interfaces.{collect_interfaces, collect_bgp}
use arex.Metrics.Render.Overlay.{
  collect_vxlan_vteps, collect_vxlan_interface, collect_vxlan_addresses, collect_evpn_peers,
  collect_evpn_routes, collect_evpn_segments,
}
use arex.Metrics.Render.Optics.{collect_transceivers, collect_phy}

-- The collector's fields but the store and the clock.
pub record Scope : Type 0 where
  pub staleness_limit : Duration
  pub only : String
  pub module_name : String
  pub iface : String

unfoldable pub new_collector : Duration → Scope
new_collector staleness_limit = record {
  staleness_limit = staleness_limit;
  only = "";
  module_name = "";
  iface = "";
}

unfoldable pub new_switch_collector : Duration → String → Filter → Scope
new_switch_collector staleness_limit label f = record {
  staleness_limit = staleness_limit;
  only = label;
  module_name = f.module_name;
  iface = f.interface;
}

abbrev pub interface_modules : List String
interface_modules = "interfaces" ∷ "transceiver" ∷ "phy" ∷ []

unfoldable pub wants : Scope → String → Bool
wants c name =
    if nonempty c.module_name
    then str_eq c.module_name name
    else if nonempty c.iface
    then any (str_eq name) interface_modules
    else true

-- A missing interval reads as 0.
abbrev pub interval_or_zero : Option Duration → Duration
interval_or_zero none = pos 0
interval_or_zero (some d) = d

abbrev pub max_duration : Duration → Duration → Duration
max_duration limit bound = if ltb_ℤ limit bound then bound else limit

-- The loop over the intervals, from the limit found so far.
unfoldable pub most_lenient : Duration → Map Duration → Duration
most_lenient limit [] = limit
most_lenient limit ((cli, iv) ∷ rest) = most_lenient (max_duration limit (times 3 iv)) rest

module _ {F : Type 0} where
  unfoldable pub limit_for : Scope → SwitchData F → String → Duration
  limit_for c sw cli =
      max_duration c.staleness_limit
        (times 3 (interval_or_zero (lookup cli (or_nil sw.command_interval))))

  unfoldable pub scrape_limit : Scope → SwitchData F → Duration
  unfolding most_lenient
  scrape_limit c sw = most_lenient c.staleness_limit (or_nil sw.command_interval)

  unfoldable pub is_fresh : Scope → SwitchData F → Time → String → Bool
  unfolding limit_for
  is_fresh c sw now cli = elim (lookup cli sw.command_last_success) [
    | none ↦ false
    | some last ↦ leb_ℤ (since now last) (limit_for c sw cli)
  ]

module _ {F : Type 0} ⦃h : Host F⦄ where
  unfoldable pub collect_request : String → (RequestKey × ℕ) → List (Metric F)
  unfolding set
  collect_request label (k, v) =
      set "arista_eapi_requests_total" (h.of_ℕ v)
        (label ∷ outcome_text k.outcome ∷ attempt_text k.attempt ∷ [])

  unfoldable pub collect_reload : String → (Reload × ℕ) → List (Metric F)
  unfolding set
  collect_reload label (r, v) =
      set "arista_credential_reloads_total" (h.of_ℕ v) (label ∷ reload_text r ∷ [])

  unfoldable pub collect_eapi_stats : String → StatsSnapshot F → List (Metric F)
  unfolding set collect_request collect_reload
  collect_eapi_stats label snap =
      flat_map (collect_request label) snap.requests
      ++ flat_map (collect_reload label) snap.reloads
      ++ set "arista_eapi_response_bytes_total" (h.of_ℕ snap.response_bytes) (label ∷ [])
      ++ set "arista_eapi_request_duration_seconds_total" snap.duration_seconds (label ∷ [])

  unfoldable pub collect_command : String → Map Err → String → List (Metric F)
  unfolding set_bool
  collect_command label errors name =
      set_bool "arista_command_success" (not (has name errors)) (label ∷ name ∷ [])

  unfoldable pub collect_commands : String → Option (Map Err) → List String → List (Metric F)
  unfolding collect_command
  collect_commands label none commands = []
  collect_commands label (some errors) commands = flat_map (collect_command label errors) commands

  abbrev pub emit_if : Bool → List (Metric F) → List (Metric F)
  emit_if b ms = if b then ms else []

  -- From the first module on.
  unfoldable pub collect_modules : Scope → SwitchData F → Time → List (Metric F)
  unfolding wants is_fresh collect_version collect_cpu_memory collect_temperature collect_power
      collect_cooling collect_ntp collect_capacity collect_interfaces collect_bgp
      collect_vxlan_vteps collect_vxlan_interface collect_vxlan_addresses collect_evpn_peers
      collect_evpn_routes collect_evpn_segments collect_transceivers collect_phy
  collect_modules c sw now =
      let fresh : String → Bool = is_fresh c sw now in
      let out = sw.output in
      emit_if (wants c "version" && fresh cmd_version) (collect_version sw.label out.version)
      ++ emit_if (wants c "processes" && fresh cmd_processes_top)
          (collect_cpu_memory sw.label out.process_top)
      ++ emit_if (wants c "temperature" && fresh cmd_env_temp)
          (collect_temperature sw.label out.env_temp)
      ++ emit_if (wants c "power" && fresh cmd_env_power) (collect_power sw.label out.env_power)
      ++ emit_if (wants c "cooling" && fresh cmd_env_cooling)
          (collect_cooling sw.label out.env_cooling)
      ++ emit_if (wants c "ntp" && fresh cmd_ntp_associations) (collect_ntp sw.label out.ntp)
      ++ emit_if (wants c "capacity" && fresh cmd_hardware_capacity)
          (collect_capacity sw.label out.capacity)
      ++ emit_if (wants c "interfaces" && fresh cmd_interfaces)
          (collect_interfaces c.iface sw.label out.interfaces)
      ++ emit_if (wants c "bgp" && fresh cmd_bgp_summary) (collect_bgp sw.label out.bgp)
      ++ emit_if (wants c "vxlan") (
          emit_if (fresh cmd_vxlan_vtep) (collect_vxlan_vteps sw.label out.vxlan_vtep)
          ++ emit_if (fresh cmd_vxlan_interface) (collect_vxlan_interface sw.label out.vxlan_iface)
          ++ emit_if (fresh cmd_vxlan_address_count)
              (collect_vxlan_addresses sw.label out.vxlan_addrs))
      ++ emit_if (wants c "evpn") (
          emit_if (fresh cmd_bgp_evpn_summary) (collect_evpn_peers sw.label out.evpn_summary)
          ++ emit_if (fresh cmd_bgp_evpn_route_count)
              (collect_evpn_routes sw.label out.evpn_routes))
      ++ emit_if (wants c "esi" && fresh cmd_bgp_evpn_instance)
          (collect_evpn_segments sw.label sw.fabric out.evpn_instance)
      ++ emit_if (wants c "transceiver" && fresh cmd_transceivers)
          (collect_transceivers c.iface sw.label out.optics)
      ++ emit_if (wants c "phy" && fresh cmd_phy) (collect_phy c.iface sw.label out.phy)

  -- From the age on, for a switch that was collected.
  unfoldable pub collect_aged : Scope → SwitchData F → Time → List (Metric F)
  unfolding set scrape_limit collect_modules
  collect_aged c sw now =
      set "arista_scrape_age_seconds" (h.seconds (since now sw.last_success)) (sw.label ∷ [])
      ++ emit_if (not (ltb_ℤ (scrape_limit c sw) (since now sw.last_success)))
          (collect_modules c sw now)

  unfoldable pub collect_switch : Scope → SwitchData F → Time → List (Metric F)
  unfolding set set_bool collect_commands collect_eapi_stats collect_aged snapshot
  collect_switch c sw now =
      let collected = not (is_zero_time sw.last_success) in
      set_bool "arista_scrape_success" (collected && not (is_some sw.scrape_err)) (sw.label ∷ [])
      ++ collect_commands sw.label sw.command_errors sw.commands
      ++ collect_eapi_stats sw.label (snapshot h.seconds sw.stats)
      ++ (if collected
          then collect_aged c sw now
          else set "arista_scrape_age_seconds" (h.of_ℤ (negsuc 0)) (sw.label ∷ []))

  -- `none` is the nil that Get gives for an unknown label.
  unfoldable pub collect_found : Scope → Time → Option (SwitchData F) → List (Metric F)
  unfolding collect_switch
  collect_found c now none = []
  collect_found c now (some sw) = collect_switch c sw now

  unfoldable pub collect_store : Scope → Store F → Time → List (Metric F)
  unfolding collect_found
  collect_store c store now =
      if nonempty c.only
      then collect_found c now (get store c.only)
      else flat_map (collect_found c now) (get_each store store.order)

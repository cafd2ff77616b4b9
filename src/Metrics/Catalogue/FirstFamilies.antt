-- ===== src/Metrics/Catalogue/FirstFamilies.antt =====
-- The families of metricDefs in internal/metrics/catalogue.go from the build to the hardware capacity, in its order.
use arex.Prelude.{List, [], ◌∷◌}
use arex.Metrics.Catalogue.Labels.{
  MetricDef, family, l_build, l_capacity, l_capacity_inf, l_command, l_cooling_info, l_eapi, l_esi,
  l_esi_info, l_evpn_route, l_fan, l_fan_info, l_peer, l_peer_info, l_reload, l_switch,
}

unfoldable pub first_families : List MetricDef
first_families =
    family "arex_build_info" "gauge"
      "Version, VCS revision and Go version of the running arex. Always 1" l_build
    ∷ family "arista_bgp_evpn_peer_info" "gauge" "EVPN peer description labels. Always 1"
        l_peer_info
    ∷ family "arista_bgp_evpn_peer_prefixes_accepted" "gauge" "EVPN routes accepted after policy"
        l_peer
    ∷ family "arista_bgp_evpn_peer_prefixes_advertised" "gauge" "EVPN routes advertised to the peer"
        l_peer
    ∷ family "arista_bgp_evpn_peer_prefixes_received" "gauge" "EVPN routes received from the peer"
        l_peer
    ∷ family "arista_bgp_evpn_peer_state_change_timestamp_seconds" "gauge"
        "Unix timestamp the EVPN session last changed state" l_peer
    ∷ family "arista_bgp_evpn_peer_under_maintenance" "gauge"
        "1 if the EVPN peer is under maintenance" l_peer
    ∷ family "arista_bgp_evpn_peer_up" "gauge"
        "1 if the EVPN peering is Established; distinct from the IPv4 unicast session to the same neighbour"
        l_peer
    ∷ family "arista_bgp_evpn_routes" "gauge"
        "EVPN path entries by route type. Paths, not unique routes: one route learned from two peers counts twice"
        l_evpn_route
    ∷ family "arista_bgp_peer_info" "gauge" "BGP peer description labels. Always 1" l_peer_info
    ∷ family "arista_bgp_peer_prefixes_accepted" "gauge"
        "Prefixes accepted after policy; below received means prefixes were rejected" l_peer
    ∷ family "arista_bgp_peer_prefixes_advertised" "gauge" "Prefixes advertised to the peer" l_peer
    ∷ family "arista_bgp_peer_prefixes_received" "gauge" "Prefixes received from the peer" l_peer
    ∷ family "arista_bgp_peer_state_change_timestamp_seconds" "gauge"
        "Unix timestamp the session last changed state, up or down" l_peer
    ∷ family "arista_bgp_peer_under_maintenance" "gauge" "1 if the BGP peer is under maintenance"
        l_peer
    ∷ family "arista_bgp_peer_up" "gauge" "1 if the BGP peer is Established" l_peer
    ∷ family "arista_boot_timestamp_seconds" "gauge" "Unix timestamp of last boot" l_switch
    ∷ family "arista_command_success" "gauge" "1 if this eAPI command succeeded in the last poll"
        l_command
    ∷ family "arista_cooling_ambient_temperature_celsius" "gauge" "Ambient temperature" l_switch
    ∷ family "arista_cooling_fans_ok" "gauge" "1 if the fan alarm status is ok" l_switch
    ∷ family "arista_cooling_info" "gauge" "Cooling configuration labels. Always 1" l_cooling_info
    ∷ family "arista_cooling_ok" "gauge" "1 if overall cooling status is ok" l_switch
    ∷ family "arista_cooling_shutdown_on_insufficient_fans" "gauge"
        "1 if the switch is configured to shut down on insufficient fans" l_switch
    ∷ family "arista_cpu_idle_percent" "gauge" "CPU idle percentage" l_switch
    ∷ family "arista_cpu_iowait_percent" "gauge" "CPU time waiting on I/O" l_switch
    ∷ family "arista_cpu_irq_percent" "gauge" "CPU time servicing hardware interrupts" l_switch
    ∷ family "arista_cpu_nice_percent" "gauge" "CPU time on niced processes" l_switch
    ∷ family "arista_cpu_softirq_percent" "gauge" "CPU time servicing software interrupts" l_switch
    ∷ family "arista_cpu_steal_percent" "gauge" "CPU time stolen by the hypervisor (vEOS)" l_switch
    ∷ family "arista_cpu_system_percent" "gauge" "CPU time in kernel space" l_switch
    ∷ family "arista_cpu_user_percent" "gauge" "CPU time in user space" l_switch
    ∷ family "arista_credential_reloads_total" "counter"
        "Times arex re-read a switch's password file after a rejection, by outcome: rotated, unchanged or failed"
        l_reload
    ∷ family "arista_eapi_request_duration_seconds_total" "counter"
        "Total time spent on eAPI requests to this switch" l_switch
    ∷ family "arista_eapi_requests_total" "counter"
        "eAPI requests arex has made, by outcome and by whether it was the normal batch or a per-command retry"
        l_eapi
    ∷ family "arista_eapi_response_bytes_total" "counter"
        "Total eAPI response bytes received from this switch" l_switch
    ∷ family "arista_evpn_esi_designated_forwarder" "gauge"
        "1 if this switch is the elected forwarder for the segment in this bundle" l_esi
    ∷ family "arista_evpn_esi_designated_forwarder_elected" "gauge"
        "1 if any forwarder is elected; 0 means the election has not settled" l_esi
    ∷ family "arista_evpn_esi_forwarding_peers" "gauge"
        "Peers forwarding for this segment; below 2 on an all-active segment means the redundancy is gone"
        l_esi
    ∷ family "arista_evpn_esi_info" "gauge"
        "Ethernet segment interface and redundancy mode. Always 1" l_esi_info
    ∷ family "arista_evpn_esi_up" "gauge"
        "1 if this switch's own link into the segment is up; a peer that still has its link reports 1 regardless"
        l_esi
    ∷ family "arista_fan_boot_timestamp_seconds" "gauge" "Unix timestamp when the fan came online"
        l_fan
    ∷ family "arista_fan_info" "gauge" "Fan vendor model labels. Always 1" l_fan_info
    ∷ family "arista_fan_ok" "gauge" "1 if fan status is ok" l_fan
    ∷ family "arista_fan_speed_actual_percent" "gauge" "Actual fan speed as a percentage" l_fan
    ∷ family "arista_fan_speed_configured_percent" "gauge" "Configured fan speed as a percentage"
        l_fan
    ∷ family "arista_fan_speed_max_rpm" "gauge" "Fan maximum speed in RPM" l_fan
    ∷ family "arista_fan_speed_stable" "gauge" "1 if fan speed has stabilised" l_fan
    ∷ family "arista_hardware_capacity_free" "gauge"
        "Entries free in the pool this table shares; not limit minus used, which overstates a shared pool"
        l_capacity
    ∷ family "arista_hardware_capacity_high_watermark" "gauge"
        "Peak entries used since boot, so a spike between polls is still visible" l_capacity
    ∷ family "arista_hardware_capacity_info" "gauge"
        "What is consuming this row, as EOS's shared feature list. Always 1" l_capacity_inf
    ∷ family "arista_hardware_capacity_limit" "gauge" "Entries this table can hold" l_capacity
    ∷ family "arista_hardware_capacity_used" "gauge" "Entries used" l_capacity
    ∷ []

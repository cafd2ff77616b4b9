-- ===== src/Metrics/Catalogue/InterfaceFamilies.antt =====
-- The families of metricDefs in internal/metrics/catalogue.go of interfaces, load, memory and NTP, in its order.
use arex.Prelude.{List, [], ◌∷◌}
use arex.Metrics.Catalogue.Labels.{
  MetricDef, family, l_iface, l_iface_cast, l_iface_cause, l_iface_info, l_info, l_ntp_peer,
  l_ntp_peer_info, l_switch,
}

unfoldable pub interface_families : List MetricDef
interface_families =
    family "arista_info" "gauge" "Switch identity labels. Always 1" l_info
    ∷ family "arista_interface_counter_refresh_timestamp_seconds" "gauge"
        "Unix timestamp counters were last refreshed by EOS" l_iface
    ∷ family "arista_interface_in_discards_total" "counter" "Inbound discards" l_iface
    ∷ family "arista_interface_in_errors_detail_total" "counter"
        "Inbound errors broken down by cause" l_iface_cause
    ∷ family "arista_interface_in_errors_total" "counter" "Inbound errors" l_iface
    ∷ family "arista_interface_in_octets_total" "counter" "Inbound octets" l_iface
    ∷ family "arista_interface_in_packets_total" "counter" "Inbound packets by cast" l_iface_cast
    ∷ family "arista_interface_info" "gauge"
        "Interface description, port-channel membership and MTU. Always 1" l_iface_info
    ∷ family "arista_interface_last_counter_clear_timestamp_seconds" "gauge"
        "Unix timestamp counters were last cleared" l_iface
    ∷ family "arista_interface_last_status_change_timestamp_seconds" "gauge"
        "Unix timestamp the interface last changed state" l_iface
    ∷ family "arista_interface_link_status_changes_total" "counter"
        "Link state transitions since counters were cleared" l_iface
    ∷ family "arista_interface_link_up" "gauge" "1 if the interface line protocol is up" l_iface
    ∷ family "arista_interface_out_discards_total" "counter" "Outbound discards" l_iface
    ∷ family "arista_interface_out_errors_detail_total" "counter"
        "Outbound errors broken down by cause" l_iface_cause
    ∷ family "arista_interface_out_errors_total" "counter" "Outbound errors" l_iface
    ∷ family "arista_interface_out_octets_total" "counter" "Outbound octets" l_iface
    ∷ family "arista_interface_out_packets_total" "counter" "Outbound packets by cast" l_iface_cast
    ∷ family "arista_interface_speed_bits_per_second" "gauge" "Negotiated interface speed" l_iface
    ∷ family "arista_load_avg_15m" "gauge" "15-minute load average" l_switch
    ∷ family "arista_load_avg_1m" "gauge" "1-minute load average" l_switch
    ∷ family "arista_load_avg_5m" "gauge" "5-minute load average" l_switch
    ∷ family "arista_memory_available_bytes" "gauge"
        "Memory available for allocation, including reclaimable cache. Alert on this, not on free"
        l_switch
    ∷ family "arista_memory_buffer_bytes" "gauge"
        "Buffer and cache memory as reported by EOS; does not reconcile exactly with total/used/free"
        l_switch
    ∷ family "arista_memory_free_bytes" "gauge"
        "Strictly unused memory. Normally low: Linux spends idle RAM on cache" l_switch
    ∷ family "arista_memory_total_bytes" "gauge" "Total physical memory" l_switch
    ∷ family "arista_memory_used_bytes" "gauge" "Memory in use" l_switch
    ∷ family "arista_ntp_offset_seconds" "gauge"
        "Clock offset from the selected NTP source; absent while unsynchronised" l_switch
    ∷ family "arista_ntp_peer_delay_seconds" "gauge" "Round-trip delay to the NTP peer" l_ntp_peer
    ∷ family "arista_ntp_peer_info" "gauge" "NTP peer reference id and association type. Always 1"
        l_ntp_peer_info
    ∷ family "arista_ntp_peer_jitter_seconds" "gauge"
        "Dispersion of recent offset measurements for the NTP peer" l_ntp_peer
    ∷ family "arista_ntp_peer_last_received_timestamp_seconds" "gauge"
        "Unix timestamp of the last reply from the NTP peer; absent if it has never answered"
        l_ntp_peer
    ∷ family "arista_ntp_peer_offset_seconds" "gauge"
        "Clock offset the NTP peer reports; only meaningful where the peer is reachable" l_ntp_peer
    ∷ family "arista_ntp_peer_poll_interval_seconds" "gauge"
        "How often the switch polls this NTP peer; ntpd shortens it while hunting for a source"
        l_ntp_peer
    ∷ family "arista_ntp_peer_reachable_samples" "gauge"
        "Successful polls in the last 8 attempts on this NTP peer" l_ntp_peer
    ∷ family "arista_ntp_peer_selected" "gauge" "1 if the clock is being steered to this NTP peer"
        l_ntp_peer
    ∷ family "arista_ntp_peer_stratum" "gauge"
        "Stratum the NTP peer reports; 16 means the peer is itself unsynchronised" l_ntp_peer
    ∷ family "arista_ntp_synchronised" "gauge"
        "1 if the switch has selected an NTP source; every timestamp it reports is dated by this clock"
        l_switch
    ∷ []

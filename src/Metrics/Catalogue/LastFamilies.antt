-- ===== src/Metrics/Catalogue/LastFamilies.antt =====
-- The families of metricDefs in internal/metrics/catalogue.go from power supplies to VXLAN, in its order.
use arex.Prelude.{List, [], ◌∷◌}
use arex.Metrics.Catalogue.Labels.{
  MetricDef, family, l_iface, l_psu, l_psu_info, l_psu_sensor, l_sensor, l_switch, l_vlan, l_vni,
  l_vrf_vni, l_vtep, l_vtep_mac, l_vxlan, l_vxlan_info, l_xcvr_info, l_xcvr_thresh,
}

unfoldable pub last_families : List MetricDef
last_families =
    family "arista_psu_boot_timestamp_seconds" "gauge" "Unix timestamp when the PSU came online"
      l_psu
    ∷ family "arista_psu_capacity_watts" "gauge" "PSU rated capacity" l_psu
    ∷ family "arista_psu_info" "gauge" "PSU model labels. Always 1" l_psu_info
    ∷ family "arista_psu_input_current_amps" "gauge" "PSU input current" l_psu
    ∷ family "arista_psu_input_voltage_volts" "gauge" "PSU input voltage" l_psu
    ∷ family "arista_psu_ok" "gauge" "1 if PSU state is ok" l_psu
    ∷ family "arista_psu_output_current_amps" "gauge" "PSU output current" l_psu
    ∷ family "arista_psu_output_power_watts" "gauge" "PSU current output power" l_psu
    ∷ family "arista_psu_output_voltage_volts" "gauge" "PSU output voltage" l_psu
    ∷ family "arista_psu_temperature_alert" "gauge" "1 if the PSU sensor is in alert state"
        l_psu_sensor
    ∷ family "arista_psu_temperature_celsius" "gauge" "Current PSU temperature in Celsius"
        l_psu_sensor
    ∷ family "arista_psu_temperature_critical_threshold_celsius" "gauge"
        "Critical threshold reported by the PSU sensor" l_psu_sensor
    ∷ family "arista_psu_temperature_max_celsius" "gauge" "Historical maximum PSU temperature"
        l_psu_sensor
    ∷ family "arista_psu_temperature_overheat_threshold_celsius" "gauge"
        "Overheat threshold reported by the PSU sensor" l_psu_sensor
    ∷ family "arista_psu_temperature_sensor_ok" "gauge" "1 if the PSU sensor hardware is ok"
        l_psu_sensor
    ∷ family "arista_scrape_age_seconds" "gauge"
        "Seconds since the last successful poll (-1 if never)" l_switch
    ∷ family "arista_scrape_success" "gauge" "1 if the last poll of this switch succeeded" l_switch
    ∷ family "arista_temperature_alert" "gauge" "1 if the system sensor is in alert state" l_sensor
    ∷ family "arista_temperature_celsius" "gauge" "Current system temperature in Celsius" l_sensor
    ∷ family "arista_temperature_critical_threshold_celsius" "gauge"
        "Critical threshold reported by the system sensor" l_sensor
    ∷ family "arista_temperature_max_celsius" "gauge" "Historical maximum system temperature"
        l_sensor
    ∷ family "arista_temperature_overheat_threshold_celsius" "gauge"
        "Overheat threshold reported by the system sensor" l_sensor
    ∷ family "arista_temperature_sensor_ok" "gauge" "1 if the system sensor hardware is ok" l_sensor
    ∷ family "arista_temperature_shutdown_on_overheat" "gauge"
        "1 if the switch is configured to shut down on overheat" l_switch
    ∷ family "arista_temperature_system_ok" "gauge" "1 if overall temperature status is ok" l_switch
    ∷ family "arista_transceiver_info" "gauge"
        "Transceiver slot, lane, media type and serial. Always 1" l_xcvr_info
    ∷ family "arista_transceiver_rx_power_dbm" "gauge"
        "Transceiver receive optical power for this lane" l_iface
    ∷ family "arista_transceiver_rx_power_threshold_dbm" "gauge"
        "Threshold for transceiver receive optical power for this lane as reported by the optic; level is high_alarm, high_warn, low_alarm or low_warn"
        l_xcvr_thresh
    ∷ family "arista_transceiver_temperature_celsius" "gauge" "Transceiver module temperature"
        l_iface
    ∷ family "arista_transceiver_temperature_threshold_celsius" "gauge"
        "Threshold for transceiver module temperature as reported by the optic; level is high_alarm, high_warn, low_alarm or low_warn"
        l_xcvr_thresh
    ∷ family "arista_transceiver_tx_bias_milliamps" "gauge"
        "Transceiver laser bias current for this lane" l_iface
    ∷ family "arista_transceiver_tx_bias_threshold_milliamps" "gauge"
        "Threshold for transceiver laser bias current for this lane as reported by the optic; level is high_alarm, high_warn, low_alarm or low_warn"
        l_xcvr_thresh
    ∷ family "arista_transceiver_tx_power_dbm" "gauge"
        "Transceiver transmit optical power for this lane" l_iface
    ∷ family "arista_transceiver_tx_power_threshold_dbm" "gauge"
        "Threshold for transceiver transmit optical power for this lane as reported by the optic; level is high_alarm, high_warn, low_alarm or low_warn"
        l_xcvr_thresh
    ∷ family "arista_transceiver_update_timestamp_seconds" "gauge"
        "Unix timestamp EOS last refreshed this optic's DOM data" l_iface
    ∷ family "arista_transceiver_voltage_threshold_volts" "gauge"
        "Threshold for transceiver supply voltage as reported by the optic; level is high_alarm, high_warn, low_alarm or low_warn"
        l_xcvr_thresh
    ∷ family "arista_transceiver_voltage_volts" "gauge" "Transceiver supply voltage" l_iface
    ∷ family "arista_vxlan_interface_info" "gauge"
        "VXLAN interface source and encapsulation labels. Always 1" l_vxlan_info
    ∷ family "arista_vxlan_interface_up" "gauge" "1 if the VXLAN interface line protocol is up"
        l_vxlan
    ∷ family "arista_vxlan_remote_mac_count" "gauge"
        "Overlay MAC addresses learned from this remote VTEP" l_vtep_mac
    ∷ family "arista_vxlan_remote_vtep_count" "gauge"
        "Remote VTEPs known to this interface; a drop means a VTEP left the fabric" l_vxlan
    ∷ family "arista_vxlan_remote_vtep_info" "gauge"
        "One known remote VTEP and how it is used. Always 1" l_vtep
    ∷ family "arista_vxlan_vlan_flood_vteps" "gauge" "Remote VTEPs in this VLAN's flood list" l_vlan
    ∷ family "arista_vxlan_vni_info" "gauge" "VLAN-to-VNI binding. Always 1" l_vni
    ∷ family "arista_vxlan_vrf_vni_info" "gauge" "VRF-to-VNI binding for a routed overlay. Always 1"
        l_vrf_vni
    ∷ []

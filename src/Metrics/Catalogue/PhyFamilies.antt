-- ===== src/Metrics/Catalogue/PhyFamilies.antt =====
-- The families of metricDefs in internal/metrics/catalogue.go of PHYs, in its order.
use arex.Prelude.{List, [], ◌∷◌}
use arex.Metrics.Catalogue.Labels.{
  MetricDef, family, l_fec_info, l_fec_lane, l_iface, l_phy, l_phy_info,
}

unfoldable pub phy_families : List MetricDef
phy_families =
    family "arista_phy_fec_alignment_lock" "gauge"
      "1 if FEC alignment lock is achieved; absent on links without FEC" l_phy
    ∷ family "arista_phy_fec_alignment_lock_changes_total" "counter"
        "Transitions of arista_phy_fec_alignment_lock since boot" l_phy
    ∷ family "arista_phy_fec_corrected_codewords" "gauge"
        "FEC codewords corrected (gauge: EOS semantics are ambiguous and the counter is clearable)"
        l_phy
    ∷ family "arista_phy_fec_corrected_codewords_changes_total" "counter"
        "Times arista_phy_fec_corrected_codewords changed since boot; the reliable rate signal"
        l_phy
    ∷ family "arista_phy_fec_corrected_codewords_last_change_timestamp_seconds" "gauge"
        "Unix timestamp arista_phy_fec_corrected_codewords last changed" l_phy
    ∷ family "arista_phy_fec_corrected_symbols" "gauge"
        "FEC symbols corrected on this lane (gauge: EOS semantics are ambiguous and the counter is clearable)"
        l_fec_lane
    ∷ family "arista_phy_fec_corrected_symbols_changes_total" "counter"
        "Times arista_phy_fec_corrected_symbols changed since boot; the reliable rate signal"
        l_fec_lane
    ∷ family "arista_phy_fec_corrected_symbols_last_change_timestamp_seconds" "gauge"
        "Unix timestamp arista_phy_fec_corrected_symbols last changed" l_fec_lane
    ∷ family "arista_phy_fec_info" "gauge" "FEC encoding and codeword size. Always 1" l_fec_info
    ∷ family "arista_phy_fec_uncorrected_codewords" "gauge"
        "FEC codewords that could not be corrected; frames were lost (gauge: EOS semantics are ambiguous and the counter is clearable)"
        l_phy
    ∷ family "arista_phy_fec_uncorrected_codewords_changes_total" "counter"
        "Times arista_phy_fec_uncorrected_codewords changed since boot; the reliable rate signal"
        l_phy
    ∷ family "arista_phy_fec_uncorrected_codewords_last_change_timestamp_seconds" "gauge"
        "Unix timestamp arista_phy_fec_uncorrected_codewords last changed" l_phy
    ∷ family "arista_phy_info" "gauge" "PHY chip, firmware and operating speed. Always 1" l_phy_info
    ∷ family "arista_phy_interface_changes_total" "counter"
        "Interface state transitions seen by the PHY" l_iface
    ∷ family "arista_phy_interface_up" "gauge" "1 if the PHY reports the interface up" l_iface
    ∷ family "arista_phy_interrupt_count" "gauge" "PHY interrupt count" l_phy
    ∷ family "arista_phy_link_changes_total" "counter" "PHY state transitions since boot" l_phy
    ∷ family "arista_phy_link_up" "gauge" "1 if the PHY state is linkUp" l_phy
    ∷ family "arista_phy_mac_local_fault" "gauge" "1 if the MAC reports a local fault" l_iface
    ∷ family "arista_phy_mac_local_fault_changes_total" "counter"
        "Transitions of arista_phy_mac_local_fault since boot" l_iface
    ∷ family "arista_phy_mac_remote_fault" "gauge" "1 if the MAC reports a remote fault" l_iface
    ∷ family "arista_phy_mac_remote_fault_changes_total" "counter"
        "Transitions of arista_phy_mac_remote_fault since boot" l_iface
    ∷ family "arista_phy_pcs_block_lock" "gauge"
        "1 if PCS block lock is achieved; absent on links running FEC" l_phy
    ∷ family "arista_phy_pcs_block_lock_changes_total" "counter"
        "Transitions of arista_phy_pcs_block_lock since boot" l_phy
    ∷ family "arista_phy_pcs_high_ber" "gauge" "1 if the PCS reports a high bit error rate" l_phy
    ∷ family "arista_phy_pcs_high_ber_changes_total" "counter"
        "Transitions of arista_phy_pcs_high_ber since boot" l_phy
    ∷ family "arista_phy_pcs_last_errored_block_count" "gauge"
        "PCS errored block count as last observed (gauge: EOS semantics are ambiguous and the counter is clearable)"
        l_phy
    ∷ family "arista_phy_pcs_last_errored_block_count_changes_total" "counter"
        "Times arista_phy_pcs_last_errored_block_count changed since boot; the reliable rate signal"
        l_phy
    ∷ family "arista_phy_pcs_last_errored_block_count_last_change_timestamp_seconds" "gauge"
        "Unix timestamp arista_phy_pcs_last_errored_block_count last changed" l_phy
    ∷ family "arista_phy_pcs_last_high_ber_count" "gauge"
        "PCS high-BER count as last observed (gauge: EOS semantics are ambiguous and the counter is clearable)"
        l_phy
    ∷ family "arista_phy_pcs_last_high_ber_count_changes_total" "counter"
        "Times arista_phy_pcs_last_high_ber_count changed since boot; the reliable rate signal"
        l_phy
    ∷ family "arista_phy_pcs_last_high_ber_count_last_change_timestamp_seconds" "gauge"
        "Unix timestamp arista_phy_pcs_last_high_ber_count last changed" l_phy
    ∷ family "arista_phy_pcs_link_changes_total" "counter" "PCS link transitions since boot" l_phy
    ∷ family "arista_phy_pcs_link_up" "gauge" "1 if the PCS link is up" l_phy
    ∷ family "arista_phy_pma_link_changes_total" "counter" "PMA link transitions since boot" l_phy
    ∷ family "arista_phy_pma_link_up" "gauge" "1 if the PMA link is up" l_phy
    ∷ family "arista_phy_pma_signal_detect" "gauge" "1 if the PMA detects a signal" l_phy
    ∷ family "arista_phy_pma_signal_detect_changes_total" "counter"
        "Transitions of arista_phy_pma_signal_detect since boot" l_phy
    ∷ []

-- ===== src/Metrics/Render/Optics.antt =====
-- collectTransceivers and collectPhy of internal/metrics/collector.go.
use arex.Prelude.{String, ◌+s◌, str_eq, List, [], ◌∷◌, ◌++◌, Option, none, some, flat_map}
use arex.Prelude.Assoc.{lookup, for_entries}
use arex.Eapi.Types.Optics.{
  DomThresholds, Transceiver, ShowTransceiverDetail, PhyBoolAttr, PhyCounterAttr, PhyPcs, PhyPma,
  PhyFec, PhyStatus, InterfacePhy, ShowPhyDetail,
}
use arex.Metrics.Emit.{Host, Metric, set, set_bool, set_time, bool_attr, count_attr}
use arex.Metrics.Render.Interfaces.{if_matched}

pub record DomParam (F : Type 0) : Type 0 where
  pub key : String
  pub prefix : String
  pub unit : String
  pub reading : Transceiver F → F

abbrev pub dom_param : {F : Type 0} → String → String → String → (Transceiver F → F) → DomParam F
dom_param key prefix unit reading = record {
  key = key;
  prefix = prefix;
  unit = unit;
  reading = reading;
}

abbrev pub dom_params : {F : Type 0} → List (DomParam F)
dom_params =
    dom_param "temperature" "arista_transceiver_temperature" "celsius" (λ x. x.temperature)
    ∷ dom_param "voltage" "arista_transceiver_voltage" "volts" (λ x. x.voltage)
    ∷ dom_param "txBias" "arista_transceiver_tx_bias" "milliamps" (λ x. x.tx_bias)
    ∷ dom_param "txPower" "arista_transceiver_tx_power" "dbm" (λ x. x.tx_power)
    ∷ dom_param "rxPower" "arista_transceiver_rx_power" "dbm" (λ x. x.rx_power)
    ∷ []

module _ {F : Type 0} ⦃h : Host F⦄ where
  unfoldable pub collect_level : String → String → DomParam F → String → Option F → List (Metric F)
  unfolding set
  collect_level label name p level none = []
  collect_level label name p level (some v) =
      set (p.prefix +s "_threshold_" +s p.unit) v (label ∷ name ∷ level ∷ [])

  -- `continue` where EOS reports no thresholds.
  unfoldable pub collect_thresholds :
      String → String → DomParam F → Option (DomThresholds F) → List (Metric F)
  unfolding collect_level
  collect_thresholds label name p none = []
  collect_thresholds label name p (some th) =
      collect_level label name p "high_alarm" th.high_alarm
      ++ collect_level label name p "high_warn" th.high_warn
      ++ collect_level label name p "low_alarm" th.low_alarm
      ++ collect_level label name p "low_warn" th.low_warn

  unfoldable pub collect_param : String → String → Transceiver F → DomParam F → List (Metric F)
  unfolding set collect_thresholds
  collect_param label name x p =
      set (p.prefix +s "_" +s p.unit) (p.reading x) (label ∷ name ∷ [])
      ++ collect_thresholds label name p (lookup p.key x.details)

  unfoldable pub collect_transceiver : String → String → Transceiver F → List (Metric F)
  unfolding set set_time collect_param
  collect_transceiver label name x =
      set "arista_transceiver_info" (h.of_ℕ 1)
        (label ∷ name ∷ x.slot ∷ x.channel ∷ x.media_type ∷ x.vendor_sn ∷ [])
      ++ set_time "arista_transceiver_update_timestamp_seconds" x.update_time (label ∷ name ∷ [])
      ++ flat_map (collect_param label name x) dom_params

  unfoldable pub collect_transceivers : String → String → ShowTransceiverDetail F → List (Metric F)
  unfolding collect_transceiver
  collect_transceivers iface label t =
      for_entries (if_matched iface (collect_transceiver label)) t.interfaces

  unfoldable pub collect_block_lock : List String → Option (PhyBoolAttr F) → List (Metric F)
  unfolding bool_attr
  collect_block_lock lv none = []
  collect_block_lock lv (some lock) = bool_attr "arista_phy_pcs_block_lock" lock lv

  unfoldable pub collect_pcs : List String → PhyPcs F → List (Metric F)
  unfolding set set_bool bool_attr count_attr collect_block_lock
  collect_pcs lv pcs =
      set_bool "arista_phy_pcs_link_up" (str_eq pcs.link_status.value "up") lv
      ++ set "arista_phy_pcs_link_changes_total" (h.of_ℕ pcs.link_status.changes) lv
      ++ bool_attr "arista_phy_pcs_high_ber" pcs.high_ber lv
      ++ count_attr "arista_phy_pcs_last_high_ber_count" pcs.last_high_ber_count lv
      ++ count_attr "arista_phy_pcs_last_errored_block_count" pcs.last_errored_block_count lv
      ++ collect_block_lock lv pcs.block_lock

  unfoldable pub collect_pma : List String → PhyPma F → List (Metric F)
  unfolding set set_bool bool_attr
  collect_pma lv pma =
      set_bool "arista_phy_pma_link_up" (str_eq pma.link_status.value "up") lv
      ++ set "arista_phy_pma_link_changes_total" (h.of_ℕ pma.link_status.changes) lv
      ++ bool_attr "arista_phy_pma_signal_detect" pma.signal_detect lv

  unfoldable pub collect_lane :
      String → String → String → String → PhyCounterAttr F → List (Metric F)
  unfolding count_attr
  collect_lane label name phy lane sym =
      count_attr "arista_phy_fec_corrected_symbols" sym (label ∷ name ∷ phy ∷ lane ∷ [])

  -- `continue` on a link without FEC.
  unfoldable pub collect_fec : String → String → String → Option (PhyFec F) → List (Metric F)
  unfolding set bool_attr count_attr collect_lane
  collect_fec label name phy none = []
  collect_fec label name phy (some fec) =
      set "arista_phy_fec_info" (h.of_ℕ 1)
        (label ∷ name ∷ phy ∷ fec.encoding ∷ fec.codeword_size ∷ [])
      ++ bool_attr "arista_phy_fec_alignment_lock" fec.alignment_lock (label ∷ name ∷ phy ∷ [])
      ++ count_attr "arista_phy_fec_corrected_codewords" fec.corrected_codewords
          (label ∷ name ∷ phy ∷ [])
      ++ count_attr "arista_phy_fec_uncorrected_codewords" fec.uncorrected_codewords
          (label ∷ name ∷ phy ∷ [])
      ++ for_entries (collect_lane label name phy) fec.corrected_symbols

  unfoldable pub collect_phy_status : String → String → PhyStatus F → List (Metric F)
  unfolding set set_bool collect_pcs collect_pma collect_fec
  collect_phy_status label name p =
      set "arista_phy_info" (h.of_ℕ 1) (
        label ∷ name ∷ p.description.location ∷ p.chip.model_name ∷ p.chip.firmware_rev
        ∷ p.oper_speed ∷ [])
      ++ set "arista_phy_interrupt_count" (h.of_ℕ p.interrupt_count)
          (label ∷ name ∷ p.description.location ∷ [])
      ++ set_bool "arista_phy_link_up" (str_eq p.phy_state.value "linkUp")
          (label ∷ name ∷ p.description.location ∷ [])
      ++ set "arista_phy_link_changes_total" (h.of_ℕ p.phy_state.changes)
          (label ∷ name ∷ p.description.location ∷ [])
      ++ collect_pcs (label ∷ name ∷ p.description.location ∷ []) p.pcs
      ++ collect_pma (label ∷ name ∷ p.description.location ∷ []) p.pma
      ++ collect_fec label name p.description.location p.fec

  unfoldable pub collect_interface_phy : String → String → InterfacePhy F → List (Metric F)
  unfolding set set_bool bool_attr collect_phy_status
  collect_interface_phy label name i =
      set_bool "arista_phy_interface_up" (str_eq i.interface_state.current "up") (label ∷ name ∷ [])
      ++ set "arista_phy_interface_changes_total" (h.of_ℕ i.interface_state.changes)
          (label ∷ name ∷ [])
      ++ bool_attr "arista_phy_mac_local_fault" i.mac_faults.local_fault (label ∷ name ∷ [])
      ++ bool_attr "arista_phy_mac_remote_fault" i.mac_faults.remote_fault (label ∷ name ∷ [])
      ++ flat_map (collect_phy_status label name) i.phy_statuses

  unfoldable pub collect_phy : String → String → ShowPhyDetail F → List (Metric F)
  unfolding collect_interface_phy
  collect_phy iface label phy =
      for_entries (if_matched iface (collect_interface_phy label)) phy.interfaces

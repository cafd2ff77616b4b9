-- ===== src/Eapi/Types/Optics.antt =====
-- What EOS answers to the show commands for transceivers and PHYs (internal/eapi/optics.go): each struct's fields,
-- with float64 as the type F, and its zero value.
use arex.Prelude.{ℕ, Bool, String, [], List, Option}
use arex.Prelude.Int.{ℤ}
use arex.Prelude.Assoc.{Map}

pub record DomThresholds (F : Type 0) : Type 0 where
  pub high_alarm : Option F
  pub high_warn : Option F
  pub low_alarm : Option F
  pub low_warn : Option F

pub record Transceiver (F : Type 0) : Type 0 where
  pub slot : String
  pub channel : String
  pub vendor_sn : String
  pub media_type : String
  pub update_time : F
  pub temperature : F
  pub voltage : F
  pub tx_bias : F
  pub tx_power : F
  pub rx_power : F
  pub details : Map (DomThresholds F)

pub record ShowTransceiverDetail (F : Type 0) : Type 0 where
  pub interfaces : Map (Transceiver F)

unfoldable pub zero_show_transceiver_detail : {F : Type 0} → F → ShowTransceiverDetail F
zero_show_transceiver_detail z = record { interfaces = [] }

pub record PhyStringAttr (F : Type 0) : Type 0 where
  pub value : String
  pub changes : ℕ
  pub last_change : F

pub record PhyBoolAttr (F : Type 0) : Type 0 where
  pub value : Bool
  pub changes : ℕ
  pub last_change : F

pub record PhyCounterAttr (F : Type 0) : Type 0 where
  pub value : F
  pub changes : ℕ
  pub last_change : F

pub record PhyDescription : Type 0 where
  pub phy_chip_name : String
  pub location : String

pub record PhyChip : Type 0 where
  pub model_name : String
  pub hw_rev : String
  pub firmware_rev : String

pub record PhyPcs (F : Type 0) : Type 0 where
  pub link_status : PhyStringAttr F
  pub block_lock : Option (PhyBoolAttr F)
  pub high_ber : PhyBoolAttr F
  pub last_high_ber_count : PhyCounterAttr F
  pub last_errored_block_count : PhyCounterAttr F

pub record PhyFec (F : Type 0) : Type 0 where
  pub encoding : String
  pub codeword_size : String
  pub alignment_lock : PhyBoolAttr F
  pub corrected_codewords : PhyCounterAttr F
  pub uncorrected_codewords : PhyCounterAttr F
  pub corrected_symbols : Map (PhyCounterAttr F)
  pub lane_map : Map ℤ

pub record PhyPma (F : Type 0) : Type 0 where
  pub link_status : PhyStringAttr F
  pub signal_detect : PhyBoolAttr F
  pub lane_signal_detect : Map (PhyBoolAttr F)
  pub lane_link_status : Map (PhyStringAttr F)

pub record PhyStatus (F : Type 0) : Type 0 where
  pub description : PhyDescription
  pub chip : PhyChip
  pub pcs : PhyPcs F
  pub fec : Option (PhyFec F)
  pub pma : PhyPma F
  pub phy_state : PhyStringAttr F
  pub oper_speed : String
  pub interrupt_count : ℕ

pub record PhyInterfaceState (F : Type 0) : Type 0 where
  pub current : String
  pub changes : ℕ
  pub last_change : F

pub record PhyTransceiverInfo (F : Type 0) : Type 0 where
  pub media_type : PhyStringAttr F
  pub vendor_sn : String

pub record PhyMacFaults (F : Type 0) : Type 0 where
  pub local_fault : PhyBoolAttr F
  pub remote_fault : PhyBoolAttr F

pub record InterfacePhy (F : Type 0) : Type 0 where
  pub phy_statuses : List (PhyStatus F)
  pub interface_state : PhyInterfaceState F
  pub transceiver : PhyTransceiverInfo F
  pub mac_faults : PhyMacFaults F

pub record ShowPhyDetail (F : Type 0) : Type 0 where
  pub interfaces : Map (InterfacePhy F)

unfoldable pub zero_show_phy_detail : {F : Type 0} → F → ShowPhyDetail F
zero_show_phy_detail z = record { interfaces = [] }

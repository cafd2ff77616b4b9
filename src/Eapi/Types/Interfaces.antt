-- ===== src/Eapi/Types/Interfaces.antt =====
-- What EOS answers to the show commands for interfaces and BGP sessions (internal/eapi/types.go): each struct's fields,
-- with float64 as the type F, and its zero value.
use arex.Prelude.{ℕ, Bool, String, []}
use arex.Prelude.Int.{ℤ}
use arex.Prelude.Assoc.{Map}

pub record InputErrorsDetail : Type 0 where
  pub runt_frames : ℕ
  pub giant_frames : ℕ
  pub fcs_errors : ℕ
  pub alignment_errors : ℕ
  pub symbol_errors : ℕ
  pub rx_pause : ℕ

pub record OutputErrorsDetail : Type 0 where
  pub collisions : ℕ
  pub late_collisions : ℕ
  pub deferred_transmissions : ℕ
  pub tx_pause : ℕ

pub record InterfaceCounters (F : Type 0) : Type 0 where
  pub in_octets : ℕ
  pub out_octets : ℕ
  pub in_discards : ℕ
  pub out_discards : ℕ
  pub input_errors : ℕ
  pub output_errors : ℕ
  pub in_ucast_pkts : ℕ
  pub in_multicast_pkts : ℕ
  pub in_broadcast_pkts : ℕ
  pub out_ucast_pkts : ℕ
  pub out_multicast_pkts : ℕ
  pub out_broadcast_pkts : ℕ
  pub link_status_changes : ℕ
  pub last_clear : F
  pub counter_refresh_time : F
  pub input_errors_detail : InputErrorsDetail
  pub output_errors_detail : OutputErrorsDetail

pub record Interface (F : Type 0) : Type 0 where
  pub name : String
  pub line_protocol_status : String
  pub interface_status : String
  pub description : String
  pub interface_membership : String
  pub bandwidth : ℕ
  pub mtu : ℤ
  pub last_status_change_timestamp : F
  pub interface_counters : InterfaceCounters F

pub record ShowInterfaces (F : Type 0) : Type 0 where
  pub interfaces : Map (Interface F)

unfoldable pub zero_show_interfaces : {F : Type 0} → F → ShowInterfaces F
zero_show_interfaces z = record { interfaces = [] }

pub record BgpPeer (F : Type 0) : Type 0 where
  pub peer_state : String
  pub description : String
  pub asn : String
  pub prefix_received : ℤ
  pub prefix_accepted : ℤ
  pub prefix_advertised : ℤ
  pub under_maintenance : Bool
  pub up_down_time : F

pub record BgpVrf (F : Type 0) : Type 0 where
  pub router_id : String
  pub asn : String
  pub peers : Map (BgpPeer F)

pub record ShowBgpSummary (F : Type 0) : Type 0 where
  pub vrfs : Map (BgpVrf F)

unfoldable pub zero_show_bgp_summary : {F : Type 0} → F → ShowBgpSummary F
zero_show_bgp_summary z = record { vrfs = [] }

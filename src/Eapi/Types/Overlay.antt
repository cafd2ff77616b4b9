-- ===== src/Eapi/Types/Overlay.antt =====
-- What EOS answers to the show commands for VXLAN and EVPN (internal/eapi/overlay.go): each struct's fields,
-- with float64 as the type F, and its zero value.
use arex.Prelude.{ℕ, Bool, String, [], List}
use arex.Prelude.Int.{ℤ}
use arex.Prelude.Assoc.{Map}
use arex.Eapi.Types.Interfaces.{BgpVrf}

pub record VxlanVtepInterface : Type 0 where
  pub vteps : List String

pub record VtepTunnelType : Type 0 where
  pub tunnel_type : String

pub record VtepTunnelTypes : Type 0 where
  pub tunnel_types : List VtepTunnelType

pub record ShowVxlanVtep : Type 0 where
  pub interfaces : Map VxlanVtepInterface
  pub vtep_tunnel_types : Map VtepTunnelTypes

unfoldable pub zero_show_vxlan_vtep : ShowVxlanVtep
zero_show_vxlan_vtep = record { interfaces = []; vtep_tunnel_types = [] }

pub record VxlanVni : Type 0 where
  pub vni : ℕ
  pub source : String

pub record VxlanRemoteVteps : Type 0 where
  pub ipv4 : List String
  pub ipv6 : List String

pub record VxlanInterface : Type 0 where
  pub name : String
  pub forwarding_model : String
  pub line_protocol_status : String
  pub interface_status : String
  pub source_interface : String
  pub source_address : String
  pub udp_port : ℤ
  pub replication_mode : String
  pub encapsulation : String
  pub vlan_to_vni_map : Map VxlanVni
  pub vlan_to_vtep_map : Map VxlanRemoteVteps
  pub vrf_to_vni_map : Map ℕ

pub record ShowInterfaceVxlan : Type 0 where
  pub interfaces : Map VxlanInterface

unfoldable pub zero_show_interface_vxlan : ShowInterfaceVxlan
zero_show_interface_vxlan = record { interfaces = [] }

pub record ShowVxlanAddressTableCount : Type 0 where
  pub vtep_counts : Map ℕ

unfoldable pub zero_show_vxlan_address_table_count : ShowVxlanAddressTableCount
zero_show_vxlan_address_table_count = record { vtep_counts = [] }

pub record ShowBgpEvpnSummary (F : Type 0) : Type 0 where
  pub vrfs : Map (BgpVrf F)

unfoldable pub zero_show_bgp_evpn_summary : {F : Type 0} → F → ShowBgpEvpnSummary F
zero_show_bgp_evpn_summary z = record { vrfs = [] }

pub record ShowBgpEvpnRouteTypeCount : Type 0 where
  pub auto_discovery : ℕ
  pub mac_ip : ℕ
  pub imet : ℕ
  pub ethernet_segment : ℕ
  pub ip_prefix_ipv4 : ℕ
  pub ip_prefix_ipv6 : ℕ

unfoldable pub zero_show_bgp_evpn_route_type_count : ShowBgpEvpnRouteTypeCount
zero_show_bgp_evpn_route_type_count = record {
  auto_discovery = 0;
  mac_ip = 0;
  imet = 0;
  ethernet_segment = 0;
  ip_prefix_ipv4 = 0;
  ip_prefix_ipv6 = 0;
}

pub record EvpnPeerIp : Type 0 where
  pub ip : String

pub record EthernetSegment : Type 0 where
  pub interface : String
  pub redundancy_mode : String
  pub state : String
  pub df_election_algorithm : String
  pub df_election_state : String
  pub df_peer : EvpnPeerIp
  pub non_df_peers : List EvpnPeerIp
  pub forwarding_peers : List EvpnPeerIp

pub record BgpEvpnInstance : Type 0 where
  pub rd : String
  pub import_rts : List ℕ
  pub export_rts : List ℕ
  pub service_interface : String
  pub local_vtep : String
  pub vxlan_enabled : Bool
  pub mpls_enabled : Bool
  pub ethernet_segments : Map EthernetSegment

pub record ShowBgpEvpnInstance : Type 0 where
  pub instances : Map BgpEvpnInstance

unfoldable pub zero_show_bgp_evpn_instance : ShowBgpEvpnInstance
zero_show_bgp_evpn_instance = record { instances = [] }

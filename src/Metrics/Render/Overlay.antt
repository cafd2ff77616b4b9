-- ===== src/Metrics/Render/Overlay.antt =====
-- The VXLAN and EVPN renderers of internal/metrics/collector.go: collectVXLANVTEPs,
-- collectVXLANInterface, collectVXLANAddresses, collectEVPNPeers, collectEVPNRoutes and
-- collectEVPNSegments.
use arex.Prelude.{
  ℕ, String, itoa, join, str_eq, List, [], ◌∷◌, ◌++◌, map, Option, none, some, length, flat_map,
}
use arex.Prelude.Assoc.{Map, lookup, for_entries}
use arex.Eapi.Types.Interfaces.{BgpPeer, BgpVrf}
use arex.Eapi.Types.Overlay.{
  VxlanVtepInterface, VtepTunnelType, VtepTunnelTypes, ShowVxlanVtep, VxlanVni, VxlanRemoteVteps,
  VxlanInterface, ShowInterfaceVxlan, ShowVxlanAddressTableCount, ShowBgpEvpnSummary,
  ShowBgpEvpnRouteTypeCount, EthernetSegment, BgpEvpnInstance, ShowBgpEvpnInstance,
}
use arex.Eapi.Methods.{is_up, has_designated_forwarder, designated_forwarder}
use arex.Metrics.Emit.{Host, Metric, set, set_bool, set_time}

-- A VTEP that the map lacks reads as the zero value, with no tunnel types.
abbrev pub tunnel_kinds : Option VtepTunnelTypes → List String
tunnel_kinds none = []
tunnel_kinds (some types) = map (λ (t : VtepTunnelType). t.tunnel_type) types.tunnel_types

module _ {F : Type 0} ⦃h : Host F⦄ where
  unfoldable pub collect_vtep : String → Map VtepTunnelTypes → String → String → List (Metric F)
  unfolding set
  collect_vtep label types iface vtep =
      set "arista_vxlan_remote_vtep_info" (h.of_ℕ 1)
        (label ∷ iface ∷ vtep ∷ join "," (tunnel_kinds (lookup vtep types)) ∷ [])

  unfoldable pub collect_vtep_interface :
      String → Map VtepTunnelTypes → String → VxlanVtepInterface → List (Metric F)
  unfolding set collect_vtep
  collect_vtep_interface label types iface i =
      set "arista_vxlan_remote_vtep_count" (h.of_ℕ (length i.vteps)) (label ∷ iface ∷ [])
      ++ flat_map (collect_vtep label types iface) i.vteps

  unfoldable pub collect_vxlan_vteps : String → ShowVxlanVtep → List (Metric F)
  unfolding collect_vtep_interface
  collect_vxlan_vteps label v =
      for_entries (collect_vtep_interface label v.vtep_tunnel_types) v.interfaces

  unfoldable pub collect_vni : String → String → String → VxlanVni → List (Metric F)
  unfolding set
  collect_vni label name vlan m =
      set "arista_vxlan_vni_info" (h.of_ℕ 1) (label ∷ name ∷ vlan ∷ itoa m.vni ∷ m.source ∷ [])

  unfoldable pub collect_vrf_vni : String → String → String → ℕ → List (Metric F)
  unfolding set
  collect_vrf_vni label name vrf vni =
      set "arista_vxlan_vrf_vni_info" (h.of_ℕ 1) (label ∷ name ∷ vrf ∷ itoa vni ∷ [])

  unfoldable pub collect_flood : String → String → String → VxlanRemoteVteps → List (Metric F)
  unfolding set
  collect_flood label name vlan l =
      set "arista_vxlan_vlan_flood_vteps" (h.of_ℕ (length l.ipv4)) (label ∷ name ∷ vlan ∷ [])

  unfoldable pub collect_vxlan : String → String → VxlanInterface → List (Metric F)
  unfolding set set_bool collect_vni collect_vrf_vni collect_flood
  collect_vxlan label name i =
      set_bool "arista_vxlan_interface_up" (str_eq i.line_protocol_status "up") (label ∷ name ∷ [])
      ++ set "arista_vxlan_interface_info" (h.of_ℕ 1) (
          label ∷ name ∷ i.source_interface ∷ i.source_address ∷ i.replication_mode
          ∷ i.encapsulation ∷ [])
      ++ for_entries (collect_vni label name) i.vlan_to_vni_map
      ++ for_entries (collect_vrf_vni label name) i.vrf_to_vni_map
      ++ for_entries (collect_flood label name) i.vlan_to_vtep_map

  unfoldable pub collect_vxlan_interface : String → ShowInterfaceVxlan → List (Metric F)
  unfolding collect_vxlan
  collect_vxlan_interface label v = for_entries (collect_vxlan label) v.interfaces

  unfoldable pub collect_mac_count : String → String → ℕ → List (Metric F)
  unfolding set
  collect_mac_count label vtep n =
      set "arista_vxlan_remote_mac_count" (h.of_ℕ n) (label ∷ vtep ∷ [])

  unfoldable pub collect_vxlan_addresses : String → ShowVxlanAddressTableCount → List (Metric F)
  unfolding collect_mac_count
  collect_vxlan_addresses label v = for_entries (collect_mac_count label) v.vtep_counts

  abbrev pub evpn_peer_labels : String → String → String → BgpPeer F → List String
  evpn_peer_labels label vrf peer p = label ∷ vrf ∷ peer ∷ p.asn ∷ []

  unfoldable pub collect_evpn_peer : String → String → String → BgpPeer F → List (Metric F)
  unfolding set set_bool set_time
  collect_evpn_peer label vrf peer p =
      set "arista_bgp_evpn_peer_info" (h.of_ℕ 1) (label ∷ vrf ∷ peer ∷ p.asn ∷ p.description ∷ [])
      ++ set_bool "arista_bgp_evpn_peer_up" (str_eq p.peer_state "Established")
          (evpn_peer_labels label vrf peer p)
      ++ set_bool "arista_bgp_evpn_peer_under_maintenance" p.under_maintenance
          (evpn_peer_labels label vrf peer p)
      ++ set "arista_bgp_evpn_peer_prefixes_received" (h.of_ℤ p.prefix_received)
          (evpn_peer_labels label vrf peer p)
      ++ set "arista_bgp_evpn_peer_prefixes_accepted" (h.of_ℤ p.prefix_accepted)
          (evpn_peer_labels label vrf peer p)
      ++ set "arista_bgp_evpn_peer_prefixes_advertised" (h.of_ℤ p.prefix_advertised)
          (evpn_peer_labels label vrf peer p)
      ++ set_time "arista_bgp_evpn_peer_state_change_timestamp_seconds" p.up_down_time
          (evpn_peer_labels label vrf peer p)

  abbrev pub collect_evpn_vrf : String → String → BgpVrf F → List (Metric F)
  collect_evpn_vrf label vrf v = for_entries (collect_evpn_peer label vrf) v.peers

  unfoldable pub collect_evpn_peers : String → ShowBgpEvpnSummary F → List (Metric F)
  unfolding collect_evpn_peer
  collect_evpn_peers label e = for_entries (collect_evpn_vrf label) e.vrfs

  unfoldable pub collect_evpn_route : String → String → ℕ → List (Metric F)
  unfolding set
  collect_evpn_route label name n = set "arista_bgp_evpn_routes" (h.of_ℕ n) (label ∷ name ∷ [])

  unfoldable pub collect_evpn_routes : String → ShowBgpEvpnRouteTypeCount → List (Metric F)
  unfolding collect_evpn_route
  collect_evpn_routes label r =
      collect_evpn_route label "auto_discovery" r.auto_discovery
      ++ collect_evpn_route label "mac_ip" r.mac_ip
      ++ collect_evpn_route label "imet" r.imet
      ++ collect_evpn_route label "ethernet_segment" r.ethernet_segment
      ++ collect_evpn_route label "ip_prefix_ipv4" r.ip_prefix_ipv4
      ++ collect_evpn_route label "ip_prefix_ipv6" r.ip_prefix_ipv6

  unfoldable pub collect_segment :
      String → String → String → String → String → EthernetSegment → List (Metric F)
  unfolding set set_bool
  collect_segment label fabric local_vtep name esi seg =
      set_bool "arista_evpn_esi_up" (is_up seg) (label ∷ fabric ∷ name ∷ esi ∷ [])
      ++ set_bool "arista_evpn_esi_designated_forwarder" (designated_forwarder seg local_vtep)
          (label ∷ fabric ∷ name ∷ esi ∷ [])
      ++ set_bool "arista_evpn_esi_designated_forwarder_elected" (has_designated_forwarder seg)
          (label ∷ fabric ∷ name ∷ esi ∷ [])
      ++ set "arista_evpn_esi_forwarding_peers" (h.of_ℕ (length seg.forwarding_peers))
          (label ∷ fabric ∷ name ∷ esi ∷ [])
      ++ set "arista_evpn_esi_info" (h.of_ℕ 1)
          (label ∷ fabric ∷ name ∷ esi ∷ seg.interface ∷ seg.redundancy_mode ∷ [])

  abbrev pub collect_instance : String → String → String → BgpEvpnInstance → List (Metric F)
  collect_instance label fabric name inst =
      for_entries (collect_segment label fabric inst.local_vtep name) inst.ethernet_segments

  unfoldable pub collect_evpn_segments : String → String → ShowBgpEvpnInstance → List (Metric F)
  unfolding collect_segment
  collect_evpn_segments label fabric e = for_entries (collect_instance label fabric) e.instances

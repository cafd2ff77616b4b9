-- ===== src/Metrics/Render/Described/Overlay.antt =====
-- Every sample that the VXLAN and EVPN renderers of internal/metrics/collector.go send is of a
-- described family.
use arex.Prelude.{ℕ, String}
use arex.Metrics.Emit.{Host}
use arex.Metrics.Emit.Laws.{Counts, AllDescribed, described_rules, is_family}
use arex.Prelude.Assoc.{Map}
use arex.Eapi.Types.Interfaces.{BgpPeer}
use arex.Eapi.Types.Overlay.{
  VxlanVtepInterface, VtepTunnelTypes, ShowVxlanVtep, VxlanVni, VxlanRemoteVteps, VxlanInterface,
  ShowInterfaceVxlan, ShowVxlanAddressTableCount, ShowBgpEvpnSummary, ShowBgpEvpnRouteTypeCount,
  EthernetSegment, ShowBgpEvpnInstance,
}
use arex.Metrics.Render.Overlay.{
  collect_vtep, collect_vtep_interface, collect_vxlan_vteps, collect_vni, collect_vrf_vni,
  collect_flood, collect_vxlan, collect_vxlan_interface, collect_mac_count, collect_vxlan_addresses,
  collect_evpn_peer, collect_evpn_peers, collect_evpn_route, collect_evpn_routes, collect_segment,
  collect_evpn_segments,
}

module _ {F : Type 0} ⦃h : Host F⦄ ⦃counts : Counts h⦄ {label : String} where
  collect_vtep-IsDescribed :
      (types : Map VtepTunnelTypes) (iface : String) (vtep : String)
      → AllDescribed {F = F} label (collect_vtep label types iface vtep)
  unfolding collect_vtep is_family
  collect_vtep-IsDescribed types iface vtep = search described_rules

  collect_vtep_interface-IsDescribed :
      (types : Map VtepTunnelTypes) (iface : String) (i : VxlanVtepInterface)
      → AllDescribed {F = F} label (collect_vtep_interface label types iface i)
  unfolding collect_vtep_interface is_family
  collect_vtep_interface-IsDescribed types iface i =
      search (described_rules, collect_vtep-IsDescribed)

  pub collect_vxlan_vteps-IsDescribed :
      (v : ShowVxlanVtep) → AllDescribed {F = F} label (collect_vxlan_vteps label v)
  unfolding collect_vxlan_vteps
  collect_vxlan_vteps-IsDescribed v = search (described_rules, collect_vtep_interface-IsDescribed)

  collect_vni-IsDescribed :
      (name : String) (vlan : String) (m : VxlanVni)
      → AllDescribed {F = F} label (collect_vni label name vlan m)
  unfolding collect_vni is_family
  collect_vni-IsDescribed name vlan m = search described_rules

  collect_vrf_vni-IsDescribed :
      (name : String) (vrf : String) (vni : ℕ)
      → AllDescribed {F = F} label (collect_vrf_vni label name vrf vni)
  unfolding collect_vrf_vni is_family
  collect_vrf_vni-IsDescribed name vrf vni = search described_rules

  collect_flood-IsDescribed :
      (name : String) (vlan : String) (l : VxlanRemoteVteps)
      → AllDescribed {F = F} label (collect_flood label name vlan l)
  unfolding collect_flood is_family
  collect_flood-IsDescribed name vlan l = search described_rules

  collect_vxlan-IsDescribed :
      (name : String) (i : VxlanInterface) → AllDescribed {F = F} label (collect_vxlan label name i)
  unfolding collect_vxlan is_family
  collect_vxlan-IsDescribed name i =
      search
        (
          described_rules, collect_vni-IsDescribed, collect_vrf_vni-IsDescribed,
          collect_flood-IsDescribed,
        )
        depth 16 fits 20000

  pub collect_vxlan_interface-IsDescribed :
      (v : ShowInterfaceVxlan) → AllDescribed {F = F} label (collect_vxlan_interface label v)
  unfolding collect_vxlan_interface
  collect_vxlan_interface-IsDescribed v = search (described_rules, collect_vxlan-IsDescribed)

  collect_mac_count-IsDescribed :
      (vtep : String) (n : ℕ) → AllDescribed {F = F} label (collect_mac_count label vtep n)
  unfolding collect_mac_count is_family
  collect_mac_count-IsDescribed vtep n = search described_rules

  pub collect_vxlan_addresses-IsDescribed :
      (v : ShowVxlanAddressTableCount)
      → AllDescribed {F = F} label (collect_vxlan_addresses label v)
  unfolding collect_vxlan_addresses
  collect_vxlan_addresses-IsDescribed v = search (described_rules, collect_mac_count-IsDescribed)

  collect_evpn_peer-IsDescribed :
      (vrf : String) (peer : String) (p : BgpPeer F)
      → AllDescribed {F = F} label (collect_evpn_peer label vrf peer p)
  unfolding collect_evpn_peer is_family
  collect_evpn_peer-IsDescribed vrf peer p = search described_rules depth 16 fits 20000

  pub collect_evpn_peers-IsDescribed :
      (e : ShowBgpEvpnSummary F) → AllDescribed {F = F} label (collect_evpn_peers label e)
  unfolding collect_evpn_peers
  collect_evpn_peers-IsDescribed e = search (described_rules, collect_evpn_peer-IsDescribed)

  collect_evpn_route-IsDescribed :
      (name : String) (n : ℕ) → AllDescribed {F = F} label (collect_evpn_route label name n)
  unfolding collect_evpn_route is_family
  collect_evpn_route-IsDescribed name n = search described_rules

  pub collect_evpn_routes-IsDescribed :
      (r : ShowBgpEvpnRouteTypeCount) → AllDescribed {F = F} label (collect_evpn_routes label r)
  unfolding collect_evpn_routes
  collect_evpn_routes-IsDescribed r =
      search (described_rules, collect_evpn_route-IsDescribed) depth 16 fits 20000

  collect_segment-IsDescribed :
      (fabric : String) (local_vtep : String) (name : String) (esi : String) (seg : EthernetSegment)
      → AllDescribed {F = F} label (collect_segment label fabric local_vtep name esi seg)
  unfolding collect_segment is_family
  collect_segment-IsDescribed fabric local_vtep name esi seg =
      search described_rules depth 16 fits 20000

  pub collect_evpn_segments-IsDescribed :
      (fabric : String) (e : ShowBgpEvpnInstance)
      → AllDescribed {F = F} label (collect_evpn_segments label fabric e)
  unfolding collect_evpn_segments
  collect_evpn_segments-IsDescribed fabric e = search (described_rules, collect_segment-IsDescribed)

-- ===== src/Collector/Output/Laws.antt =====
-- Each slot is a field of its own: what a slot's closures write, and what they leave.
use arex.Prelude.{Bool, false, ◌==◌, ℕ, ◌≡◌, refl, String, arith, if◌then◌else◌}
use arex.Collector.Commands.{Slot}
use arex.Collector.Output.{Output, Decoder, unmarshal_into, apply}
use arex.Eapi.Types.System.{
  ShowVersion, ShowProcessesTop, ShowNtpAssociations, ShowHardwareCapacity,
}
use arex.Eapi.Types.Environment.{ShowEnvironmentTemp, ShowEnvironmentPower, ShowEnvironmentCooling}
use arex.Eapi.Types.Interfaces.{ShowInterfaces, ShowBgpSummary}
use arex.Eapi.Types.Overlay.{
  ShowVxlanVtep, ShowInterfaceVxlan, ShowVxlanAddressTableCount, ShowBgpEvpnSummary,
  ShowBgpEvpnRouteTypeCount, ShowBgpEvpnInstance,
}
use arex.Eapi.Types.Optics.{ShowTransceiverDetail, ShowPhyDetail}

abbrev pub slot_index : Slot → ℕ
slot_index Slot.version = 0
slot_index Slot.process_top = 1
slot_index Slot.env_temp = 2
slot_index Slot.env_power = 3
slot_index Slot.env_cooling = 4
slot_index Slot.ntp = 5
slot_index Slot.capacity = 6
slot_index Slot.vxlan_vtep = 7
slot_index Slot.vxlan_iface = 8
slot_index Slot.vxlan_addrs = 9
slot_index Slot.evpn_summary = 10
slot_index Slot.evpn_routes = 11
slot_index Slot.evpn_instance = 12
slot_index Slot.interfaces = 13
slot_index Slot.bgp = 14
slot_index Slot.optics = 15
slot_index Slot.phy = 16

abbrev pub slot_eq : Slot → Slot → Bool
slot_eq s t = slot_index s == slot_index t

-- What one field of an Output holds, as a value of one type for all of them.
pub data Document (F : Type 0) : Type 0 where
  version : ShowVersion F → Document F
  process_top : ShowProcessesTop F → Document F
  env_temp : ShowEnvironmentTemp F → Document F
  env_power : ShowEnvironmentPower F → Document F
  env_cooling : ShowEnvironmentCooling F → Document F
  ntp : ShowNtpAssociations F → Document F
  capacity : ShowHardwareCapacity → Document F
  vxlan_vtep : ShowVxlanVtep → Document F
  vxlan_iface : ShowInterfaceVxlan → Document F
  vxlan_addrs : ShowVxlanAddressTableCount → Document F
  evpn_summary : ShowBgpEvpnSummary F → Document F
  evpn_routes : ShowBgpEvpnRouteTypeCount → Document F
  evpn_instance : ShowBgpEvpnInstance → Document F
  interfaces : ShowInterfaces F → Document F
  bgp : ShowBgpSummary F → Document F
  optics : ShowTransceiverDetail F → Document F
  phy : ShowPhyDetail F → Document F

module _ {F : Type 0} where
  abbrev pub document : Slot → Output F → Document F
  document Slot.version out = Document.version out.version
  document Slot.process_top out = Document.process_top out.process_top
  document Slot.env_temp out = Document.env_temp out.env_temp
  document Slot.env_power out = Document.env_power out.env_power
  document Slot.env_cooling out = Document.env_cooling out.env_cooling
  document Slot.ntp out = Document.ntp out.ntp
  document Slot.capacity out = Document.capacity out.capacity
  document Slot.vxlan_vtep out = Document.vxlan_vtep out.vxlan_vtep
  document Slot.vxlan_iface out = Document.vxlan_iface out.vxlan_iface
  document Slot.vxlan_addrs out = Document.vxlan_addrs out.vxlan_addrs
  document Slot.evpn_summary out = Document.evpn_summary out.evpn_summary
  document Slot.evpn_routes out = Document.evpn_routes out.evpn_routes
  document Slot.evpn_instance out = Document.evpn_instance out.evpn_instance
  document Slot.interfaces out = Document.interfaces out.interfaces
  document Slot.bgp out = Document.bgp out.bgp
  document Slot.optics out = Document.optics out.optics
  document Slot.phy out = Document.phy out.phy

  -- `apply` moves the field of its slot and no other.
  pub document-apply :
      (s t : Slot) (snap out : Output F)
      → document t (apply s snap out) ≡ (if slot_eq s t then document t snap else document t out)
  unfolding apply
  document-apply Slot.version Slot.version snap out = refl
  document-apply Slot.version _ snap out = refl
  document-apply Slot.process_top Slot.version snap out = refl
  document-apply Slot.process_top _ snap out = refl
  document-apply Slot.env_temp Slot.version snap out = refl
  document-apply Slot.env_temp _ snap out = refl
  document-apply Slot.env_power Slot.version snap out = refl
  document-apply Slot.env_power _ snap out = refl
  document-apply Slot.env_cooling Slot.version snap out = refl
  document-apply Slot.env_cooling _ snap out = refl
  document-apply Slot.ntp Slot.version snap out = refl
  document-apply Slot.ntp _ snap out = refl
  document-apply Slot.capacity Slot.version snap out = refl
  document-apply Slot.capacity _ snap out = refl
  document-apply Slot.vxlan_vtep Slot.version snap out = refl
  document-apply Slot.vxlan_vtep _ snap out = refl
  document-apply Slot.vxlan_iface Slot.version snap out = refl
  document-apply Slot.vxlan_iface _ snap out = refl
  document-apply Slot.vxlan_addrs Slot.version snap out = refl
  document-apply Slot.vxlan_addrs _ snap out = refl
  document-apply Slot.evpn_summary Slot.version snap out = refl
  document-apply Slot.evpn_summary _ snap out = refl
  document-apply Slot.evpn_routes Slot.version snap out = refl
  document-apply Slot.evpn_routes _ snap out = refl
  document-apply Slot.evpn_instance Slot.version snap out = refl
  document-apply Slot.evpn_instance _ snap out = refl
  document-apply Slot.interfaces Slot.version snap out = refl
  document-apply Slot.interfaces _ snap out = refl
  document-apply Slot.bgp Slot.version snap out = refl
  document-apply Slot.bgp _ snap out = refl
  document-apply Slot.optics Slot.version snap out = refl
  document-apply Slot.optics _ snap out = refl
  document-apply Slot.phy Slot.version snap out = refl
  document-apply Slot.phy _ snap out = refl

  -- Decoding into a slot leaves every other field of the snapshot.
  pub document-unmarshal_into :
      (d : Decoder F) (s t : Slot) (raw : String) (snap : Output F)
      → slot_eq s t ≡ false
      → document t (unmarshal_into d s raw snap).0 ≡ document t snap
  unfolding unmarshal_into
  document-unmarshal_into d Slot.version Slot.version raw snap h = ground arith
  document-unmarshal_into d Slot.version _ raw snap h = ground arith
  document-unmarshal_into d Slot.process_top Slot.version raw snap h = refl
  document-unmarshal_into d Slot.process_top _ raw snap h = ground arith
  document-unmarshal_into d Slot.env_temp Slot.version raw snap h = refl
  document-unmarshal_into d Slot.env_temp _ raw snap h = ground arith
  document-unmarshal_into d Slot.env_power Slot.version raw snap h = refl
  document-unmarshal_into d Slot.env_power _ raw snap h = ground arith
  document-unmarshal_into d Slot.env_cooling Slot.version raw snap h = refl
  document-unmarshal_into d Slot.env_cooling _ raw snap h = ground arith
  document-unmarshal_into d Slot.ntp Slot.version raw snap h = refl
  document-unmarshal_into d Slot.ntp _ raw snap h = ground arith
  document-unmarshal_into d Slot.capacity Slot.version raw snap h = refl
  document-unmarshal_into d Slot.capacity _ raw snap h = ground arith
  document-unmarshal_into d Slot.vxlan_vtep Slot.version raw snap h = refl
  document-unmarshal_into d Slot.vxlan_vtep _ raw snap h = ground arith
  document-unmarshal_into d Slot.vxlan_iface Slot.version raw snap h = refl
  document-unmarshal_into d Slot.vxlan_iface _ raw snap h = ground arith
  document-unmarshal_into d Slot.vxlan_addrs Slot.version raw snap h = refl
  document-unmarshal_into d Slot.vxlan_addrs _ raw snap h = ground arith
  document-unmarshal_into d Slot.evpn_summary Slot.version raw snap h = refl
  document-unmarshal_into d Slot.evpn_summary _ raw snap h = ground arith
  document-unmarshal_into d Slot.evpn_routes Slot.version raw snap h = refl
  document-unmarshal_into d Slot.evpn_routes _ raw snap h = ground arith
  document-unmarshal_into d Slot.evpn_instance Slot.version raw snap h = refl
  document-unmarshal_into d Slot.evpn_instance _ raw snap h = ground arith
  document-unmarshal_into d Slot.interfaces Slot.version raw snap h = refl
  document-unmarshal_into d Slot.interfaces _ raw snap h = ground arith
  document-unmarshal_into d Slot.bgp Slot.version raw snap h = refl
  document-unmarshal_into d Slot.bgp _ raw snap h = ground arith
  document-unmarshal_into d Slot.optics Slot.version raw snap h = refl
  document-unmarshal_into d Slot.optics _ raw snap h = ground arith
  document-unmarshal_into d Slot.phy Slot.version raw snap h = refl
  document-unmarshal_into d Slot.phy _ raw snap h = ground arith

-- ===== src/Collector/Output.antt =====
-- What a poll keeps: the outputs of the commands, how JSON is decoded into them, and the two
-- closures `into` and `apply` of a cmdSpec (optionalCommands of internal/collector/collector.go).
-- encoding/json is a parameter: a decoder writes into the value that is there, and may fail.
pub mod Laws
use arex.Prelude.{Bool, true, false, ◌==◌, ℕ, String, Option, none, some, ◌≡◌, refl, if◌then◌else◌}
use arex.Collector.Commands.{Slot}
use arex.Eapi.Types.System.{
  ShowVersion, zero_show_version, ShowProcessesTop, zero_show_processes_top, ShowNtpAssociations,
  zero_show_ntp_associations, ShowHardwareCapacity, zero_show_hardware_capacity,
}
use arex.Eapi.Types.Environment.{
  ShowEnvironmentTemp, zero_show_environment_temp, ShowEnvironmentPower,
  zero_show_environment_power, ShowEnvironmentCooling, zero_show_environment_cooling,
}
use arex.Eapi.Types.Interfaces.{
  ShowInterfaces, zero_show_interfaces, ShowBgpSummary, zero_show_bgp_summary,
}
use arex.Eapi.Types.Overlay.{
  ShowVxlanVtep, zero_show_vxlan_vtep, ShowInterfaceVxlan, zero_show_interface_vxlan,
  ShowVxlanAddressTableCount, zero_show_vxlan_address_table_count, ShowBgpEvpnSummary,
  zero_show_bgp_evpn_summary, ShowBgpEvpnRouteTypeCount, zero_show_bgp_evpn_route_type_count,
  ShowBgpEvpnInstance, zero_show_bgp_evpn_instance,
}
use arex.Eapi.Types.Optics.{
  ShowTransceiverDetail, zero_show_transceiver_detail, ShowPhyDetail, zero_show_phy_detail,
}

-- The parsed fields of `snapshot`, which are also those of SwitchData.
pub record Output (F : Type 0) : Type 0 where
  pub version : ShowVersion F
  pub process_top : ShowProcessesTop F
  pub env_temp : ShowEnvironmentTemp F
  pub env_power : ShowEnvironmentPower F
  pub env_cooling : ShowEnvironmentCooling F
  pub ntp : ShowNtpAssociations F
  pub capacity : ShowHardwareCapacity
  pub vxlan_vtep : ShowVxlanVtep
  pub vxlan_iface : ShowInterfaceVxlan
  pub vxlan_addrs : ShowVxlanAddressTableCount
  pub evpn_summary : ShowBgpEvpnSummary F
  pub evpn_routes : ShowBgpEvpnRouteTypeCount
  pub evpn_instance : ShowBgpEvpnInstance
  pub interfaces : ShowInterfaces F
  pub bgp : ShowBgpSummary F
  pub optics : ShowTransceiverDetail F
  pub phy : ShowPhyDetail F

unfoldable pub zero_output : {F : Type 0} → F → Output F
zero_output z = record {
  version = zero_show_version z;
  process_top = zero_show_processes_top z;
  env_temp = zero_show_environment_temp z;
  env_power = zero_show_environment_power z;
  env_cooling = zero_show_environment_cooling z;
  ntp = zero_show_ntp_associations z;
  capacity = zero_show_hardware_capacity;
  vxlan_vtep = zero_show_vxlan_vtep;
  vxlan_iface = zero_show_interface_vxlan;
  vxlan_addrs = zero_show_vxlan_address_table_count;
  evpn_summary = zero_show_bgp_evpn_summary z;
  evpn_routes = zero_show_bgp_evpn_route_type_count;
  evpn_instance = zero_show_bgp_evpn_instance;
  interfaces = zero_show_interfaces z;
  bgp = zero_show_bgp_summary z;
  optics = zero_show_transceiver_detail z;
  phy = zero_show_phy_detail z;
}

-- json.Unmarshal at each type: the raw text and the old value give the new value and the error.
pub record Decoder (F : Type 0) : Type 0 where
  pub version : String → ShowVersion F → ShowVersion F × Option String
  pub process_top : String → ShowProcessesTop F → ShowProcessesTop F × Option String
  pub env_temp : String → ShowEnvironmentTemp F → ShowEnvironmentTemp F × Option String
  pub env_power : String → ShowEnvironmentPower F → ShowEnvironmentPower F × Option String
  pub env_cooling : String → ShowEnvironmentCooling F → ShowEnvironmentCooling F × Option String
  pub ntp : String → ShowNtpAssociations F → ShowNtpAssociations F × Option String
  pub capacity : String → ShowHardwareCapacity → ShowHardwareCapacity × Option String
  pub vxlan_vtep : String → ShowVxlanVtep → ShowVxlanVtep × Option String
  pub vxlan_iface : String → ShowInterfaceVxlan → ShowInterfaceVxlan × Option String
  pub vxlan_addrs : String → ShowVxlanAddressTableCount → ShowVxlanAddressTableCount × Option String
  pub evpn_summary : String → ShowBgpEvpnSummary F → ShowBgpEvpnSummary F × Option String
  pub evpn_routes : String → ShowBgpEvpnRouteTypeCount → ShowBgpEvpnRouteTypeCount × Option String
  pub evpn_instance : String → ShowBgpEvpnInstance → ShowBgpEvpnInstance × Option String
  pub interfaces : String → ShowInterfaces F → ShowInterfaces F × Option String
  pub bgp : String → ShowBgpSummary F → ShowBgpSummary F × Option String
  pub optics : String → ShowTransceiverDetail F → ShowTransceiverDetail F × Option String
  pub phy : String → ShowPhyDetail F → ShowPhyDetail F × Option String

-- `json.Unmarshal(raw, c.into(&snap))`
module _ {F : Type 0} where
  unfoldable pub unmarshal_into : Decoder F → Slot → String → Output F → Output F × Option String
  unmarshal_into d Slot.version raw snap =
      let r = d.version raw snap.version in (record snap { version = r.0 }, r.1)
  unmarshal_into d Slot.process_top raw snap =
      let r = d.process_top raw snap.process_top in (record snap { process_top = r.0 }, r.1)
  unmarshal_into d Slot.env_temp raw snap =
      let r = d.env_temp raw snap.env_temp in (record snap { env_temp = r.0 }, r.1)
  unmarshal_into d Slot.env_power raw snap =
      let r = d.env_power raw snap.env_power in (record snap { env_power = r.0 }, r.1)
  unmarshal_into d Slot.env_cooling raw snap =
      let r = d.env_cooling raw snap.env_cooling in (record snap { env_cooling = r.0 }, r.1)
  unmarshal_into d Slot.ntp raw snap =
      let r = d.ntp raw snap.ntp in (record snap { ntp = r.0 }, r.1)
  unmarshal_into d Slot.capacity raw snap =
      let r = d.capacity raw snap.capacity in (record snap { capacity = r.0 }, r.1)
  unmarshal_into d Slot.vxlan_vtep raw snap =
      let r = d.vxlan_vtep raw snap.vxlan_vtep in (record snap { vxlan_vtep = r.0 }, r.1)
  unmarshal_into d Slot.vxlan_iface raw snap =
      let r = d.vxlan_iface raw snap.vxlan_iface in (record snap { vxlan_iface = r.0 }, r.1)
  unmarshal_into d Slot.vxlan_addrs raw snap =
      let r = d.vxlan_addrs raw snap.vxlan_addrs in (record snap { vxlan_addrs = r.0 }, r.1)
  unmarshal_into d Slot.evpn_summary raw snap =
      let r = d.evpn_summary raw snap.evpn_summary in (record snap { evpn_summary = r.0 }, r.1)
  unmarshal_into d Slot.evpn_routes raw snap =
      let r = d.evpn_routes raw snap.evpn_routes in (record snap { evpn_routes = r.0 }, r.1)
  unmarshal_into d Slot.evpn_instance raw snap =
      let r = d.evpn_instance raw snap.evpn_instance in (record snap { evpn_instance = r.0 }, r.1)
  unmarshal_into d Slot.interfaces raw snap =
      let r = d.interfaces raw snap.interfaces in (record snap { interfaces = r.0 }, r.1)
  unmarshal_into d Slot.bgp raw snap =
      let r = d.bgp raw snap.bgp in (record snap { bgp = r.0 }, r.1)
  unmarshal_into d Slot.optics raw snap =
      let r = d.optics raw snap.optics in (record snap { optics = r.0 }, r.1)
  unmarshal_into d Slot.phy raw snap =
      let r = d.phy raw snap.phy in (record snap { phy = r.0 }, r.1)

  -- `c.apply(&snap, data)`
  unfoldable pub apply : Slot → Output F → Output F → Output F
  apply Slot.version snap out = record out { version = snap.version }
  apply Slot.process_top snap out = record out { process_top = snap.process_top }
  apply Slot.env_temp snap out = record out { env_temp = snap.env_temp }
  apply Slot.env_power snap out = record out { env_power = snap.env_power }
  apply Slot.env_cooling snap out = record out { env_cooling = snap.env_cooling }
  apply Slot.ntp snap out = record out { ntp = snap.ntp }
  apply Slot.capacity snap out = record out { capacity = snap.capacity }
  apply Slot.vxlan_vtep snap out = record out { vxlan_vtep = snap.vxlan_vtep }
  apply Slot.vxlan_iface snap out = record out { vxlan_iface = snap.vxlan_iface }
  apply Slot.vxlan_addrs snap out = record out { vxlan_addrs = snap.vxlan_addrs }
  apply Slot.evpn_summary snap out = record out { evpn_summary = snap.evpn_summary }
  apply Slot.evpn_routes snap out = record out { evpn_routes = snap.evpn_routes }
  apply Slot.evpn_instance snap out = record out { evpn_instance = snap.evpn_instance }
  apply Slot.interfaces snap out = record out { interfaces = snap.interfaces }
  apply Slot.bgp snap out = record out { bgp = snap.bgp }
  apply Slot.optics snap out = record out { optics = snap.optics }
  apply Slot.phy snap out = record out { phy = snap.phy }

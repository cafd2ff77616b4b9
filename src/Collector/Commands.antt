-- ===== src/Collector/Commands.antt =====
-- The commands a switch is polled with: cmdSpec, the Cmd constants, optionalCommands, scoped and
-- commandsFor of internal/collector/collector.go. A spec's two closures `into` and `apply` are its
-- slot, the field of a snapshot and of a SwitchData that its output goes to (Collector/Data.antt).
pub mod Laws
use arex.Prelude.{
  not, true, String, nonempty, str_eq, List, [], ◌∷◌, ◌++◌, map, Option, none, some, if◌then◌else◌,
  ◌+s◌,
}
use arex.Prelude.Int.{pos, is_pos}
use arex.Prelude.Assoc.{Map, lookup}
use arex.GoTime.{Duration}
use arex.Config.Types.{ModuleConfig, CollectSet}

pub data Slot : Type 0 where
  version process_top env_temp env_power env_cooling ntp capacity : Slot
  vxlan_vtep vxlan_iface vxlan_addrs evpn_summary evpn_routes evpn_instance : Slot
  interfaces bgp optics phy : Slot

pub record CmdSpec : Type 0 where
  pub name : String
  pub cli : String
  pub module_name : String
  pub interval : Duration
  pub slot : Slot

abbrev pub cmd_version : String
cmd_version = "show version"

abbrev pub cmd_processes_top : String
cmd_processes_top = "show processes top once"

abbrev pub cmd_env_temp : String
cmd_env_temp = "show system environment temperature"

abbrev pub cmd_env_power : String
cmd_env_power = "show system environment power"

abbrev pub cmd_env_cooling : String
cmd_env_cooling = "show system environment cooling"

abbrev pub cmd_ntp_associations : String
cmd_ntp_associations = "show ntp associations"

abbrev pub cmd_hardware_capacity : String
cmd_hardware_capacity = "show hardware capacity"

abbrev pub cmd_interfaces : String
cmd_interfaces = "show interfaces"

abbrev pub cmd_bgp_summary : String
cmd_bgp_summary = "show ip bgp summary vrf all"

abbrev pub cmd_vxlan_vtep : String
cmd_vxlan_vtep = "show vxlan vtep"

-- The metric's label is singular, the command sent is plural.
abbrev pub cmd_vxlan_interface : String
cmd_vxlan_interface = "show interface vxlan 1"

abbrev pub cmd_vxlan_interface_cli : String
cmd_vxlan_interface_cli = "show interfaces vxlan 1"

abbrev pub cmd_vxlan_address_count : String
cmd_vxlan_address_count = "show vxlan address-table count"

abbrev pub cmd_bgp_evpn_summary : String
cmd_bgp_evpn_summary = "show bgp evpn summary"

abbrev pub cmd_bgp_evpn_route_count : String
cmd_bgp_evpn_route_count = "show bgp evpn route-type count"

abbrev pub cmd_bgp_evpn_instance : String
cmd_bgp_evpn_instance = "show bgp evpn instance"

abbrev pub cmd_transceivers : String
cmd_transceivers = "show interfaces transceiver detail"

abbrev pub cmd_phy : String
cmd_phy = "show interfaces phy detail"

-- A spec as the tables write it: module and interval are still zero.
abbrev pub bare : String → String → Slot → CmdSpec
bare name cli slot = record {
  name = name;
  cli = cli;
  module_name = "";
  interval = pos 0;
  slot = slot;
}

abbrev pub version_command : CmdSpec
version_command = bare cmd_version cmd_version Slot.version

abbrev pub optional_commands : Map (List CmdSpec)
optional_commands =
    ("processes", bare cmd_processes_top cmd_processes_top Slot.process_top ∷ [])
    ∷ ("temperature", bare cmd_env_temp cmd_env_temp Slot.env_temp ∷ [])
    ∷ ("power", bare cmd_env_power cmd_env_power Slot.env_power ∷ [])
    ∷ ("cooling", bare cmd_env_cooling cmd_env_cooling Slot.env_cooling ∷ [])
    ∷ ("ntp", bare cmd_ntp_associations cmd_ntp_associations Slot.ntp ∷ [])
    ∷ ("capacity", bare cmd_hardware_capacity cmd_hardware_capacity Slot.capacity ∷ [])
    ∷ ("interfaces", bare cmd_interfaces cmd_interfaces Slot.interfaces ∷ [])
    ∷ ("bgp", bare cmd_bgp_summary cmd_bgp_summary Slot.bgp ∷ [])
    ∷ (
      "vxlan",
      bare cmd_vxlan_vtep cmd_vxlan_vtep Slot.vxlan_vtep
          ∷ bare cmd_vxlan_interface cmd_vxlan_interface_cli Slot.vxlan_iface
          ∷ bare cmd_vxlan_address_count cmd_vxlan_address_count Slot.vxlan_addrs
          ∷ [],
    )
    ∷ (
      "evpn",
      bare cmd_bgp_evpn_summary cmd_bgp_evpn_summary Slot.evpn_summary
          ∷ bare cmd_bgp_evpn_route_count cmd_bgp_evpn_route_count Slot.evpn_routes
          ∷ [],
    )
    ∷ ("esi", bare cmd_bgp_evpn_instance cmd_bgp_evpn_instance Slot.evpn_instance ∷ [])
    ∷ ("transceiver", bare cmd_transceivers cmd_transceivers Slot.optics ∷ [])
    ∷ ("phy", bare cmd_phy cmd_phy Slot.phy ∷ [])
    ∷ []

abbrev pub command_order : List String
command_order =
    "processes" ∷ "temperature" ∷ "power" ∷ "cooling" ∷ "ntp" ∷ "capacity" ∷ "interfaces" ∷ "bgp"
    ∷ "vxlan" ∷ "evpn" ∷ "esi" ∷ "transceiver" ∷ "phy" ∷ []

unfoldable pub scoped : String → String → String
scoped name scope =
    if not (nonempty scope)
    then name
    else if str_eq name cmd_interfaces
    then "show interfaces " +s scope
    else if str_eq name cmd_transceivers
    then "show interfaces " +s scope +s " transceiver detail"
    else if str_eq name cmd_phy
    then "show interfaces " +s scope +s " phy detail"
    else name

-- The body of the inner loop of commandsFor.
unfoldable pub specialise : String → String → ModuleConfig → Duration → CmdSpec → CmdSpec
specialise key scope mod_config poll_interval spec = record spec {
  cli = scoped spec.cli scope;
  module_name = key;
  interval = if is_pos mod_config.interval then mod_config.interval else poll_interval;
}

abbrev pub specs_or_nil : Option (List CmdSpec) → List CmdSpec
specs_or_nil none = []
specs_or_nil (some l) = l

-- One round of the outer loop: nothing for a key that is absent or not enabled.
unfoldable pub key_commands : CollectSet → String → Duration → String → List CmdSpec
key_commands collect scope poll_interval key = elim (lookup key collect) [
  | none ↦ []
  | some mod_config ↦
      if mod_config.enabled
      then map (specialise key scope mod_config poll_interval)
          (specs_or_nil (lookup key optional_commands))
      else []
]

unfoldable pub optional_for : CollectSet → String → Duration → List String → List CmdSpec
optional_for collect scope poll_interval [] = []
optional_for collect scope poll_interval (key ∷ rest) =
    key_commands collect scope poll_interval key ++ optional_for collect scope poll_interval rest

unfoldable pub commands_for : CollectSet → String → Duration → List CmdSpec
commands_for collect scope poll_interval =
    record version_command { interval = poll_interval }
    ∷ optional_for collect scope poll_interval command_order

unfoldable pub command_names : List CmdSpec → List String
command_names = map λ c. c.name

unfoldable pub all_collect_keys : Duration → CollectSet
all_collect_keys interval =
    map (λ k. (k, record { enabled = true; interval = interval })) command_order

unfoldable pub commands_per_key : Map (List String)
commands_per_key = map (λ e. (e.0, map (λ s. s.name) e.1)) optional_commands

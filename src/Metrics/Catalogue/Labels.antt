-- ===== src/Metrics/Catalogue/Labels.antt =====
-- The label sets of internal/metrics/catalogue.go and the type of a family.
use arex.Prelude.{String, List, [], ◌∷◌}

pub record MetricDef : Type 0 where
  pub name : String
  pub typ : String
  pub help : String
  pub labels : List String

abbrev pub family : String → String → String → List String → MetricDef
family name typ help labels = record { name = name; typ = typ; help = help; labels = labels }

abbrev pub l_switch : List String
l_switch = "switch" ∷ []

abbrev pub l_command : List String
l_command = "switch" ∷ "command" ∷ []

abbrev pub l_eapi : List String
l_eapi = "switch" ∷ "outcome" ∷ "attempt" ∷ []

abbrev pub l_reload : List String
l_reload = "switch" ∷ "outcome" ∷ []

abbrev pub l_info : List String
l_info = "switch" ∷ "model" ∷ "serial" ∷ "version" ∷ "mac" ∷ "arch" ∷ []

abbrev pub l_sensor : List String
l_sensor = "switch" ∷ "location" ∷ "sensor" ∷ "description" ∷ "position" ∷ []

abbrev pub l_psu_sensor : List String
l_psu_sensor = "switch" ∷ "psu" ∷ "sensor" ∷ "description" ∷ "position" ∷ []

abbrev pub l_psu : List String
l_psu = "switch" ∷ "psu" ∷ []

abbrev pub l_psu_info : List String
l_psu_info = "switch" ∷ "psu" ∷ "model" ∷ []

abbrev pub l_cooling_info : List String
l_cooling_info = "switch" ∷ "airflow" ∷ "mode" ∷ []

abbrev pub l_fan : List String
l_fan = "switch" ∷ "tray" ∷ "fan" ∷ "location" ∷ []

abbrev pub l_fan_info : List String
l_fan_info = "switch" ∷ "tray" ∷ "fan" ∷ "location" ∷ "vendor_model" ∷ []

abbrev pub l_iface : List String
l_iface = "switch" ∷ "interface" ∷ []

abbrev pub l_iface_info : List String
l_iface_info = "switch" ∷ "interface" ∷ "description" ∷ "membership" ∷ "mtu" ∷ []

abbrev pub l_iface_cast : List String
l_iface_cast = "switch" ∷ "interface" ∷ "cast" ∷ []

abbrev pub l_iface_cause : List String
l_iface_cause = "switch" ∷ "interface" ∷ "cause" ∷ []

abbrev pub l_capacity : List String
l_capacity = "switch" ∷ "table" ∷ "feature" ∷ "chip" ∷ []

abbrev pub l_capacity_inf : List String
l_capacity_inf = "switch" ∷ "table" ∷ "feature" ∷ "chip" ∷ "shared_features" ∷ []

abbrev pub l_vxlan : List String
l_vxlan = "switch" ∷ "interface" ∷ []

abbrev pub l_vxlan_info : List String
l_vxlan_info =
    "switch" ∷ "interface" ∷ "source_interface" ∷ "source_address" ∷ "replication_mode"
    ∷ "encapsulation" ∷ []

abbrev pub l_vtep : List String
l_vtep = "switch" ∷ "interface" ∷ "vtep" ∷ "tunnel_types" ∷ []

abbrev pub l_vtep_mac : List String
l_vtep_mac = "switch" ∷ "vtep" ∷ []

abbrev pub l_vni : List String
l_vni = "switch" ∷ "interface" ∷ "vlan" ∷ "vni" ∷ "source" ∷ []

abbrev pub l_vrf_vni : List String
l_vrf_vni = "switch" ∷ "interface" ∷ "vrf" ∷ "vni" ∷ []

abbrev pub l_vlan : List String
l_vlan = "switch" ∷ "interface" ∷ "vlan" ∷ []

abbrev pub l_evpn_route : List String
l_evpn_route = "switch" ∷ "route_type" ∷ []

abbrev pub l_esi : List String
l_esi = "switch" ∷ "fabric" ∷ "evpn_instance" ∷ "esi" ∷ []

abbrev pub l_esi_info : List String
l_esi_info = "switch" ∷ "fabric" ∷ "evpn_instance" ∷ "esi" ∷ "interface" ∷ "redundancy_mode" ∷ []

abbrev pub l_ntp_peer : List String
l_ntp_peer = "switch" ∷ "peer" ∷ []

abbrev pub l_ntp_peer_info : List String
l_ntp_peer_info = "switch" ∷ "peer" ∷ "refid" ∷ "peer_type" ∷ []

abbrev pub l_peer : List String
l_peer = "switch" ∷ "vrf" ∷ "peer" ∷ "asn" ∷ []

abbrev pub l_peer_info : List String
l_peer_info = "switch" ∷ "vrf" ∷ "peer" ∷ "asn" ∷ "description" ∷ []

abbrev pub l_xcvr_info : List String
l_xcvr_info = "switch" ∷ "interface" ∷ "slot" ∷ "channel" ∷ "media_type" ∷ "vendor_sn" ∷ []

abbrev pub l_xcvr_thresh : List String
l_xcvr_thresh = "switch" ∷ "interface" ∷ "level" ∷ []

abbrev pub l_phy : List String
l_phy = "switch" ∷ "interface" ∷ "phy" ∷ []

abbrev pub l_phy_info : List String
l_phy_info = "switch" ∷ "interface" ∷ "phy" ∷ "chip" ∷ "firmware" ∷ "oper_speed" ∷ []

abbrev pub l_fec_info : List String
l_fec_info = "switch" ∷ "interface" ∷ "phy" ∷ "encoding" ∷ "codeword_size" ∷ []

abbrev pub l_fec_lane : List String
l_fec_lane = "switch" ∷ "interface" ∷ "phy" ∷ "lane" ∷ []

abbrev pub l_build : List String
l_build = "version" ∷ "revision" ∷ "go_version" ∷ "modified" ∷ []

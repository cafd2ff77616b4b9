-- ===== src/Collector/Fixtures.antt =====
-- Test data: two commands, a decoder that leaves the old value, and three switches to talk to.
-- float64 is ℕ, the world is the number of requests made.
use arex.Prelude.{ℕ, suc, ◌+◌, String, List, [], ◌∷◌, none, Result, ok, err}
use arex.Prelude.Int.{pos}
use arex.Eapi.Error.{Err, command_error, plain}
use arex.Collector.Commands.{CmdSpec, Slot, cmd_version, cmd_phy}
use arex.Collector.Output.{Decoder}
use arex.Collector.Data.{SwitchData, new_switch_data_from_specs}
use arex.Collector.Poll.{Runner, Raw}

abbrev pub version_spec : CmdSpec
version_spec = record {
  name = cmd_version;
  cli = cmd_version;
  module_name = "";
  interval = pos 30;
  slot = Slot.version;
}

abbrev pub phy_spec : CmdSpec
phy_spec = record {
  name = cmd_phy;
  cli = cmd_phy;
  module_name = "phy";
  interval = pos 900;
  slot = Slot.phy;
}

abbrev pub two_specs : List CmdSpec
two_specs = version_spec ∷ phy_spec ∷ []

abbrev pub idle_decoder : Decoder ℕ
idle_decoder = record {
  version = λ raw old. (old, none);
  process_top = λ raw old. (old, none);
  env_temp = λ raw old. (old, none);
  env_power = λ raw old. (old, none);
  env_cooling = λ raw old. (old, none);
  ntp = λ raw old. (old, none);
  capacity = λ raw old. (old, none);
  vxlan_vtep = λ raw old. (old, none);
  vxlan_iface = λ raw old. (old, none);
  vxlan_addrs = λ raw old. (old, none);
  evpn_summary = λ raw old. (old, none);
  evpn_routes = λ raw old. (old, none);
  evpn_instance = λ raw old. (old, none);
  interfaces = λ raw old. (old, none);
  bgp = λ raw old. (old, none);
  optics = λ raw old. (old, none);
  phy = λ raw old. (old, none);
}

-- A switch that rejects every batch, and answers "show version" alone.
abbrev pub answer_alone : List String → Result Err (List Raw)
answer_alone (c ∷ []) = ok ("{}" ∷ [])
answer_alone cmds = err (command_error (pos 1002) "CLI command 2 of 2 failed" [])

abbrev pub picky : Runner ℕ
picky = record { run = λ cmds w. (suc w, answer_alone cmds); clock = λ w. (w, 1000 + w) }

-- A switch that cannot be reached.
abbrev pub unreachable : Runner ℕ
unreachable = record { run = λ cmds w. (suc w, err (plain "no route")); clock = λ w. (w, 1000 + w) }

unfoldable pub fresh_switch : SwitchData ℕ
unfolding new_switch_data_from_specs
fresh_switch = new_switch_data_from_specs 0 "leaf1" "" two_specs

-- The same switch after both commands were issued at 100.
unfoldable pub running_switch : SwitchData ℕ
unfolding fresh_switch
running_switch = record fresh_switch { next_due = (cmd_version, 130) ∷ (cmd_phy, 1000) ∷ [] }

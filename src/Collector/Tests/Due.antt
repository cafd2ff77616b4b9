-- ===== src/Collector/Tests/Due.antt =====
-- A tick at a concrete switch, made as NewStore makes it.
use arex.Prelude.{◌≡◌, refl, ◌⊎◌, ℕ, ◌*◌, true, false, List, [], ◌∷◌, Memᴰ, is_empty}
use arex.Prelude.Int.{pos}
use arex.Prelude.Assoc.{lookup}
use arex.GoTime.{second}
use arex.Config.Types.{CollectSet}
use arex.Collector.Commands.{
  CmdSpec, cmd_version, commands_for, optional_for, key_commands, specialise, scoped,
}
use arex.Collector.Data.{SwitchData, new_switch_data_from_specs, intervals_of}
use arex.Collector.Schedule.{due}
use arex.Collector.Fixtures.{picky, idle_decoder}
use arex.Collector.Collect.{collect_due}
use arex.Collector.Collect.Outcome.{Landed, Failed, TimeAccounts, KeepsFailed}
use arex.Collector.Collect.Due.{IsConfigured, collect_due_outcome}

abbrev block : CollectSet
block = ("phy", record { enabled = true; interval = pos (900 * second) }) ∷ []

abbrev specs : List CmdSpec
specs = commands_for block "Ethernet1" (pos (30 * second))

unfoldable configured : SwitchData ℕ
unfolding new_switch_data_from_specs
configured = new_switch_data_from_specs 0 "leaf1" "" specs

-- The same switch once both commands were issued.
unfoldable issued : SwitchData ℕ
unfolding configured
issued = record configured {
  next_due = (cmd_version, 31 * second) ∷ ("show interfaces phy detail", 901 * second) ∷ [];
}

configured-IsConfigured : IsConfigured configured block "Ethernet1" (pos (30 * second))
unfolding configured
configured-IsConfigured = (refl, (intervals_of specs [], refl))

issued-IsConfigured : IsConfigured issued block "Ethernet1" (pos (30 * second))
unfolding issued
issued-IsConfigured = (refl, (intervals_of specs [], refl))

something_due : is_empty (due configured second) ≡ false
unfolding due configured commands_for lookup
something_due = refl

nothing_due : is_empty (due issued (2 * second)) ≡ true
unfolding due issued commands_for optional_for key_commands specialise scoped lookup
nothing_due = refl

collect_due_outcome_example :
    let after = (collect_due picky idle_decoder 0 configured second 0).switch in
    (Landed (due configured second) second after ⊎ Failed (due configured second) configured after)
    × ((c : CmdSpec)
        → Memᴰ c (due configured second)
        → TimeAccounts configured second c after × KeepsFailed configured c after)
collect_due_outcome_example =
    collect_due_outcome picky idle_decoder 0 configured block "Ethernet1" (pos (30 * second))
      configured-IsConfigured second 0 something_due

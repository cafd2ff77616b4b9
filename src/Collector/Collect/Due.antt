-- ===== src/Collector/Collect/Due.antt =====
-- What CollectDue of internal/collector/collector.go does to a switch that NewStore made.
use arex.Prelude.{◌≡◌, refl, false, true, ◌⊎◌, String, [], Memᴰ, some, is_empty}
use arex.Prelude.Assoc.{Map}
use arex.GoTime.{Time, Duration}
use arex.Config.Types.{CollectSet}
use arex.Collector.Commands.{CmdSpec, commands_for}
use arex.Collector.Commands.Laws.{
  commands_for-NamesDiffer, commands_for-SlotsDiffer, kept-NamesDiffer, kept-SlotsDiffer,
}
use arex.Collector.Output.{Decoder}
use arex.Collector.Data.{SwitchData}
use arex.Collector.Schedule.{due, is_due, ensure_specs, ensure_scheduled}
use arex.Collector.Schedule.Laws.{NamesDiffer}
use arex.Collector.Poll.{Runner}
use arex.Collector.Collect.{collect, collect_due}
use arex.Collector.Collect.Apply.{SlotsDiffer}
use arex.Collector.Collect.Outcome.{
  Landed, Failed, TimeAccounts, KeepsFailed, collect_outcome, collect_times, collect_keeps,
}

-- A switch as NewStore makes it, and as its polls leave it.
abbrev pub IsConfigured : {F : Type 0} → SwitchData F → CollectSet → String → Duration → Type 0
IsConfigured d set scope poll =
    (d.specs ≡ some (commands_for set scope poll))
    × ((m : Map Duration) × (d.command_interval ≡ some m))

module _ {F W : Type 0} (r : Runner W) (dec : Decoder F) (z : F) (d : SwitchData F)
    (set : CollectSet) (scope : String) (poll : Duration)
    (configured : IsConfigured d set scope poll) where
  ensured : ensure_scheduled d ≡ d
  unfolding ensure_scheduled ensure_specs
  ensured = rw (configured.0, configured.1.1) refl

  due-NamesDiffer : (now : Time) → NamesDiffer (due d now)
  unfolding due
  due-NamesDiffer now = rw configured.0 (
      kept-NamesDiffer (is_due d.next_due now) (commands_for set scope poll)
        (commands_for-NamesDiffer set scope poll))

  due-SlotsDiffer : (now : Time) → SlotsDiffer (due d now)
  unfolding due
  due-SlotsDiffer now = rw configured.0 (
      kept-SlotsDiffer (is_due d.next_due now) (commands_for set scope poll)
        (commands_for-SlotsDiffer set scope poll))

  collected :
      (now : Time) (w : W)
      → is_empty (due d now) ≡ false
      → collect_due r dec z d now w ≡ collect r dec z d (due d now) now w
  unfolding collect_due
  collected now w h = rw (ensured, h) refl

  -- A tick that finds commands due, on a switch as NewStore makes it, polls them: it lands, or it
  -- fails as a whole; and either way the time of last success moves exactly for the commands without
  -- an error, and the data of those with one stays, whatever its configuration.
  pub collect_due_outcome :
      (now : Time) (w : W)
      → is_empty (due d now) ≡ false
      → let specs = due d now in
        let after = (collect_due r dec z d now w).switch in
        (Landed specs now after ⊎ Failed specs d after)
        × ((c : CmdSpec) → Memᴰ c specs → TimeAccounts d now c after × KeepsFailed d c after)
  collect_due_outcome now w h =
      let specs = due d now in
      let names = due-NamesDiffer now in
      rw (collected now w h) (
        collect_outcome r dec z d specs now w names,
        λ c mem. (
          collect_times r dec z d specs now w names c mem,
          collect_keeps r dec z d specs now w names c (due-SlotsDiffer now) mem,
        ),
      )

  -- A tick that finds nothing due, on a switch as NewStore makes it, makes no request, logs nothing
  -- and changes nothing.
  pub collect_due_idle :
      (now : Time) (w : W)
      → is_empty (due d now) ≡ true
      → collect_due r dec z d now w ≡ record { switch = d; world = w; log = [] }
  unfolding collect_due
  collect_due_idle now w h = rw (ensured, h) refl

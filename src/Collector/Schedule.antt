-- ===== src/Collector/Schedule.antt =====
-- Which commands are due, and when each is due next: due, markDue, ensureScheduled and Schedule of
-- internal/collector/collector.go.
pub mod Laws
pub mod Issue
use arex.Prelude.{
  ℕ, ◌+◌, ◌-◌, ◌*◌, ◌%◌, not, ◌||◌, String, nonempty, str_eq, List, [], ◌∷◌, Bool, true, Option,
  none, some, ltb, keep, if◌then◌else◌,
}
use arex.Prelude.Int.{pos, pos_part, is_pos}
use arex.Prelude.Assoc.{Map, lookup, insert}
use arex.GoTime.{Time, Duration, since, second}
use arex.Collector.Commands.{CmdSpec, commands_for, command_names, all_collect_keys}
use arex.Collector.Data.{SwitchData, or_nil, intervals_of}

abbrev pub is_due : Map Time → Time → CmdSpec → Bool
is_due next_due now c = elim (lookup c.name next_due) [ none ↦ true | some at ↦ not (ltb now at) ]

-- The value markDue stores, from the interval, the time and the previous deadline.
unfoldable pub next_deadline : Duration → Time → Option Time → Time
next_deadline interval now none = if not (is_pos interval) then now else now + pos_part interval
next_deadline interval now (some previous) =
    if not (is_pos interval)
    then now
    else let next = previous + pos_part interval in
      if ltb now next
      then next
      else now + (pos_part interval - pos_part (since now next) % pos_part interval)

unfoldable pub mark_all : List CmdSpec → Time → Map Time → Map Time
mark_all [] now next_due = next_due
mark_all (c ∷ cs) now next_due =
    mark_all cs now (insert c.name (next_deadline c.interval now (lookup c.name next_due)) next_due)

abbrev pub direct_interval : Duration
direct_interval = pos (30 * second)

abbrev pub specs_or_direct : Option (List CmdSpec) → List CmdSpec
specs_or_direct none = commands_for (all_collect_keys direct_interval) "" direct_interval
specs_or_direct (some l) = l

pub record ModuleSchedule : Type 0 where
  pub module_name : String
  pub interval : Duration

unfoldable pub schedule_from : String → List CmdSpec → List ModuleSchedule
schedule_from last [] = []
schedule_from last (c ∷ cs) =
    let skip = not (nonempty c.module_name) || str_eq c.module_name last in
    let rest = schedule_from (if skip then last else c.module_name) cs in
    if skip then rest else record { module_name = c.module_name; interval = c.interval } ∷ rest

module _ {F : Type 0} where
  unfoldable pub due : SwitchData F → Time → List CmdSpec
  due d now = keep (is_due d.next_due now) (or_nil d.specs)

  unfoldable pub mark_due : SwitchData F → List CmdSpec → Time → SwitchData F
  mark_due d specs now = record d { next_due = mark_all specs now d.next_due }

  -- A direct construction has neither specs nor intervals.
  unfoldable pub ensure_specs : SwitchData F → SwitchData F
  ensure_specs d = elim d.specs [
    | none ↦
        let specs = specs_or_direct none in
        record d { specs = some specs; commands = command_names specs }
    | some specs ↦ d
  ]

  unfoldable pub ensure_scheduled : SwitchData F → SwitchData F
  ensure_scheduled d =
      let e = ensure_specs d in
      elim e.command_interval [
        | none ↦ record e { command_interval = some (intervals_of (or_nil e.specs) []) }
        | some m ↦ e
      ]

  unfoldable pub schedule : SwitchData F → List ModuleSchedule
  schedule d = schedule_from "" (or_nil d.specs)

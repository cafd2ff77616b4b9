-- ===== src/Collector/Schedule/Issue.antt =====
-- Issuing commands: due and markDue of internal/collector/collector.go on a SwitchData.
use arex.Prelude.{
  ℕ, ◌+◌, ◌-◌, ◌*◌, ◌≤◌, ◌<◌, ◌≡◌, refl, true, false, List, [], ◌∷◌, some, none, arith, ltb, str_eq,
  any, Memᴰ, keep, not,
}
use arex.Prelude.Int.{pos}
use arex.Prelude.Assoc.{Map, lookup}
use arex.GoTime.{Time, int64_half}
use arex.Collector.Commands.{CmdSpec}
use arex.Collector.Data.{SwitchData, or_nil}
use arex.Collector.Schedule.{is_due, due, mark_due}
use arex.Collector.Schedule.Laws.{
  NamesDiffer, phase_steps, next_deadline-some, next_deadline-none, mark_all_lem, lookup-mark_all,
}

keep_all :
    (next_due : Map Time) (now : Time) (specs : List CmdSpec)
    → next_due ≡ []
    → keep (is_due next_due now) specs ≡ specs
unfolding lookup
keep_all next_due now [] e = refl
keep_all next_due now (c ∷ cs) e = ground (arith, keep_all next_due now cs e)

module _ {F : Type 0} (d : SwitchData F) where
  -- With no deadline recorded, every command of the switch is due.
  pub due_at_start : (now : Time) → d.next_due ≡ [] → due d now ≡ or_nil d.specs
  unfolding due
  due_at_start now e = keep_all d.next_due now (or_nil d.specs) e

  module _ (specs : List CmdSpec) (now : Time) (c : CmdSpec) (i : ℕ) where
    -- A command that was due and is issued is not due again at or before now, is due one interval
    -- after now at the latest, and its deadline stays at a whole number of intervals from the
    -- deadline that it had. The specs have different names, the interval is positive, and the clock
    -- is less than 292 years past the old deadline.
    pub mark_due-is_due :
        (previous : Time)
        → NamesDiffer specs
        → Memᴰ c specs
        → c.interval ≡ pos i
        → 0 < i
        → lookup c.name d.next_due ≡ some previous
        → previous ≤ now
        → now - previous < int64_half
        → let after = (mark_due d specs now).next_due in
          ((t : Time) → t ≤ now → is_due after t c ≡ false)
          × ((t : Time) → now + i ≤ t → is_due after t c ≡ true)
          × (lookup c.name after ≡ some (previous + phase_steps i now previous * i))
    unfolding mark_due
    mark_due-is_due previous differ mem e p seen le small =
        let stored = mark_all_lem specs now d.next_due c differ mem in
        let bounds = next_deadline-some i now previous p le small in
        (
          λ t h. ground (arith, stored, bounds),
          λ t h. ground (arith, stored, bounds),
          ground (arith, stored, bounds),
        )

    -- A command issued for the first time is due again exactly from one interval later on. The specs
    -- have different names, and the interval is positive.
    pub mark_due_first :
        (t : Time)
        → NamesDiffer specs
        → Memᴰ c specs
        → c.interval ≡ pos i
        → 0 < i
        → lookup c.name d.next_due ≡ none
        → is_due (mark_due d specs now).next_due t c ≡ not (ltb t (now + i))
    unfolding mark_due
    mark_due_first t differ mem e p seen =
        ground (arith, mark_all_lem specs now d.next_due c differ mem, next_deadline-none i now p)

  -- A command that is not issued keeps its deadline.
  pub mark_due-unissued :
      (specs : List CmdSpec) (now t : Time) (c : CmdSpec)
      → any (λ e. str_eq e.name c.name) specs ≡ false
      → is_due (mark_due d specs now).next_due t c ≡ is_due d.next_due t c
  unfolding mark_due
  mark_due-unissued specs now t c h = ground (arith, lookup-mark_all c.name specs now d.next_due h)

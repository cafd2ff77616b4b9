-- ===== src/Collector/Tests/Schedules.antt =====
-- Schedules: the theorems on due, markDue and PollOffset at concrete values.
use arex.Prelude.{◌*◌, ◌≤◌, ◌<◌, ◌≡◌, refl, true, false, Memᴰ, some, arith}
use arex.Prelude.Int.{pos, pos_part}
use arex.Prelude.Assoc.{lookup}
use arex.GoTime.{Time, second}
use arex.Collector.Commands.{cmd_version}
use arex.Collector.Schedule.{is_due, mark_due}
use arex.Collector.Schedule.Issue.{mark_due-is_due}
use arex.Collector.Stagger.{poll_offset, poll_offset_order}
use arex.Collector.Fixtures.{two_specs, version_spec, running_switch}

mark_due-is_due_example :
    let after = (mark_due running_switch two_specs 200).next_due in
    ((t : Time) → t ≤ 200 → is_due after t version_spec ≡ false)
    × ((t : Time) → 230 ≤ t → is_due after t version_spec ≡ true)
    × (lookup cmd_version after ≡ some 220)
unfolding lookup running_switch
mark_due-is_due_example =
    mark_due-is_due running_switch two_specs 200 version_spec 30 130 (refl, (refl, tt))
      (Memᴰ.head refl) refl (omega arith) refl (omega arith) (omega arith)

poll_offset_order_example :
    let first = poll_offset (pos 1) (pos 3) (pos (30 * second)) 1999999999 in
    let later = poll_offset (pos 2) (pos 3) (pos (30 * second)) 0 in
    (pos_part first < pos_part later) × (pos_part later < 30 * second)
poll_offset_order_example =
    poll_offset_order 1 2 3 (30 * second) 1999999999 0 (omega arith) (omega arith) (omega arith)
      (omega arith) (omega arith) (omega arith)

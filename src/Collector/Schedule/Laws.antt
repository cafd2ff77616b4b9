-- ===== src/Collector/Schedule/Laws.antt =====
-- When a command is due: what markDue does to the deadline of each command, and what due makes of
-- it.
use arex.Prelude.{
  Memᴰ, any-Memᴰ, ◌∙◌, ℕ, suc, ◌+◌, ◌-◌, ◌*◌, ◌≤◌, ◌<◌, ◌≡◌, refl, false, String, List, [], ◌∷◌,
  none, some, arith, eq_iff, ltb, str_eq, any, Bool-cases, ◌/◌, ◌%◌, zero, inl, inr, if◌then◌else◌,
}
use arex.Prelude.Int.{pos}
use arex.Prelude.Assoc.{Map, lookup, insert, lookup-insert, lookup-insert_self}
use arex.GoTime.{Time, since-sub, int64_half}
use native.Mathlib.Nat.{mod-lt, div-add-mod}
use arex.Collector.Commands.{CmdSpec}
use arex.Collector.Schedule.{next_deadline, mark_all}

-- A first deadline is one interval off.
pub next_deadline-none : (i : ℕ) (now : Time) → 0 < i → next_deadline (pos i) now none ≡ now + i
unfolding next_deadline
next_deadline-none i now h = ground arith

-- How many intervals after the old deadline the new one stands.
abbrev pub phase_steps : ℕ → Time → Time → ℕ
phase_steps i now previous = if ltb now (previous + i) then 1 else (now - (previous + i)) / i + 2

-- A late wake-up: the deadline in the interval after now, at a multiple of the interval.
late_deadline :
    (i now next : ℕ)
    → 0 < i
    → next ≤ now
    → (now < now + (i - (now - next) % i))
      × (now + (i - (now - next) % i) ≤ now + i)
      × (now + (i - (now - next) % i) ≡ next + ((now - next) / i + 1) * i)
late_deadline i now next h le = (
  omega (arith, mod-lt (now - next) h),
  omega arith,
  grind (arith, mod-lt (now - next) h, div-add-mod (now - next) i),
)

-- A command that was scheduled is next due after now, within one interval, and in phase with the
-- deadline it had.
pub next_deadline-some :
    (i : ℕ) (now previous : Time)
    → 0 < i
    → previous ≤ now
    → now - previous < int64_half
    → let next = next_deadline (pos i) now (some previous) in
      (now < next) × (next ≤ now + i) × (next ≡ previous + phase_steps i now previous * i)
unfolding next_deadline
next_deadline-some (suc i) now previous h le small =
    elim (Bool-cases (ltb now (previous + suc i))) [
      | inl early ↦ rw early (ground arith)
      | inr late ↦
          let b : previous + suc i ≤ now = ground arith in
          let e = since-sub now (previous + suc i) b (omega arith) in
          rw (late, e) (omega (arith, late_deadline (suc i) now (previous + suc i) h b))
    ]
next_deadline-some zero now previous h le small = absurd (omega arith)

-- The issued commands are due again from their new deadline on, and no others move.
pub lookup-mark_all :
    (name : String) (specs : List CmdSpec) (now : Time) (m : Map Time)
    → any (λ c. str_eq c.name name) specs ≡ false
    → lookup name (mark_all specs now m) ≡ lookup name m
unfolding mark_all
lookup-mark_all name [] now m h = refl
lookup-mark_all name (c ∷ cs) now m h =
    let v = next_deadline c.interval now (lookup c.name m) in
    ground (arith, lookup-mark_all name cs now (insert c.name v m), lookup-insert c.name name v m)

-- No two specs of a list share a name.
abbrev pub NamesDiffer : List CmdSpec → Type 0
NamesDiffer [] = Unit
NamesDiffer (c ∷ cs) = (any (λ e. str_eq e.name c.name) cs ≡ false) × NamesDiffer cs

pub mark_all_lem :
    (specs : List CmdSpec) (now : Time) (m : Map Time) (c : CmdSpec)
    → NamesDiffer specs
    → Memᴰ c specs
    → lookup c.name (mark_all specs now m) ≡ some (next_deadline c.interval now (lookup c.name m))
unfolding mark_all
mark_all_lem [] now m c d t = elim t [ ]
mark_all_lem (x ∷ xs) now m c d (Memᴰ.head e) =
    let v = next_deadline x.interval now (lookup x.name m) in
    rw e (lookup-mark_all x.name xs now (insert x.name v m) d.0 ∙ lookup-insert_self x.name v m)
mark_all_lem (x ∷ xs) now m c d (Memᴰ.tail t) =
    let v = next_deadline x.interval now (lookup x.name m) in
    let apart = any-Memᴰ (λ e. str_eq e.name x.name) xs d.0 t in
    let ih = mark_all_lem xs now (insert x.name v m) c d.1 t in
    ground (
      arith,
      ih,
      apart,
      lookup-insert x.name c.name v m,
      eq_iff x.name c.name,
      eq_iff c.name x.name,
    )

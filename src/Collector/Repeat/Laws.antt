-- ===== src/Collector/Repeat/Laws.antt =====
-- How often an unchanging failure is reported: the repeatTracker of internal/collector/repeat.go.
use arex.Prelude.{
  ℕ, ◌+◌, ◌%◌, ◌≡◌, refl, true, false, String, str_eq, List, [], ◌∷◌, length, arith, eq_iff, ◌==◌,
  itoa, ◌+s◌, if◌then◌else◌, ltb, Bool-cases, inl, inr,
}
use arex.GoTime.{Time, since}
use arex.Collector.Repeat.{RepeatTracker, observe, rounded_text}

-- The tracker after one message at each of the times.
abbrev pub observe_all : String → List Time → RepeatTracker → RepeatTracker
observe_all msg [] r = r
observe_all msg (t ∷ ts) r = observe_all msg ts (observe r msg t).0

-- The tracker of a message seen n times since t0.
abbrev Tracks : String → Time → ℕ → RepeatTracker → Type 0
Tracks msg t0 n r =
    (r.last ≡ msg) × (r.count ≡ n + 1) × (r.since_time ≡ t0) × (r.since_last_report ≡ n % 10)

observe-Tracks :
    (r : RepeatTracker) (msg : String) (t0 t : Time) (n : ℕ)
    → Tracks msg t0 n r
    → Tracks msg t0 (n + 1) (observe r msg t).0
unfolding observe
observe-Tracks r msg t0 t n h = (
  ground (arith, eq_iff msg r.last),
  ground (arith, eq_iff msg r.last),
  ground (arith, eq_iff msg r.last),
  ground (arith, eq_iff msg r.last),
)

observe_all-Tracks :
    (msg : String) (t0 : Time) (ts : List Time) (r : RepeatTracker) (n : ℕ)
    → Tracks msg t0 n r
    → Tracks msg t0 (n + length ts) (observe_all msg ts r)
observe_all-Tracks msg t0 [] r n h = (h.0, omega (arith, h.1), h.2, omega (arith, h.3))
observe_all-Tracks msg t0 (t ∷ ts) r n h =
    let ih =
      observe_all-Tracks msg t0 ts (observe r msg t).0 (n + 1) (observe-Tracks r msg t0 t n h) in
    (ih.0, omega (arith, ih.1), ih.2, omega (arith, ih.3))

-- The line that a message gives that came n + 1 times before, since t0.
abbrev pub repeat_line : String → Time → ℕ → Time → String
repeat_line msg t0 n now =
    if (n + 1) % 10 == 0
    then msg
      +s " (still failing: "
      +s itoa (n + 2)
      +s " attempts over "
      +s rounded_text (since now t0)
      +s ")"
    else ""

line_of_Tracks :
    (r : RepeatTracker) (msg : String) (t0 now : Time) (n : ℕ)
    → Tracks msg t0 n r
    → (observe r msg now).1 ≡ repeat_line msg t0 n now
unfolding observe
line_of_Tracks r msg t0 now n h =
    let same : str_eq msg msg ≡ true = ground (arith, eq_iff msg msg) in
    let count : r.count + 1 ≡ n + 2 = omega (arith, h.1) in
    elim (Bool-cases ((n + 1) % 10 == 0)) [
      | inl tenth ↦
          let turn : ltb (r.since_last_report + 1) 10 ≡ false = ground (arith, h.3) in
          rw (h.0, same, turn, count, h.2, tenth) refl
      | inr other ↦
          let turn : ltb (r.since_last_report + 1) 10 ≡ true = ground (arith, h.3) in
          rw (h.0, same, turn, other) refl
    ]

first-Tracks :
    (r : RepeatTracker) (msg : String) (t0 : Time)
    → str_eq msg r.last ≡ false
    → Tracks msg t0 0 (observe r msg t0).0
unfolding observe
first-Tracks r msg t0 h = rw h (refl, refl, refl, refl)

-- A message that differs from the last one is reported as it is; and while it repeats, every tenth
-- repetition is reported, with the number of attempts and the time since the first one, and no
-- other is.
pub observe_repeats :
    (r : RepeatTracker) (msg : String) (t0 : Time) (ts : List Time) (now : Time)
    → str_eq msg r.last ≡ false
    → ((observe r msg t0).1 ≡ msg)
      × ((observe (observe_all msg ts (observe r msg t0).0) msg now).1
          ≡ repeat_line msg t0 (length ts) now)
unfolding observe
observe_repeats r msg t0 ts now h =
    let first = (observe r msg t0).0 in
    let tracked = observe_all-Tracks msg t0 ts first 0 (first-Tracks r msg t0 h) in
    (
      rw h refl,
      line_of_Tracks (observe_all msg ts first) msg t0 now (length ts)
          (tracked.0, omega (arith, tracked.1), tracked.2, omega (arith, tracked.3)),
    )

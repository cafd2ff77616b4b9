-- ===== src/Collector/Stagger.antt =====
-- PollOffset of internal/collector/collector.go: when each poller starts. `draw` is what
-- rand.Int64N(2 * jitter) returns, a number below 2 * jitter.
use arex.Prelude.{
  ℕ, zero, suc, ◌+◌, ◌-◌, ◌*◌, ◌/◌, ◌%◌, ◌≤◌, ◌<◌, ◌≡◌, refl, true, false, not, ◌||◌, arith, ltb,
  if◌then◌else◌, lt→ltb, Bool-cases, inl, inr,
}
use arex.Prelude.Int.{ℤ, pos, negsuc, pos_part, sub_ℕ, is_pos, leb_ℤ}
use arex.GoTime.{Duration, second, wrap64, add_duration, int64_half}
use native.Mathlib.Nat.{div-add-mod}

abbrev pub poll_spacing : ℕ
poll_spacing = 3 * second

-- The spacing of n pollers in an interval of nanoseconds.
abbrev pub spacing_of : ℕ → ℕ → ℕ
spacing_of n interval = if ltb (interval / n) poll_spacing then interval / n else poll_spacing

abbrev pub jitter_of : ℕ → ℕ → ℕ
jitter_of n interval = spacing_of n interval / 3

-- The last two tests: a negative offset is 0, one past the interval is reduced.
unfoldable pub into_interval : ℤ → ℕ → Duration
into_interval (negsuc k) interval = pos 0
into_interval (pos o) interval = if ltb o interval then pos o else pos (o % interval)

unfoldable pub poll_offset : ℤ → ℤ → Duration → ℕ → Duration
poll_offset i n interval draw =
    if not (is_pos i) || leb_ℤ n (pos 1) || not (is_pos interval)
    then pos 0
    else let spacing = spacing_of (pos_part n) (pos_part interval) in
      let offset = wrap64 (pos (pos_part i * spacing)) in
      let jitter = spacing / 3 in
      into_interval (if ltb 0 jitter then add_duration offset (sub_ℕ draw jitter) else offset)
        (pos_part interval)

spacing_fits : (n interval : ℕ) → n * spacing_of n interval ≤ interval
spacing_fits n interval =
    let quotient = div-add-mod interval n in
    elim (Bool-cases (ltb (interval / n) poll_spacing)) [
      | inl small ↦ rw small (omega (arith, quotient))
      | inr large ↦
          let least : poll_spacing ≤ interval / n = ground arith in
          rw large (grind (arith, quotient, least))
    ]

spaced : (i n interval : ℕ) → i < n → i * spacing_of n interval + spacing_of n interval ≤ interval
spaced i n interval h = grind (arith, spacing_fits n interval)

wrap64-pos : (a : ℕ) → a < int64_half → wrap64 (pos a) ≡ pos a
unfolding wrap64
wrap64-pos a h = ground arith

add_draw :
    (a draw j : ℕ)
    → j ≤ a
    → a + draw < int64_half
    → add_duration (pos a) (sub_ℕ draw j) ≡ pos (a + draw - j)
unfolding add_duration
add_draw a draw j h k = ground arith

-- Poller i of n starts within a third of the spacing round i spacings, and inside the interval.
pub poll_offset_lem :
    (i n interval draw : ℕ)
    → 0 < i
    → i < n
    → 0 < interval
    → interval < int64_half
    → draw < 2 * jitter_of n interval
    → poll_offset (pos i) (pos n) (pos interval) draw
      ≡ pos (i * spacing_of n interval + draw - jitter_of n interval)
unfolding poll_offset into_interval
poll_offset_lem i n interval draw h k p small d =
    let s = spacing_of n interval in
    let j = jitter_of n interval in
    let fits = spaced i n interval k in
    let first : s ≤ i * s = grind arith in
    let guard : (not (is_pos (pos i)) || leb_ℤ (pos n) (pos 1) || not (is_pos (pos interval)))
        ≡ false =
      ground arith in
    let drawn : ltb 0 j ≡ true = ground arith in
    let whole = add_draw (i * s) draw j (omega arith) (omega arith) in
    rw (
      guard,
      wrap64-pos (i * s) (omega arith),
      drawn,
      whole,
      lt→ltb (i * s + draw - j) interval (omega arith),
    )

later_rounds : (i j s : ℕ) → i < j → i * s + s ≤ j * s
later_rounds i j s h = grind arith

poll_offset_first :
    (n : ℤ) (interval : Duration) (draw : ℕ) → poll_offset (pos 0) n interval draw ≡ pos 0
unfolding poll_offset
poll_offset_first n interval draw = refl

-- Of two pollers of n the later one starts strictly later, whatever each draws, and inside the
-- interval. The interval is an int64, and each draw is below twice the jitter.
pub poll_offset_order :
    (i j n interval draw draw' : ℕ)
    → i < j
    → j < n
    → 0 < interval
    → interval < int64_half
    → draw < 2 * jitter_of n interval
    → draw' < 2 * jitter_of n interval
    → let first = poll_offset (pos i) (pos n) (pos interval) draw in
      let second = poll_offset (pos j) (pos n) (pos interval) draw' in
      (pos_part first < pos_part second) × (pos_part second < interval)
poll_offset_order zero j n interval draw draw' h k p small d d' =
    let s = spacing_of n interval in
    let fits = spaced j n interval k in
    let least : s ≤ j * s = grind arith in
    rw
      (
        poll_offset_first (pos n) (pos interval) draw,
        poll_offset_lem j n interval draw' h k p small d',
      )
      (omega arith)
poll_offset_order (suc i) j n interval draw draw' h k p small d d' =
    let s = spacing_of n interval in
    let fits = spaced j n interval k in
    let apart = later_rounds (suc i) j s h in
    rw
      (
        poll_offset_lem (suc i) n interval draw (omega arith) (omega arith) p small d,
        poll_offset_lem j n interval draw' (omega arith) k p small d',
      )
      (omega arith)

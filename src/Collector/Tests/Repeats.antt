-- ===== src/Collector/Tests/Repeats.antt =====
-- A failure that repeats, at concrete times.
use arex.Prelude.{◌≡◌, refl, ◌*◌, List, [], ◌∷◌, length}
use arex.GoTime.{Time, second}
use arex.Collector.Repeat.{new_tracker, observe}
use arex.Collector.Repeat.Laws.{observe_all, repeat_line, observe_repeats}

abbrev nine_times : List Time
nine_times = 30 ∷ 60 ∷ 90 ∷ 120 ∷ 150 ∷ 180 ∷ 210 ∷ 240 ∷ 270 ∷ []

observe_repeats_example :
    let first = (observe new_tracker "no route" 1).0 in
    ((observe new_tracker "no route" 1).1 ≡ "no route")
    × ((observe (observe_all "no route" nine_times first) "no route" (300 * second)).1
        ≡ repeat_line "no route" 1 (length nine_times) (300 * second))
observe_repeats_example = observe_repeats new_tracker "no route" 1 nine_times (300 * second) refl

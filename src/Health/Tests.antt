-- ===== src/Health/Tests.antt =====
-- The probes at concrete switches.
use arex.Prelude.{ℕ, ◌*◌, ◌≡◌, refl, ◌≢◌, ◌↔◌, true, List, [], ◌∷◌, Memᴰ, arith}
use arex.Prelude.Int.{pos}
use arex.GoTime.{second}
use arex.Eapi.Error.{plain}
use arex.Collector.Data.{SwitchData}
use arex.Collector.Poll.{worth_retrying_individually}
use arex.Collector.Loop.{Signal, tick, timer, poll_loop}
use arex.Collector.Loop.Laws.{Refuses}
use arex.Collector.Fixtures.{idle_decoder, unreachable, fresh_switch}
use arex.Health.{Checker, live}
use arex.Health.Laws.{IsProgressing, live_iff, refusing_fails_live}

abbrev half_minute : Checker
half_minute = record { interval = pos (30 * second); started = 1000 }

no_answer : Refuses unreachable
unfolding worth_retrying_individually
no_answer = record {
  error = λ cmds w. plain "no route";
  refuses = λ cmds w. refl;
  whole = λ cmds w. refl;
}

abbrev ten_minutes : List Signal
ten_minutes = timer ∷ tick (30 * second) ∷ tick (60 * second) ∷ tick (600 * second) ∷ []

abbrev polled : SwitchData ℕ
polled = (poll_loop unreachable idle_decoder 0 fresh_switch (pos 1) ten_minutes 0).switch

live_iff_example : (live half_minute (fresh_switch ∷ []) 2000 ≡ true) ↔ (
    (sw : SwitchData ℕ)
    → Memᴰ sw (fresh_switch ∷ [])
    → IsProgressing (10 * (30 * second)) 1000 2000 sw)
live_iff_example =
    live_iff half_minute (30 * second) 2000 (fresh_switch ∷ []) refl (omega arith) (omega arith)

refusing_fails_live_example : live half_minute (polled ∷ []) (601 * second) ≢ true
unfolding fresh_switch
refusing_fails_live_example =
    refusing_fails_live unreachable idle_decoder 0 no_answer fresh_switch (pos 1) ten_minutes 0
      (polled ∷ []) half_minute (30 * second) (601 * second) refl (Memᴰ.head refl) refl
      (omega arith) (omega arith) (omega arith)

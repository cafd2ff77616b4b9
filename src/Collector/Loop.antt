-- ===== src/Collector/Loop.antt =====
-- PollLoop of internal/collector/collector.go: what the loop does with the signals it selects.
pub mod Laws
use arex.Prelude.{List, [], ◌∷◌, ◌++◌, String, Bool, if◌then◌else◌}
use arex.Prelude.Int.{is_pos}
use arex.GoTime.{Time, Duration}
use arex.Collector.Output.{Decoder}
use arex.Collector.Data.{SwitchData}
use arex.Collector.Poll.{Runner, Polled, LogRecord}
use arex.Collector.Collect.{collect_due}

-- What a select receives: the offset's timer, a tick of the ticker with its time, the cancellation.
pub data Signal : Type 0 where
  timer : Signal
  tick : Time → Signal
  done : Signal

module _ {F W : Type 0} (r : Runner W) (dec : Decoder F) (z : F) where
  -- The log of a first part, before that of the rest.
  abbrev then_log : List LogRecord → Polled F W → Polled F W
  then_log log p = record p { log = log ++ p.log }

  -- The `for` loop. Where the signals end, the loop is still waiting.
  unfoldable pub run_ticks : SwitchData F → List Signal → W → Polled F W
  run_ticks d [] w = record { switch = d; world = w; log = [] }
  run_ticks d (done ∷ rest) w = record { switch = d; world = w; log = [] }
  run_ticks d (timer ∷ rest) w = run_ticks d rest w
  run_ticks d (tick now ∷ rest) w =
      let p = collect_due r dec z d now w in then_log p.log (run_ticks p.switch rest p.world)

  -- From the first poll on.
  unfoldable pub run_started : SwitchData F → List Signal → W → Polled F W
  run_started d signals w =
      let (w', now) = r.clock w in
      let p = collect_due r dec z d now w' in then_log p.log (run_ticks p.switch signals p.world)

  -- The select during the offset: only the timer and the cancellation can come.
  unfoldable pub await_offset : SwitchData F → List Signal → W → Polled F W
  await_offset d [] w = record { switch = d; world = w; log = [] }
  await_offset d (done ∷ rest) w = record { switch = d; world = w; log = [] }
  await_offset d (timer ∷ rest) w = run_started d rest w
  await_offset d (tick now ∷ rest) w = await_offset d rest w

  unfoldable pub poll_loop : SwitchData F → Duration → List Signal → W → Polled F W
  poll_loop d offset signals w =
      if is_pos offset then await_offset d signals w else run_started d signals w

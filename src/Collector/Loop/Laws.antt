-- ===== src/Collector/Loop/Laws.antt =====
-- Whole runs of PollLoop (internal/collector/collector.go) against a switch that refuses every
-- request.
use arex.Prelude.{
  ◌≡◌, refl, ◌∙◌, false, List, [], ◌∷◌, String, err, arith, Bool-cases, inl, inr, is_empty, map,
}
use arex.Prelude.Int.{is_pos}
use arex.GoTime.{Time, Duration}
use arex.Eapi.Error.{Err}
use arex.Collector.Output.{Decoder}
use arex.Collector.Data.{SwitchData}
use arex.Collector.Schedule.{ensure_specs, ensure_scheduled, due}
use arex.Collector.Poll.{Runner, worth_retrying_individually}
use arex.Collector.Collect.{collect_due}
use arex.Collector.Collect.Requests.{collect_refused}
use arex.Collector.Loop.{Signal, timer, tick, done, run_ticks, run_started, await_offset, poll_loop}

-- The switch answers no request, for a reason that is no command's own: it cannot be reached, or
-- refuses the credentials.
pub record Refuses {W : Type 0} (r : Runner W) : Type 0 where
  pub error : List String → W → Err
  pub refuses : (cmds : List String) (w : W) → r.run cmds w ≡ ((r.run cmds w).0, err (error cmds w))
  pub whole : (cmds : List String) (w : W) → worth_retrying_individually (error cmds w) ≡ false

ensure_scheduled_attempt :
    {F : Type 0} (d : SwitchData F) → (ensure_scheduled d).last_attempt ≡ d.last_attempt
unfolding ensure_scheduled ensure_specs
ensure_scheduled_attempt d = ground arith

module _ {F W : Type 0} (r : Runner W) (dec : Decoder F) (z : F) (no_answer : Refuses r) where
  collect_due_attempt :
      (d : SwitchData F) (now : Time) (w : W)
      → (collect_due r dec z d now w).switch.last_attempt ≡ d.last_attempt
  unfolding collect_due
  collect_due_attempt d now w =
      let e = ensure_scheduled d in
      let specs = due e now in
      let cmds = map (λ c. c.cli) specs in
      elim (Bool-cases (is_empty specs)) [
        | inl idle ↦ rw (idle, collect_due) (ensure_scheduled_attempt d)
        | inr busy ↦
            rw (busy, collect_due)
              ((collect_refused r dec z e specs now w _ (no_answer.error cmds w)
                  (no_answer.refuses cmds w) (no_answer.whole cmds w)).2
                ∙ ensure_scheduled_attempt d)
      ]

  run_ticks_attempt :
      (d : SwitchData F) (signals : List Signal) (w : W)
      → (run_ticks r dec z d signals w).switch.last_attempt ≡ d.last_attempt
  unfolding run_ticks
  run_ticks_attempt d [] w = refl
  run_ticks_attempt d (done ∷ rest) w = refl
  run_ticks_attempt d (timer ∷ rest) w = run_ticks_attempt d rest w
  run_ticks_attempt d (tick now ∷ rest) w =
      let p = collect_due r dec z d now w in
      run_ticks_attempt p.switch rest p.world ∙ collect_due_attempt d now w

  run_started_attempt :
      (d : SwitchData F) (signals : List Signal) (w : W)
      → (run_started r dec z d signals w).switch.last_attempt ≡ d.last_attempt
  unfolding run_started
  run_started_attempt d signals w =
      let (w', now) = r.clock w in
      let p = collect_due r dec z d now w' in
      run_ticks_attempt p.switch signals p.world ∙ collect_due_attempt d now w'

  await_offset_attempt :
      (d : SwitchData F) (signals : List Signal) (w : W)
      → (await_offset r dec z d signals w).switch.last_attempt ≡ d.last_attempt
  unfolding await_offset
  await_offset_attempt d [] w = refl
  await_offset_attempt d (done ∷ rest) w = refl
  await_offset_attempt d (timer ∷ rest) w = run_started_attempt d rest w
  await_offset_attempt d (tick now ∷ rest) w = await_offset_attempt d rest w

  -- However long the loop polls a switch that answers no request, the time of the last attempt
  -- stays what it was.
  pub poll_loop_attempt :
      (d : SwitchData F) (offset : Duration) (signals : List Signal) (w : W)
      → (poll_loop r dec z d offset signals w).switch.last_attempt ≡ d.last_attempt
  unfolding poll_loop
  poll_loop_attempt d offset signals w = elim (Bool-cases (is_pos offset)) [
    | inl later ↦ rw (later, poll_loop) (await_offset_attempt d signals w)
    | inr at_once ↦ rw (at_once, poll_loop) (run_started_attempt d signals w)
  ]

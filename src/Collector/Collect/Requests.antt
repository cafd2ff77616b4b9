-- ===== src/Collector/Collect/Requests.antt =====
-- How many requests a poll makes, and what a refused one leaves: collect and setError of
-- internal/collector/collector.go.
use arex.Prelude.{
  Bool, Option, ◌∙◌, ℕ, suc, ◌+◌, ◌≡◌, refl, ap, false, List, [], ◌∷◌, length, map, String, none,
  some, err, arith, Option-cases, Bool-cases, ℕ-cases, inl, inr, if◌then◌else◌,
}
use arex.Prelude.Assoc.{Map}
use arex.GoTime.{Time}
use arex.Eapi.Error.{Err}
use arex.Collector.Commands.{CmdSpec}
use arex.Collector.Output.{Decoder, zero_output}
use arex.Collector.Data.{SwitchData}
use arex.Collector.Schedule.{mark_due}
use arex.Collector.Poll.{
  Runner, Parsed, Fetched, worth_retrying_individually, run_batch, run_one, retry_each, note_error,
  batch_result, parse_each, count_true,
}
use arex.Collector.Collect.{
  set_error, mark_attempt, report_failures, commit, settle, collect, or_reason,
}

module _ {F W : Type 0} (r : Runner W) (dec : Decoder F) (z : F) (before : SwitchData F) where
  module _ (specs : List CmdSpec) (now : Time) (w w' : W) (e : Err) where
    -- A poll whose one request fails for a reason that is no command's own issues no other request,
    -- records that error for the whole, and leaves the time of the last attempt as it was.
    pub collect_refused :
        r.run (map (λ c. c.cli) specs) w ≡ (w', err e)
        → worth_retrying_individually e ≡ false
        → let p = collect r dec z before specs now w in
          (p.world ≡ (r.clock w').0)
          × (p.switch.scrape_err ≡ some e)
          × (p.switch.last_attempt ≡ before.last_attempt)
    unfolding collect run_batch batch_result set_error mark_due
    collect_refused h alone = rw (h, collect, alone) (ap (λ x. (r.clock x.0).0) h, refl, refl)

-- Whether the batch fails with an error that single commands may survive.
abbrev pub batch_is_retried : {W : Type 0} → Runner W → List CmdSpec → W → Bool
batch_is_retried r specs w = elim (run_batch r specs w).2 [
  | none ↦ false
  | some e ↦ worth_retrying_individually e
]

-- What a count of the requests is: a run adds one, and reading the clock adds none.
pub record Counts {W : Type 0} (r : Runner W) (count : W → ℕ) : Type 0 where
  pub run_counts : (cmds : List String) (w : W) → count (r.run cmds w).0 ≡ suc (count w)
  pub clock_counts : (w : W) → count (r.clock w).0 ≡ count w

module _ {W : Type 0} (r : Runner W) (count : W → ℕ) (law : Counts r count) where
  retry_each_requests :
      (specs : List CmdSpec) (errs : Map Err) (w : W)
      → count (retry_each r specs errs w).world ≡ count w + length specs
  unfolding retry_each run_one
  retry_each_requests [] errs w = omega arith
  retry_each_requests (c ∷ cs) errs w =
      let one = run_one r c.cli w in
      omega (
        arith,
        law.run_counts (c.cli ∷ []) w,
        retry_each_requests cs (note_error c.name one.1 errs) one.0,
      )

module _ {F W : Type 0} (r : Runner W) (count : W → ℕ) (law : Counts r count) where
  set_error_requests :
      (d : SwitchData F) (specs : List CmdSpec) (e : Err) (w : W)
      → count (set_error r d specs e w).world ≡ count w
  unfolding set_error
  set_error_requests d specs e w = law.clock_counts w

  commit_requests :
      (d : SwitchData F) (specs : List CmdSpec) (p : Parsed F) (now : Time) (w : W)
      → count (commit r d specs p now w).world ≡ count w
  unfolding commit report_failures
  commit_requests d specs p now w = ground (arith, law.clock_counts w)

  settle_requests :
      (dec : Decoder F) (z : F) (d : SwitchData F) (specs : List CmdSpec) (now : Time)
      (batch_err : Option Err) (fetched : Fetched W)
      → count (settle r dec z d specs now batch_err fetched).world ≡ count fetched.world
  unfolding settle mark_attempt
  settle_requests dec z d specs now batch_err fetched =
      let parsed = parse_each dec specs fetched.raws fetched.errs (zero_output z) in
      let (w', at) = r.clock fetched.world in
      let marked = record d { last_attempt = at } in
      elim (ℕ-cases (count_true parsed.oks)) [
        | inl e ↦
            rw (e, settle)
              (set_error_requests marked specs (or_reason batch_err) w'
                ∙ law.clock_counts fetched.world)
        | inr (n, e) ↦
            rw (e, settle)
              (commit_requests marked specs parsed now w' ∙ law.clock_counts fetched.world)
      ]

  module _ (dec : Decoder F) (z : F) (before : SwitchData F) (specs : List CmdSpec) (now : Time)
      (w : W) where
    -- A poll makes one request, and one more for each command exactly if the batch failed with an
    -- error that single commands may survive. A run counts one request, reading the clock none.
    pub collect_requests :
        count (collect r dec z before specs now w).world
        ≡ suc (count w) + (if batch_is_retried r specs w then length specs else 0)
    unfolding collect run_batch
    collect_requests = elim (Option-cases (run_batch r specs w).2) [
      | inl e ↦
          rw (e, collect, batch_is_retried)
            (settle_requests dec z (mark_due before specs now) specs now none _
              ∙ omega (arith, law.run_counts (map (λ c. c.cli) specs) w))
      | inr (x, e) ↦ elim (Bool-cases (worth_retrying_individually x)) [
        | inl worth ↦
            let w' = (run_batch r specs w).0 in
            rw (e, collect, batch_is_retried, worth)
              (omega (
                arith,
                settle_requests dec z (mark_due before specs now) specs now (some x)
                    (retry_each r specs [] w'),
                retry_each_requests r count law specs [] w',
                law.run_counts (map (λ c. c.cli) specs) w,
              ))
        | inr alone ↦
            rw (e, collect, batch_is_retried, alone)
              (omega (
                arith,
                set_error_requests (mark_due before specs now) specs x (run_batch r specs w).0,
                law.run_counts (map (λ c. c.cli) specs) w,
              ))
      ]
    ]

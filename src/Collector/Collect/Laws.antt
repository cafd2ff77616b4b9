-- ===== src/Collector/Collect/Laws.antt =====
-- What a poll leaves in a SwitchData, on each of its paths: collect of
-- internal/collector/collector.go, whatever the switch and the clock answer.
use arex.Prelude.{
  ℕ, suc, ◌≡◌, ◌∙◌, sym, ap, subst, ℕ-cases, inl, inr, List, [], length, Option, none, some,
  Bool-cases, Option-cases,
}
use arex.Prelude.Assoc.{Map}
use arex.GoTime.{Time}
use arex.Eapi.Error.{Err}
use arex.Collector.Commands.{CmdSpec}
use arex.Collector.Output.{Output, zero_output, Decoder}
use arex.Collector.Data.{SwitchData}
use arex.Collector.Schedule.{mark_due}
use arex.Collector.Schedule.Laws.{NamesDiffer}
use arex.Collector.Poll.{
  Runner, Fetched, worth_retrying_individually, run_batch, retry_each, parse_each, count_true,
}
use arex.Collector.Poll.Laws.{flags, parse_each-flags, length-retry_each, length-run_batch}
use arex.Collector.Collect.{set_error, mark_attempt, commit, settle, collect, or_reason}

module _ {F W : Type 0} (r : Runner W) (dec : Decoder F) (z : F) where
  settle_cases {ℓ} :
      (P : SwitchData F → Type ℓ) (d : SwitchData F) (specs : List CmdSpec) (now : Time)
      (batch_err : Option Err) (fetched : Fetched W)
      → NamesDiffer specs
      → length fetched.raws ≡ length specs
      → ((e : Err) (at : Time) (w' : W)
          → P (set_error r (record d { last_attempt = at }) specs e w').switch)
      → ((at : Time) (errs : Map Err) (snap : Output F) (n : ℕ) (w' : W)
          → count_true (flags specs errs) ≡ suc n
          → P
              (commit r
                (record d { last_attempt = at })
                specs
                (record { oks = flags specs errs; errs = errs; snap = snap })
                now
                w').switch)
      → P (settle r dec z d specs now batch_err fetched).switch
  unfolding settle mark_attempt
  settle_cases P d specs now batch_err fetched differ len failed landed =
      let parsed = parse_each dec specs fetched.raws fetched.errs (zero_output z) in
      let flagged =
        parse_each-flags dec specs fetched.raws fetched.errs (zero_output z) differ len in
      let (w', at) = r.clock fetched.world in
      elim (ℕ-cases (count_true parsed.oks)) [
        | inl e ↦ rw (e, settle) (failed (or_reason batch_err) at w')
        | inr (n, e) ↦
            rw (e, settle)
              (subst
                (λ f.
                  P
                    (commit r (record d { last_attempt = at }) specs
                      (record { oks = f; errs = parsed.errs; snap = parsed.snap }) now w').switch)
                (sym flagged)
                (landed at parsed.errs parsed.snap n w' (ap count_true (sym flagged) ∙ e)))
      ]

  -- A poll ends in one of two ways: it records an error for the whole poll, or it commits the
  -- flags of the errors that it found, one of them at least being set.
  pub collect_cases {ℓ} :
      (P : SwitchData F → Type ℓ) (before : SwitchData F) (specs : List CmdSpec) (now : Time)
      (w : W)
      → NamesDiffer specs
      → ((e : Err) (w' : W) → P (set_error r (mark_due before specs now) specs e w').switch)
      → ((e : Err) (at : Time) (w' : W)
          → P
              (set_error r
                (record (mark_due before specs now) { last_attempt = at })
                specs
                e
                w').switch)
      → ((at : Time) (errs : Map Err) (snap : Output F) (n : ℕ) (w' : W)
          → count_true (flags specs errs) ≡ suc n
          → P
              (commit r
                (record (mark_due before specs now) { last_attempt = at })
                specs
                (record { oks = flags specs errs; errs = errs; snap = snap })
                now
                w').switch)
      → P (collect r dec z before specs now w).switch
  unfolding collect
  collect_cases P before specs now w differ refused failed landed =
      let (w', raws, batch_err) = run_batch r specs w in
      let d = mark_due before specs now in
      elim (Option-cases (run_batch r specs w).2) [
        | inl e ↦
            rw (e, collect)
              (settle_cases P d specs now none (record { world = w'; raws = raws; errs = [] })
                differ (length-run_batch r specs w) failed landed)
        | inr (x, e) ↦ elim (Bool-cases (worth_retrying_individually x)) [
          | inl worth ↦
              rw (e, collect, worth)
                (settle_cases P d specs now (some x) (retry_each r specs [] w') differ
                  (length-retry_each r specs [] w') failed landed)
          | inr not_worth ↦ rw (e, collect, not_worth) (refused x w')
        ]
      ]

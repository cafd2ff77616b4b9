-- ===== src/Collector/Collect.antt =====
-- One poll of a switch, composed: collect, setError, markAttempt, Collect and CollectDue of
-- internal/collector/collector.go.
pub mod Apply
pub mod Laws
pub mod Outcome
pub mod Requests
pub mod Due
pub mod Order
use arex.Prelude.{
  zero, suc, String, ◌+s◌, nonempty, itoa, List, [], ◌∷◌, length, is_empty, Bool, true, false, not,
  Option, none, some, if◌then◌else◌,
}
use arex.Prelude.Assoc.{Map, insert}
use arex.GoTime.{Time}
use arex.Eapi.Error.{Err, plain, error_text}
use arex.Collector.Commands.{CmdSpec}
use arex.Collector.Repeat.{RepeatTracker, observe, recovered}
use arex.Collector.Output.{Output, zero_output, Decoder, apply}
use arex.Collector.Data.{SwitchData, or_nil}
use arex.Collector.Schedule.{ensure_scheduled, due, mark_due}
use arex.Collector.Poll.{
  Runner, LogRecord, commands_failed, switch_recovered, collection_failed, Polled, Fetched, Parsed,
  worth_retrying_individually, run_batch, retry_each, parse_each, count_true, describe_cmd_errors,
  merge_errors, fail_all,
}

abbrev pub line_if : String → LogRecord → List LogRecord
line_if line rec = if nonempty line then rec ∷ [] else []

abbrev pub or_reason : Option Err → Err
or_reason none = plain "no command returned usable output"
or_reason (some e) = e

module _ {F : Type 0} where
  -- The flags, the specs they belong to, and what an ok command changes.
  unfoldable pub apply_each :
      List CmdSpec → List Bool → Output F → Time → Output F → Map Time → Output F × Map Time
  apply_each (c ∷ cs) (true ∷ oks) snap done out last =
      apply_each cs oks snap done (apply c.slot snap out) (insert c.name done last)
  apply_each (c ∷ cs) (false ∷ oks) snap done out last = apply_each cs oks snap done out last
  apply_each _ _ snap done out last = (out, last)

module _ {F W : Type 0} (r : Runner W) where
  unfoldable pub set_error : SwitchData F → List CmdSpec → Err → W → Polled F W
  set_error d specs e w =
      let (w', now) = r.clock w in
      let (tracker, line) = observe d.tracker (error_text e) now in
      record {
        switch = record d {
          scrape_err = some e;
          command_errors = some (fail_all specs e []);
          tracker = tracker;
        };
        world = w';
        log = line_if line (collection_failed d.label line);
      }

  unfoldable pub mark_attempt : SwitchData F → W → W × SwitchData F
  mark_attempt d w = let (w', now) = r.clock w in (w', record d { last_attempt = now })

  -- The tracker's part of a poll in which something was collected.
  unfoldable pub report_failures :
      SwitchData F → List CmdSpec → Map Err → W → W × RepeatTracker × List LogRecord
  report_failures d specs errs w =
      let (w', now) = r.clock w in
      if not (is_empty errs)
      then (let summary =
            itoa (length errs)
            +s " of "
            +s itoa (length specs)
            +s " commands failed: "
            +s describe_cmd_errors specs errs in
          let (tracker, line) = observe d.tracker summary now in
          (w', tracker, line_if line (commands_failed d.label line)))
      else (let (tracker, line) = recovered d.tracker now in
          (w', tracker, line_if line (switch_recovered d.label line)))

  -- The last locked section: the data, the errors and the times of a poll with a result.
  unfoldable pub commit : SwitchData F → List CmdSpec → Parsed F → Time → W → Polled F W
  commit d specs parsed now w =
      let (w', tracker, log) = report_failures d specs parsed.errs w in
      let (out, last) =
        apply_each specs parsed.oks parsed.snap now d.output d.command_last_success in
      record {
        switch = record d {
          output = out;
          command_last_success = last;
          command_errors = some (merge_errors specs (or_nil d.command_errors) parsed.errs);
          scrape_err = none;
          last_success = now;
          tracker = tracker;
        };
        world = w';
        log = log;
      }

  -- From the raw results on: parse, mark the attempt, and commit or record the failure.
  unfoldable pub settle :
      Decoder F → F → SwitchData F → List CmdSpec → Time → Option Err → Fetched W → Polled F W
  settle dec z d specs now batch_err fetched =
      let parsed = parse_each dec specs fetched.raws fetched.errs (zero_output z) in
      let (w', marked) = mark_attempt d fetched.world in
      elim (count_true parsed.oks) [
        | zero ↦ set_error marked specs (or_reason batch_err) w'
        | suc n ↦ commit marked specs parsed now w'
      ]

  unfoldable pub collect : Decoder F → F → SwitchData F → List CmdSpec → Time → W → Polled F W
  collect dec z before specs now w =
      let d = mark_due before specs now in
      let (w', raws, batch_err) = run_batch r specs w in
      elim batch_err [
        | none ↦ settle dec z d specs now none (record { world = w'; raws = raws; errs = [] })
        | some e ↦
            if not (worth_retrying_individually e)
            then set_error d specs e w'
            else settle dec z d specs now (some e) (retry_each r specs [] w')
      ]

  -- A poll that is forced: every command, whatever its interval.
  unfoldable pub collect_all : Decoder F → F → SwitchData F → W → Polled F W
  collect_all dec z before w =
      let d = ensure_scheduled before in
      let (w', now) = r.clock w in collect dec z d (or_nil d.specs) now w'

  unfoldable pub collect_due : Decoder F → F → SwitchData F → Time → W → Polled F W
  collect_due dec z before now w =
      let d = ensure_scheduled before in
      let specs = due d now in
      if is_empty specs
      then record { switch = d; world = w; log = [] }
      else collect dec z d specs now w

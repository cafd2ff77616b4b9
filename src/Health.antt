-- ===== src/Health.antt =====
-- internal/health/health.go: liveness, readiness and the status report. `now` and `started` are
-- read from the clock by the source, and are arguments here. `switches` is what Store.All gives.
pub mod Laws
mod Tests
use arex.Prelude.{
  ◌&&◌, Bool, true, false, not, String, List, [], ◌∷◌, map, Option, none, some, is_some,
  if◌then◌else◌,
}
use arex.Prelude.Int.{ltb_ℤ, pos}
use arex.Prelude.Assoc.{Map}
use arex.GoTime.{Time, Duration, times, since, is_zero_time}
use arex.Eapi.Error.{Err, error_text}
use arex.Collector.Data.{SwitchData, or_nil}

pub record Checker : Type 0 where
  pub interval : Duration
  pub started : Time

unfoldable pub max_progress_age : Checker → Duration
max_progress_age c = times 10 c.interval

pub record SwitchReport : Type 0 where
  pub switch : String
  pub scrape_ok : Bool
  pub error : String
  pub last_success_at : Time
  pub last_attempt_at : Time
  pub age : Duration
  pub stale : Bool
  pub commands : List String
  pub failed_commands : Map String

pub record Report : Type 0 where
  pub live : Bool
  pub ready : Bool
  pub uptime : Duration
  pub switches : List SwitchReport

abbrev pub text_or_empty : Option Err → String
text_or_empty none = ""
text_or_empty (some e) = error_text e

module _ {F : Type 0} where
  -- The loop of Live over the switches.
  unfoldable pub all_progressing : Time → Duration → Bool → List (SwitchData F) → Bool
  all_progressing now window young [] = true
  all_progressing now window young (sw ∷ rest) =
      let others = all_progressing now window young rest in
      if is_zero_time sw.last_attempt
      then (if young then others else false)
      else (if ltb_ℤ window (since now sw.last_attempt) then false else others)

  unfoldable pub live : Checker → List (SwitchData F) → Time → Bool
  live c switches now =
      let window = max_progress_age c in
      all_progressing now window (ltb_ℤ (since now c.started) window) switches

  unfoldable pub ready : List (SwitchData F) → Bool
  ready [] = true
  ready (sw ∷ rest) = not (is_zero_time sw.last_attempt) && ready rest

  unfoldable pub switch_report : Duration → Time → SwitchData F → SwitchReport
  switch_report staleness_limit now sw =
      let collected = not (is_zero_time sw.last_success) in
      let age = since now sw.last_success in
      record {
        switch = sw.label;
        scrape_ok = collected && not (is_some sw.scrape_err);
        error = text_or_empty sw.scrape_err;
        last_success_at = sw.last_success;
        last_attempt_at = sw.last_attempt;
        age = if collected then age else pos 0;
        stale = if collected then ltb_ℤ staleness_limit age else false;
        commands = sw.commands;
        failed_commands = map (λ e. (e.0, error_text e.1)) (or_nil sw.command_errors);
      }

  -- The clock is read once for the report, and once more by Live.
  unfoldable pub report : Checker → List (SwitchData F) → Duration → Time → Time → Report
  report c switches staleness_limit now now_live = record {
    live = live c switches now_live;
    ready = ready switches;
    uptime = since now c.started;
    switches = map (switch_report staleness_limit now) switches;
  }

-- ===== src/Collector/Tests/Polls.antt =====
-- Polls: the theorems on collect at concrete switches.
use arex.Prelude.{◌≡◌, refl, ◌⊎◌, Memᴰ}
use arex.Collector.Schedule.Laws.{NamesDiffer}
use arex.Collector.Poll.{run_batch, batch_result, worth_retrying_individually}
use arex.Collector.Collect.{collect}
use arex.Collector.Collect.Apply.{SlotsDiffer}
use arex.Collector.Collect.Outcome.{
  Landed, Failed, TimeAccounts, KeepsFailed, collect_outcome, collect_times, collect_keeps,
}
use arex.Collector.Collect.Requests.{Counts, collect_requests}
use arex.Collector.Fixtures.{
  two_specs, phy_spec, idle_decoder, picky, unreachable, fresh_switch, running_switch,
}

two_names : NamesDiffer two_specs
two_names = (refl, (refl, tt))

two_slots : SlotsDiffer two_specs
two_slots = (refl, (refl, tt))

collect_outcome_example :
    let after = (collect picky idle_decoder 0 fresh_switch two_specs 100 0).switch in
    Landed two_specs 100 after ⊎ Failed two_specs fresh_switch after
collect_outcome_example =
    collect_outcome picky idle_decoder 0 fresh_switch two_specs 100 0 two_names

collect_times_example :
    TimeAccounts fresh_switch 100 phy_spec
      (collect picky idle_decoder 0 fresh_switch two_specs 100 0).switch
collect_times_example =
    collect_times picky idle_decoder 0 fresh_switch two_specs 100 0 two_names phy_spec
      (Memᴰ.tail (Memᴰ.head refl))

collect_keeps_example :
    KeepsFailed running_switch phy_spec
      (collect unreachable idle_decoder 0 running_switch two_specs 1000 7).switch
collect_keeps_example =
    collect_keeps unreachable idle_decoder 0 running_switch two_specs 1000 7 two_names phy_spec
      two_slots (Memᴰ.tail (Memᴰ.head refl))

requests-Counts : Counts picky (λ w. w)
requests-Counts = record { run_counts = λ cmds w. refl; clock_counts = λ w. refl }

collect_requests_example : (collect picky idle_decoder 0 fresh_switch two_specs 100 4).world ≡ 7
unfolding run_batch batch_result worth_retrying_individually
collect_requests_example =
    collect_requests picky (λ w. w) requests-Counts idle_decoder 0 fresh_switch two_specs 100 4

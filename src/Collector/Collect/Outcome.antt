-- ===== src/Collector/Collect/Outcome.antt =====
-- What a poll promises of a SwitchData: collect and setError of internal/collector/collector.go,
-- whatever the switch and the clock answer.
use arex.Prelude.{
  ℕ, suc, ◌≡◌, refl, Bool, true, not, ◌⊎◌, inl, inr, List, [], ◌∷◌, any, String, Memᴰ, Option, none,
  some, arith, if◌then◌else◌, is_some,
}
use arex.Prelude.Assoc.{Map, lookup, has}
use arex.GoTime.{Time}
use arex.Eapi.Error.{Err}
use arex.Collector.Commands.{CmdSpec}
use arex.Collector.Output.{Output, Decoder}
use arex.Collector.Output.Laws.{document}
use arex.Collector.Data.{SwitchData, or_nil}
use arex.Collector.Schedule.{mark_due}
use arex.Collector.Schedule.Laws.{NamesDiffer}
use arex.Collector.Poll.{Runner, Parsed, merge_errors, count_true}
use arex.Collector.Poll.Laws.{
  names, flags, lookup-fail_all, lookup-merge_errors, names_of_Memᴰ, count_true-flags,
}
use arex.Collector.Collect.{set_error, commit, collect}
use arex.Collector.Collect.Apply.{SlotsDiffer, apply_each_time, document-apply_each}
use arex.Collector.Collect.Laws.{collect_cases}

-- The error recorded against a command.
abbrev pub error_of : {F : Type 0} → String → SwitchData F → Option Err
error_of n d = lookup n (or_nil d.command_errors)

abbrev pub has_failed : {F : Type 0} → SwitchData F → CmdSpec → Bool
has_failed d c = is_some (error_of c.name d)

-- The command's time moved exactly if it has no error.
abbrev pub TimeAccounts : {F : Type 0} → SwitchData F → Time → CmdSpec → SwitchData F → Type 0
TimeAccounts before now c after =
    lookup c.name after.command_last_success
    ≡ (if has_failed after c then lookup c.name before.command_last_success else some now)

-- The command's data is what it was, if the command has an error.
abbrev pub KeepsFailed : {F : Type 0} → SwitchData F → CmdSpec → SwitchData F → Type 0
KeepsFailed before c after =
    has_failed after c ≡ true → document c.slot after.output ≡ document c.slot before.output

-- Something was collected now, and no error stands for the whole.
abbrev pub Landed : {F : Type 0} → List CmdSpec → Time → SwitchData F → Type 0
Landed specs now after =
    (after.scrape_err ≡ none)
    × (after.last_success ≡ now)
    × (any (λ c. not (has_failed after c)) specs ≡ true)

-- Nothing was collected: an error stands for the whole and for each command, and no data moved.
abbrev pub Failed : {F : Type 0} → List CmdSpec → SwitchData F → SwitchData F → Type 0
Failed specs before after =
    (is_some after.scrape_err ≡ true)
    × (after.last_success ≡ before.last_success)
    × (after.command_last_success ≡ before.command_last_success)
    × (after.output ≡ before.output)
    × ((c : CmdSpec) → Memᴰ c specs → error_of c.name after ≡ after.scrape_err)

abbrev found : {F : Type 0} → List CmdSpec → Map Err → Output F → Parsed F
found specs errs snap = record { oks = flags specs errs; errs = errs; snap = snap }

any_error_free :
    (errs old : Map Err) (all_specs specs : List CmdSpec)
    → ((c : CmdSpec) → Memᴰ c specs → names c.name all_specs ≡ true)
    → any (λ c. not (has c.name errs)) specs ≡ true
    → any (λ c. not (has c.name (merge_errors all_specs old errs))) specs ≡ true
any_error_free errs old all_specs [] inside h = h
any_error_free errs old all_specs (c ∷ cs) inside h =
    rw (lookup-merge_errors c.name all_specs old errs (inside c (Memᴰ.head refl)))
      (ground (arith, any_error_free errs old all_specs cs (λ x m. inside x (Memᴰ.tail m))))

module _ {F W : Type 0} (r : Runner W) where
  fails_all :
      (d : SwitchData F) (specs : List CmdSpec) (e : Err) (w : W) (c : CmdSpec)
      → Memᴰ c specs
      → error_of c.name (set_error r d specs e w).switch ≡ some e
  unfolding set_error
  fails_all d specs e w c mem =
      ground (arith, lookup-fail_all c.name specs e [], names_of_Memᴰ c specs mem)

  set_error_times :
      (d : SwitchData F) (specs : List CmdSpec) (now : Time) (e : Err) (w : W) (c : CmdSpec)
      → Memᴰ c specs
      → TimeAccounts d now c (set_error r d specs e w).switch
  unfolding set_error
  set_error_times d specs now e w c mem = rw (fails_all d specs e w c mem)

  commit_errors :
      (d : SwitchData F) (specs : List CmdSpec) (errs : Map Err) (snap : Output F) (now : Time)
      (w : W) (c : CmdSpec)
      → Memᴰ c specs
      → let p = found specs errs snap in
        error_of c.name (commit r d specs p now w).switch ≡ lookup c.name errs
  unfolding commit
  commit_errors d specs errs snap now w c mem =
      lookup-merge_errors c.name specs (or_nil d.command_errors) errs (names_of_Memᴰ c specs mem)

  commit_times :
      (d : SwitchData F) (specs : List CmdSpec) (errs : Map Err) (snap : Output F) (now : Time)
      (w : W) (c : CmdSpec)
      → NamesDiffer specs
      → Memᴰ c specs
      → let p = found specs errs snap in TimeAccounts d now c (commit r d specs p now w).switch
  unfolding commit
  commit_times d specs errs snap now w c differ mem =
      rw
        (lookup-merge_errors c.name specs (or_nil d.command_errors) errs
          (names_of_Memᴰ c specs mem))
        (apply_each_time errs snap now specs c d.output d.command_last_success differ mem)

  commit_keeps :
      (d : SwitchData F) (specs : List CmdSpec) (errs : Map Err) (snap : Output F) (now : Time)
      (w : W) (c : CmdSpec)
      → SlotsDiffer specs
      → Memᴰ c specs
      → let p = found specs errs snap in KeepsFailed d c (commit r d specs p now w).switch
  unfolding commit
  commit_keeps d specs errs snap now w c differ mem bad = ground (
    arith,
    lookup-merge_errors c.name specs (or_nil d.command_errors) errs (names_of_Memᴰ c specs mem),
    document-apply_each errs snap now specs c d.output d.command_last_success differ mem,
  )

  set_error-Failed :
      (before d : SwitchData F) (specs : List CmdSpec) (e : Err) (w : W)
      → d.last_success ≡ before.last_success
      → d.command_last_success ≡ before.command_last_success
      → d.output ≡ before.output
      → Failed specs before (set_error r d specs e w).switch
  unfolding set_error
  set_error-Failed before d specs e w p q o = (refl, p, q, o, λ c mem. fails_all d specs e w c mem)

  commit-Landed :
      (d : SwitchData F) (specs : List CmdSpec) (errs : Map Err) (snap : Output F) (now : Time)
      (w : W) (n : ℕ)
      → count_true (flags specs errs) ≡ suc n
      → let p = found specs errs snap in Landed specs now (commit r d specs p now w).switch
  unfolding commit
  commit-Landed d specs errs snap now w n e = (
    refl,
    refl,
    any_error_free errs (or_nil d.command_errors) specs specs (λ c m. names_of_Memᴰ c specs m)
        (count_true-flags specs errs n e),
  )

module _ {F W : Type 0} (r : Runner W) (dec : Decoder F) (z : F) (before : SwitchData F) where
  module _ (specs : List CmdSpec) (now : Time) (w : W) (differ : NamesDiffer specs) where
    -- After a poll, a polled command's time of last success is the poll's time if no error stands
    -- against the command, and what it was if one does. The specs have different names.
    pub collect_times :
        (c : CmdSpec)
        → Memᴰ c specs
        → TimeAccounts before now c (collect r dec z before specs now w).switch
    unfolding mark_due
    collect_times c mem =
        collect_cases r dec z (TimeAccounts before now c) before specs now w differ
          (λ e w'. set_error_times r (mark_due before specs now) specs now e w' c mem)
          (λ e at w'.
            set_error_times r (record (mark_due before specs now) { last_attempt = at }) specs now e
              w' c mem)
          (λ at errs snap n w' e.
            commit_times r (record (mark_due before specs now) { last_attempt = at }) specs errs
              snap now w' c differ mem)

    -- After a poll, the data of a polled command that has an error is what it was. The specs have
    -- different names and write different fields.
    pub collect_keeps :
        (c : CmdSpec)
        → SlotsDiffer specs
        → Memᴰ c specs
        → KeepsFailed before c (collect r dec z before specs now w).switch
    unfolding mark_due set_error
    collect_keeps c apart mem =
        collect_cases r dec z (KeepsFailed before c) before specs now w differ (λ e w' bad. refl)
          (λ e at w' bad. refl)
          (λ at errs snap n w' e.
            commit_keeps r (record (mark_due before specs now) { last_attempt = at }) specs errs
              snap now w' c apart mem)

    -- A poll either lands, and then some polled command has no error, or fails as a whole, and then
    -- every polled command has the error of the whole and no data, no time of success has moved.
    -- The specs have different names.
    pub collect_outcome :
        let after = (collect r dec z before specs now w).switch in
        Landed specs now after ⊎ Failed specs before after
    unfolding mark_due
    collect_outcome =
        collect_cases r dec z (λ after. Landed specs now after ⊎ Failed specs before after) before
          specs now w differ
          (λ e w'.
            inr (set_error-Failed r before (mark_due before specs now) specs e w' refl refl refl))
          (λ e at w'. inr (
            set_error-Failed r before (record (mark_due before specs now) { last_attempt = at })
              specs e w' refl refl refl))
          (λ at errs snap n w' e. inl (
            commit-Landed r (record (mark_due before specs now) { last_attempt = at }) specs errs
              snap now w' n e))

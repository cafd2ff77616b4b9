-- ===== src/Collector/Collect/Order.antt =====
-- No command succeeded later than its switch: what collect of internal/collector/collector.go keeps
-- of the times of a SwitchData.
use native.Mathlib.Nat.{le_trans}
use arex.Prelude.{◌≤◌, ◌≡◌, Bool, true, false, String, List, [], ◌∷◌, some, arith}
use arex.Prelude.Assoc.{Map, lookup, insert, lookup-insert}
use arex.GoTime.{Time}
use arex.Collector.Commands.{CmdSpec}
use arex.Collector.Output.{Output, Decoder, apply}
use arex.Collector.Data.{SwitchData, new_switch_data_from_specs}
use arex.Collector.Schedule.{mark_due}
use arex.Collector.Schedule.Laws.{NamesDiffer}
use arex.Collector.Poll.{Runner}
use arex.Collector.Collect.{apply_each, commit, set_error, collect}
use arex.Collector.Collect.Laws.{collect_cases}

abbrev pub NoneAfter : Map Time → Time → Type 0
NoneAfter last done = (cli : String) (t : Time) → lookup cli last ≡ some t → t ≤ done

abbrev pub LastOrdered : {F : Type 0} → SwitchData F → Type 0
LastOrdered sw = NoneAfter sw.command_last_success sw.last_success

pub new_switch_data-LastOrdered :
    {F : Type 0} (z : F) (label fabric : String) (specs : List CmdSpec)
    → LastOrdered (new_switch_data_from_specs z label fabric specs)
unfolding new_switch_data_from_specs lookup
new_switch_data-LastOrdered z label fabric specs cli t e = ground arith

insert-NoneAfter :
    (name : String) (last : Map Time) (done : Time)
    → NoneAfter last done
    → NoneAfter (insert name done last) done
insert-NoneAfter name last done p cli t e =
    ground (arith, p cli t, lookup-insert name cli done last)

apply_each-NoneAfter :
    {F : Type 0} (specs : List CmdSpec) (oks : List Bool) (snap : Output F) (done : Time)
    (out : Output F) (last : Map Time)
    → NoneAfter last done
    → NoneAfter (apply_each specs oks snap done out last).1 done
unfolding apply_each
apply_each-NoneAfter [] oks snap done out last p = p
apply_each-NoneAfter (c ∷ cs) [] snap done out last p = p
apply_each-NoneAfter (c ∷ cs) (true ∷ oks) snap done out last p =
    apply_each-NoneAfter cs oks snap done (apply c.slot snap out) (insert c.name done last)
      (insert-NoneAfter c.name last done p)
apply_each-NoneAfter (c ∷ cs) (false ∷ oks) snap done out last p =
    apply_each-NoneAfter cs oks snap done out last p

module _ {F W : Type 0} (r : Runner W) (dec : Decoder F) (z : F) where
  -- A poll keeps the order of the times, on every path, provided that the commands' names differ and
  -- the clock has not gone back behind the last success: no command's last success is after the
  -- switch's.
  pub collect-LastOrdered :
      (before : SwitchData F) (specs : List CmdSpec) (now : Time) (w : W)
      → NamesDiffer specs
      → before.last_success ≤ now
      → LastOrdered before
      → LastOrdered (collect r dec z before specs now w).switch
  unfolding set_error mark_due commit
  collect-LastOrdered before specs now w differ later ordered =
      collect_cases r dec z LastOrdered before specs now w differ (λ e w'. ordered)
        (λ e at w'. ordered)
        (λ at errs snap n w' some_ok.
          apply_each-NoneAfter specs _ snap now before.output before.command_last_success
            λ cli t e. le_trans (ordered cli t e) later)

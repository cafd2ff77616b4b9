-- ===== src/Collector/Collect/Apply.antt =====
-- What applying a snapshot moves: the last loop of collect in internal/collector/collector.go, the
-- times and the outputs apart.
use arex.Prelude.{
  ◌≡◌, refl, ◌∙◌, Bool, false, String, str_eq, List, [], ◌∷◌, any, any-Memᴰ, Memᴰ, some, arith,
  eq_iff, if◌then◌else◌, Bool-cases, inl, inr,
}
use arex.Prelude.Assoc.{Map, lookup, insert, has, lookup-insert, lookup-insert_self}
use arex.GoTime.{Time}
use arex.Eapi.Error.{Err}
use arex.Collector.Commands.{Slot, CmdSpec}
use arex.Collector.Output.{Output, apply}
use arex.Collector.Output.Laws.{slot_eq, document, document-apply}
use arex.Collector.Schedule.Laws.{NamesDiffer}
use arex.Collector.Poll.Laws.{names, flags}
use arex.Collector.Collect.{apply_each}

abbrev pub slots : Slot → List CmdSpec → Bool
slots t specs = any (λ c. slot_eq c.slot t) specs

-- No two specs of a list write one field.
abbrev pub SlotsDiffer : List CmdSpec → Type 0
SlotsDiffer [] = Unit
SlotsDiffer (c ∷ cs) = (slots c.slot cs ≡ false) × SlotsDiffer cs

module _ {F : Type 0} (errs : Map Err) (snap : Output F) (done : Time) where
  -- A name that is not polled keeps its time.
  pub apply_each-unpolled :
      (n : String) (specs : List CmdSpec) (out : Output F) (last : Map Time)
      → names n specs ≡ false
      → lookup n (apply_each specs (flags specs errs) snap done out last).1 ≡ lookup n last
  unfolding apply_each flags
  apply_each-unpolled n [] out last h = refl
  apply_each-unpolled n (c ∷ cs) out last h = elim (Bool-cases (has c.name errs)) [
    | inl bad ↦ rw (bad, apply_each) (apply_each-unpolled n cs out last (ground arith))
    | inr good ↦
        rw (good, apply_each)
          (apply_each-unpolled n cs (apply c.slot snap out) (insert c.name done last) (ground arith)
            ∙ ground (arith, lookup-insert c.name n done last))
  ]

  kept_time :
      (x c : CmdSpec) (last : Map Time)
      → str_eq c.name x.name ≡ false
      → (if has c.name errs then lookup c.name (insert x.name done last) else some done)
        ≡ (if has c.name errs then lookup c.name last else some done)
  kept_time x c last apart =
      ground
        (arith, lookup-insert x.name c.name done last, eq_iff c.name x.name, eq_iff x.name c.name)

  pub apply_each_time :
      (specs : List CmdSpec) (c : CmdSpec) (out : Output F) (last : Map Time)
      → NamesDiffer specs
      → Memᴰ c specs
      → lookup c.name (apply_each specs (flags specs errs) snap done out last).1
        ≡ (if has c.name errs then lookup c.name last else some done)
  unfolding apply_each flags
  apply_each_time [] c out last differ mem = elim mem [ ]
  apply_each_time (x ∷ xs) c out last differ (Memᴰ.head e) =
      rw e (elim (Bool-cases (has x.name errs)) [
        | inl bad ↦ rw (bad, apply_each) (apply_each-unpolled x.name xs out last differ.0)
        | inr good ↦
            rw (good, apply_each)
              (apply_each-unpolled x.name xs (apply x.slot snap out) (insert x.name done last)
                  differ.0
                ∙ lookup-insert_self x.name done last)
      ])
  apply_each_time (x ∷ xs) c out last differ (Memᴰ.tail t) =
      let apart = any-Memᴰ (λ e. str_eq e.name x.name) xs differ.0 t in
      elim (Bool-cases (has x.name errs)) [
        | inl bad ↦ rw (bad, apply_each) (apply_each_time xs c out last differ.1 t)
        | inr good ↦
            rw (good, apply_each)
              (apply_each_time xs c (apply x.slot snap out) (insert x.name done last) differ.1 t
                ∙ kept_time x c last apart)
      ]

  -- A field that no polled command writes keeps its value.
  pub apply_each-unwritten :
      (t : Slot) (specs : List CmdSpec) (out : Output F) (last : Map Time)
      → slots t specs ≡ false
      → document t (apply_each specs (flags specs errs) snap done out last).0 ≡ document t out
  unfolding apply_each flags
  apply_each-unwritten t [] out last h = refl
  apply_each-unwritten t (c ∷ cs) out last h = elim (Bool-cases (has c.name errs)) [
    | inl bad ↦ rw (bad, apply_each) (apply_each-unwritten t cs out last (ground arith))
    | inr good ↦
        rw (good, apply_each)
          (apply_each-unwritten t cs (apply c.slot snap out) (insert c.name done last)
              (ground arith)
            ∙ ground (arith, document-apply c.slot t snap out))
  ]

  kept_document :
      (x c : CmdSpec) (out : Output F)
      → slot_eq c.slot x.slot ≡ false
      → (if has c.name errs then document c.slot (apply x.slot snap out) else document c.slot snap)
        ≡ (if has c.name errs then document c.slot out else document c.slot snap)
  kept_document x c out apart = ground (arith, document-apply x.slot c.slot snap out)

  pub document-apply_each :
      (specs : List CmdSpec) (c : CmdSpec) (out : Output F) (last : Map Time)
      → SlotsDiffer specs
      → Memᴰ c specs
      → document c.slot (apply_each specs (flags specs errs) snap done out last).0
        ≡ (if has c.name errs then document c.slot out else document c.slot snap)
  unfolding apply_each flags
  document-apply_each [] c out last differ mem = elim mem [ ]
  document-apply_each (x ∷ xs) c out last differ (Memᴰ.head e) =
      rw e (elim (Bool-cases (has x.name errs)) [
        | inl bad ↦ rw (bad, apply_each) (apply_each-unwritten x.slot xs out last differ.0)
        | inr good ↦
            rw (good, apply_each)
              (apply_each-unwritten x.slot xs (apply x.slot snap out) (insert x.name done last)
                  differ.0
                ∙ ground (arith, document-apply x.slot x.slot snap out))
      ])
  document-apply_each (x ∷ xs) c out last differ (Memᴰ.tail t) =
      let apart = any-Memᴰ (λ e. slot_eq e.slot x.slot) xs differ.0 t in
      elim (Bool-cases (has x.name errs)) [
        | inl bad ↦ rw (bad, apply_each) (document-apply_each xs c out last differ.1 t)
        | inr good ↦
            rw (good, apply_each)
              (document-apply_each xs c (apply x.slot snap out) (insert x.name done last) differ.1 t
                ∙ kept_document x c out apart)
      ]

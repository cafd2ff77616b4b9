-- ===== src/Collector/Data/Laws.antt =====
-- What NewStore of internal/collector/collector.go builds, against the list of switches that the
-- store stands for.
use mathlib.Core.List.{append-nil, append_assoc}
use arex.Prelude.{
  ok_injective, ◌≢◌, subst, ◌≡◌, refl, sym, ap, ◌∙◌, Bool, true, false, not, ◌&&◌, String, str_eq,
  List, [], ◌∷◌, ◌++◌, map, all, any, All, Option, some, Result, ok, err, arith, eq_iff, ◌⊎◌,
  Bool-cases, inl, inr, if◌then◌else◌,
}
use arex.Prelude.Assoc.{lookup, insert, has, lookup-insert, lookup-insert_self}
use arex.GoTime.{Duration}
use arex.Config.Types.{CollectSet, SwitchConfig, label}
use arex.Config.Modules.{effective_collect}
use arex.Collector.Commands.{commands_for}
use arex.Collector.Data.{
  SwitchData, Store, new_switch_data_from_specs, add_switches, new_store, get, get_each,
}

-- Every switch of the store stands under its label.
abbrev pub WellLabelled : {F : Type 0} → Store F → Type 0
WellLabelled {F} s = (key : String) (sw : SwitchData F) → get s key ≡ some sw → sw.label ≡ key

-- No two switches have one label.
unfoldable pub distinct_labels : List SwitchConfig → Bool
distinct_labels [] = true
distinct_labels (sw ∷ rest) =
    not (any (λ other. str_eq (label sw) (label other)) rest) && distinct_labels rest

abbrev pub is_ok : {E A : Type 0} → Result E A → Bool
is_ok (ok a) = true
is_ok (err e) = false

rearrange :
    (old rest_new again distinct now_new : Bool)
    → old ≡ false
    → now_new ≡ rest_new && not again
    → now_new && distinct ≡ not old && rest_new && (not again && distinct)
rearrange old rest_new again distinct now_new p q = ground arith

inserted_or_old :
    {A : Type 0} (b : Bool) (new found : A) (old : Option A)
    → (if b then some new else old) ≡ some found
    → ((b ≡ true) × (new ≡ found)) ⊎ (old ≡ some found)
inserted_or_old true new found old e = inl (refl, ground arith)
inserted_or_old false new found old e = inr e

module _ {F : Type 0} (z : F) (defaults : CollectSet) (poll_interval : Duration) where
  -- The state that a configured switch starts with.
  unfoldable pub fresh_switch : SwitchConfig → SwitchData F
  fresh_switch sw =
      new_switch_data_from_specs z (label sw) sw.fabric (
        commands_for (effective_collect sw defaults poll_interval) sw.interface_scope poll_interval)

  unfoldable pub with_switch : Store F → SwitchConfig → Store F
  unfolding fresh_switch
  with_switch s sw = record {
    switches = insert (label sw) (fresh_switch sw) s.switches;
    order = s.order ++ (label sw ∷ []);
  }

  add_switch :
      (s : Store F) (sw : SwitchConfig) (rest : List SwitchConfig)
      → has (label sw) s.switches ≡ false
      → add_switches z s (sw ∷ rest) defaults poll_interval
        ≡ add_switches z (with_switch s sw) rest defaults poll_interval
  unfolding add_switches with_switch fresh_switch
  add_switch s sw rest new = rw (add_switches, new) refl

  add_duplicate :
      (s : Store F) (sw : SwitchConfig) (rest : List SwitchConfig) (built : Store F)
      → has (label sw) s.switches ≡ true
      → add_switches z s (sw ∷ rest) defaults poll_interval ≢ ok built
  unfolding add_switches
  add_duplicate s sw rest built old e = ground arith

  abbrev Listed : Store F → Type 0
  Listed s = All (λ l. has l s.switches ≡ true) s.order

  -- A new switch leaves those under other labels.
  get-with_switch :
      (s : Store F) (sw : SwitchConfig) (key : String)
      → has (label sw) s.switches ≡ false
      → has key s.switches ≡ true
      → get (with_switch s sw) key ≡ get s key
  unfolding get with_switch
  get-with_switch s sw key new known =
      ground
        (arith, lookup-insert (label sw) key (fresh_switch sw) s.switches, eq_iff (label sw) key)

  get_each-with_switch :
      (s : Store F) (sw : SwitchConfig) (labels : List String)
      → has (label sw) s.switches ≡ false
      → All (λ l. has l s.switches ≡ true) labels
      → get_each (with_switch s sw) (labels ++ (label sw ∷ []))
        ≡ get_each s labels ++ (some (fresh_switch sw) ∷ [])
  unfolding get_each get with_switch
  get_each-with_switch s sw [] new known =
      ap (λ o. o ∷ []) (lookup-insert_self (label sw) (fresh_switch sw) s.switches)
  get_each-with_switch s sw (l ∷ labels) new known =
      rw (get-with_switch s sw l new known.0, get_each-with_switch s sw labels new known.1) refl

  still_known :
      (s : Store F) (sw : SwitchConfig) (labels : List String)
      → All (λ l. has l s.switches ≡ true) labels
      → All (λ l. has l (with_switch s sw).switches ≡ true) (labels ++ (label sw ∷ []))
  unfolding with_switch
  still_known s sw [] known =
      (ground (arith, lookup-insert_self (label sw) (fresh_switch sw) s.switches), tt)
  still_known s sw (l ∷ labels) known = (
    ground (arith, known.0, lookup-insert (label sw) l (fresh_switch sw) s.switches),
    still_known s sw labels known.1,
  )

  with_switch-WellLabelled :
      (s : Store F) (sw : SwitchConfig) → WellLabelled s → WellLabelled (with_switch s sw)
  unfolding get with_switch fresh_switch new_switch_data_from_specs
  with_switch-WellLabelled s sw well key found e =
      elim (inserted_or_old (str_eq (label sw) key) (fresh_switch sw) found (lookup key s.switches)
        (sym (lookup-insert (label sw) key (fresh_switch sw) s.switches) ∙ e)) [
          | inl (same, new) ↦
              ap (λ (d : SwitchData F). d.label) (sym new) ∙ (eq_iff (label sw) key).0 same
          | inr old ↦ well key found old
        ]

  -- From a store whose order lists labels that it has.
  add_switches_refines :
      (s : Store F) (rest : List SwitchConfig) (built : Store F)
      → Listed s
      → WellLabelled s
      → add_switches z s rest defaults poll_interval ≡ ok built
      → (get_each built built.order ≡ get_each s s.order ++ map (λ sw. some (fresh_switch sw)) rest)
        × WellLabelled built
  unfolding add_switches with_switch
  add_switches_refines s [] built listed well e =
      subst (λ t. (get_each t t.order ≡ get_each s s.order ++ []) × WellLabelled t)
        (ok_injective s built (ok s) refl e) (sym (append-nil (get_each s s.order)), well)
  add_switches_refines s (sw ∷ rest) built listed well e =
      elim (Bool-cases (has (label sw) s.switches)) [
        | inl old ↦ absurd (add_duplicate s sw rest built old e)
        | inr new ↦
            let (each, labelled) =
              add_switches_refines (with_switch s sw) rest built (still_known s sw s.order listed)
                (with_switch-WellLabelled s sw well) (sym (add_switch s sw rest new) ∙ e) in
            (
              each
                  ∙ ap (λ l. l ++ map (λ sw. some (fresh_switch sw)) rest)
                      (get_each-with_switch s sw s.order new listed)
                  ∙ append_assoc (get_each s s.order) (some (fresh_switch sw) ∷ [])
                      (map (λ sw. some (fresh_switch sw)) rest),
              labelled,
            )
      ]

  -- The store that NewStore builds stands for the configured switches: its list of every switch is
  -- the fresh state of each, in the order of the configuration, and each stands under its label.
  pub new_store_refines :
      (switches : List SwitchConfig) (built : Store F)
      → new_store z switches defaults poll_interval ≡ ok built
      → (get_each built built.order ≡ map (λ sw. some (fresh_switch sw)) switches)
        × WellLabelled built
  unfolding new_store get lookup get_each
  new_store_refines switches built e =
      add_switches_refines (record { switches = []; order = [] }) switches built tt
        (λ key sw found. absurd (ground arith)) e

  unfoldable pub none_known : Store F → List SwitchConfig → Bool
  none_known s rest = all (λ sw. not (has (label sw) s.switches)) rest

  none_known-with_switch :
      (s : Store F) (sw : SwitchConfig) (rest : List SwitchConfig)
      → none_known (with_switch s sw) rest
        ≡ none_known s rest && not (any (λ other. str_eq (label sw) (label other)) rest)
  unfolding none_known with_switch
  none_known-with_switch s sw [] = refl
  none_known-with_switch s sw (x ∷ rest) = ground (
    arith,
    none_known-with_switch s sw rest,
    lookup-insert (label sw) (label x) (fresh_switch sw) s.switches,
    eq_iff (label sw) (label x),
  )

  add_switches_iff :
      (s : Store F) (rest : List SwitchConfig)
      → is_ok (add_switches z s rest defaults poll_interval)
        ≡ none_known s rest && distinct_labels rest
  unfolding none_known distinct_labels add_switches
  add_switches_iff s [] = refl
  add_switches_iff s (sw ∷ rest) = elim (Bool-cases (has (label sw) s.switches)) [
    | inl old ↦ rw (add_switches, old) refl
    | inr new ↦
        ap is_ok (add_switch s sw rest new)
        ∙ add_switches_iff (with_switch s sw) rest
        ∙ rearrange (has (label sw) s.switches) (none_known s rest)
            (any (λ other. str_eq (label sw) (label other)) rest) (distinct_labels rest)
            (none_known (with_switch s sw) rest) new (none_known-with_switch s sw rest)
  ]

  none_known-empty :
      (rest : List SwitchConfig) → none_known (record { switches = []; order = [] }) rest ≡ true
  unfolding none_known lookup
  none_known-empty [] = refl
  none_known-empty (sw ∷ rest) = none_known-empty rest

  -- NewStore succeeds exactly if no two switches have one label.
  pub new_store_iff :
      (switches : List SwitchConfig)
      → is_ok (new_store z switches defaults poll_interval) ≡ distinct_labels switches
  unfolding new_store
  new_store_iff switches =
      add_switches_iff (record { switches = []; order = [] }) switches
      ∙ ap (λ b. b && distinct_labels switches) (none_known-empty switches)

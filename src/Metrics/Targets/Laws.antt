-- ===== src/Metrics/Targets/Laws.antt =====
-- What a target resolves to: TargetIndex of internal/metrics/handler.go against the list of the
-- switches that a target names.
use arex.Prelude.{
  ◌≡◌, refl, Bool, true, false, not, ◌||◌, ◌&&◌, String, nonempty, str_eq, List, [], ◌∷◌, any,
  Option, none, some, arith, eq_iff, if◌then◌else◌,
}
use arex.Prelude.Assoc.{Map, lookup, delete, keys, has, lookup-insert, lookup-delete}
use arex.Prelude.Assoc.Laws.{or_else}
use arex.Config.Types.{SwitchConfig, label}
use arex.Metrics.Targets.{
  Targets, strip_scheme, add_target, add_switch, add_all, text_or_nil, drop_ambiguous, target_index,
}

-- A switch is named by its label, its host, and its host without the scheme.
abbrev pub is_named : String → SwitchConfig → Bool
is_named key sw = str_eq (label sw) key || str_eq sw.host key || str_eq (strip_scheme sw.host) key

-- The labels of the switches that a target names, in order.
abbrev pub owners : String → List SwitchConfig → List String
owners key [] = []
owners key (sw ∷ rest) =
    let later = owners key rest in if is_named key sw then label sw ∷ later else later

abbrev pub differs : String → List String → Bool
differs l others = any (λ o. not (str_eq l o)) others

-- The first owner, unless another label owns the target too and it is not the first one's label.
abbrev pub resolve : String → List String → Option String
resolve key [] = none
resolve key (l ∷ others) = if differs l others && not (str_eq l key) then none else some l

abbrev pub first_owner : List String → Option String
first_owner [] = none
first_owner (l ∷ others) = some l

-- Whether a further owner differs from the first one, `old` if there is one already.
abbrev clash : Option String → List String → Bool
clash none [] = false
clash none (l ∷ others) = differs l others
clash (some old) others = differs old others

abbrev claim : Bool → String → List String
claim true l = l ∷ []
claim false l = []

module _ (key : String) (given : nonempty key ≡ true) where
  lookup-add_target :
      (k lbl : String) (t : Targets)
      → lookup key (add_target k lbl t).index
        ≡ or_else (lookup key t.index) (first_owner (claim (str_eq k key) lbl))
  unfolding add_target
  lookup-add_target k lbl t = ground (
    arith,
    eq_iff k key,
    eq_iff k "",
    eq_iff (text_or_nil (lookup k t.index)) lbl,
    lookup-insert k key lbl t.index,
  )

  has-add_target :
      (k lbl : String) (t : Targets)
      → has key (add_target k lbl t).ambiguous
        ≡ (has key t.ambiguous || clash (lookup key t.index) (claim (str_eq k key) lbl))
  unfolding add_target
  has-add_target k lbl t = ground (
    arith,
    eq_iff k key,
    eq_iff k "",
    eq_iff (text_or_nil (lookup k t.index)) lbl,
    lookup-insert k key true t.ambiguous,
  )

  lookup-add_switch :
      (sw : SwitchConfig) (t : Targets)
      → lookup key (add_switch sw t).index
        ≡ or_else (lookup key t.index) (first_owner (claim (is_named key sw) (label sw)))
  unfolding add_switch
  lookup-add_switch sw t =
      let l = label sw in
      let t1 = add_target l l t in
      let t2 = add_target sw.host l t1 in
      ground (
        arith,
        lookup-add_target l l t,
        lookup-add_target sw.host l t1,
        lookup-add_target (strip_scheme sw.host) l t2,
      )

  has-add_switch :
      (sw : SwitchConfig) (t : Targets)
      → has key (add_switch sw t).ambiguous
        ≡ (has key t.ambiguous || clash (lookup key t.index) (claim (is_named key sw) (label sw)))
  unfolding add_switch
  has-add_switch sw t =
      let l = label sw in
      let t1 = add_target l l t in
      let t2 = add_target sw.host l t1 in
      ground (
        arith,
        eq_iff l l,
        lookup-add_target l l t,
        lookup-add_target sw.host l t1,
        has-add_target l l t,
        has-add_target sw.host l t1,
        has-add_target (strip_scheme sw.host) l t2,
      )

  lookup-add_all :
      (switches : List SwitchConfig) (t : Targets)
      → lookup key (add_all switches t).index
        ≡ or_else (lookup key t.index) (first_owner (owners key switches))
  unfolding add_all
  lookup-add_all [] t = ground arith
  lookup-add_all (sw ∷ rest) t =
      ground (arith, lookup-add_switch sw t, lookup-add_all rest (add_switch sw t))

  has-add_all :
      (switches : List SwitchConfig) (t : Targets)
      → has key (add_all switches t).ambiguous
        ≡ (has key t.ambiguous || clash (lookup key t.index) (owners key switches))
  unfolding add_all
  has-add_all [] t = ground arith
  has-add_all (sw ∷ rest) t =
      ground
        (arith, lookup-add_switch sw t, has-add_switch sw t, has-add_all rest (add_switch sw t))

  lookup-drop_ambiguous :
      (others : List String) (index : Map String)
      → lookup key (drop_ambiguous others index) ≡ (
          if any (λ k. str_eq k key) others && not (str_eq (text_or_nil (lookup key index)) key)
          then none
          else lookup key index)
  unfolding drop_ambiguous
  lookup-drop_ambiguous [] index = refl
  lookup-drop_ambiguous (k ∷ rest) index = ground (
    arith,
    eq_iff k key,
    eq_iff "" key,
    eq_iff key "",
    lookup-delete k key index,
    lookup-drop_ambiguous rest index,
    lookup-drop_ambiguous rest (delete k index),
  )

  any-keys : (m : Map Bool) → any (λ k. str_eq k key) (keys m) ≡ has key m
  unfolding keys lookup
  any-keys [] = refl
  any-keys ((k, b) ∷ rest) = ground (arith, any-keys rest)

  resolve_first :
      (os : List String)
      → (if clash none os && not (str_eq (text_or_nil (first_owner os)) key)
          then none
          else first_owner os)
        ≡ resolve key os
  resolve_first [] = refl
  resolve_first (l ∷ others) = refl

  -- A target resolves to the first switch that it names, unless it also names a switch with another
  -- label and is not the label of the first one; then, or if it names none, it does not resolve.
  -- The target is not the empty text.
  pub lookup-target_index :
      (switches : List SwitchConfig)
      → lookup key (target_index switches) ≡ resolve key (owners key switches)
  unfolding target_index lookup
  lookup-target_index switches =
      let start : Targets = record { index = []; ambiguous = [] } in
      let t = add_all switches start in
      rw
        (
          lookup-drop_ambiguous (keys t.ambiguous) t.index,
          any-keys t.ambiguous,
          lookup-add_all switches start,
          has-add_all switches start,
        )
        (resolve_first (owners key switches))

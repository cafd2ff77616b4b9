-- ===== src/Metrics/Targets.antt =====
-- TargetIndex of internal/metrics/handler.go: every accepted spelling of a target, and the switch
-- label that it stands for.
pub mod Laws
pub mod Owners
use arex.Prelude.{
  Bool, true, false, not, String, nonempty, str_eq, List, [], ◌∷◌, Option, none, some,
  if◌then◌else◌,
}
use Prim.Native.Char.{code}
use arex.Prelude.{ℕ, ◌==◌}
use arex.Prelude.Assoc.{Map, lookup, insert, delete, keys}
use arex.Config.Types.{SwitchConfig, label}

-- The rest of the text after a prefix.
unfoldable pub after_prefix : String → String → Option String
after_prefix String.[] s = some s
after_prefix (String.◌∷◌ a p) String.[] = none
after_prefix (String.◌∷◌ a p) (String.◌∷◌ b s) =
    let rest = after_prefix p s in if code a == code b then rest else none

-- `strings.Cut`, as far as its second result is used: what follows the first separator.
unfoldable pub cut_after : String → String → Option String
cut_after sep String.[] = after_prefix sep ""
cut_after sep (String.◌∷◌ c s) =
    let later = cut_after sep s in
    elim (after_prefix sep (String.◌∷◌ c s)) [ some rest ↦ some rest | none ↦ later ]

unfoldable pub strip_scheme : String → String
unfolding cut_after after_prefix
strip_scheme host = elim (cut_after "://" host) [ some after ↦ after | none ↦ host ]

-- The two maps that TargetIndex fills.
pub record Targets : Type 0 where
  pub index : Map String
  pub ambiguous : Map Bool

unfoldable pub add_target : String → String → Targets → Targets
add_target key lbl t = if not (nonempty key) then t else elim (lookup key t.index) [
  | none ↦ record t { index = insert key lbl t.index }
  | some existing ↦
      if not (str_eq existing lbl)
      then record t { ambiguous = insert key true t.ambiguous }
      else record t { index = insert key lbl t.index }
]

unfoldable pub add_switch : SwitchConfig → Targets → Targets
add_switch sw t =
    let lbl = label sw in
    add_target (strip_scheme sw.host) lbl (add_target sw.host lbl (add_target lbl lbl t))

unfoldable pub add_all : List SwitchConfig → Targets → Targets
add_all [] t = t
add_all (sw ∷ rest) t = add_all rest (add_switch sw t)

-- Reading a missing key gives "".
abbrev pub text_or_nil : Option String → String
text_or_nil none = ""
text_or_nil (some s) = s

unfoldable pub drop_ambiguous : List String → Map String → Map String
drop_ambiguous [] index = index
drop_ambiguous (key ∷ rest) index =
    drop_ambiguous rest
      (if not (str_eq (text_or_nil (lookup key index)) key) then delete key index else index)

unfoldable pub target_index : List SwitchConfig → Map String
target_index switches =
    let t = add_all switches (record { index = []; ambiguous = [] }) in
    drop_ambiguous (keys t.ambiguous) t.index

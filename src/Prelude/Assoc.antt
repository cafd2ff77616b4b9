-- ===== src/Prelude/Assoc.antt =====
-- A Go map with text keys as an association list. A range over a map goes through the entries in
-- the order of the list; Go fixes no order.
pub mod Laws
use Prim.Native.String.{String}
use mathlib.Core.Path.{◌≡◌, refl}
use mathlib.Core.Bool.{Bool}
use mathlib.Core.Option.{Option, none, some}
use mathlib.Core.List.{List, [], ◌∷◌, ◌++◌}
use native.Mathlib.Omega.{arith}
use text.Mathlib.Text.{◌==◌}
use text.Mathlib.TextEquality.{eq_iff}
use text.Mathlib.TextPositions.{eq_refl}
use arex.Prelude.Tests.{if◌then◌else◌, is_some}

abbrev pub Map {ℓ} : Type ℓ → Type ℓ
Map V = List (String × V)

-- What the body of a range over a map gives for each entry.
abbrev pub for_entries {ℓ κ} : {V : Type ℓ} {B : Type κ} → (String → V → List B) → Map V → List B
for_entries f [] = []
for_entries f ((key, x) ∷ m) = f key x ++ for_entries f m

module _ {ℓ} {V : Type ℓ} where
  unfoldable pub lookup : String → Map V → Option V
  lookup key [] = none
  lookup key ((name, x) ∷ rest) = if name == key then some x else lookup key rest

  abbrev pub has : String → Map V → Bool
  has key m = is_some (lookup key m)

  unfoldable pub keys : Map V → List String
  keys [] = []
  keys ((name, x) ∷ rest) = name ∷ keys rest

  unfoldable pub insert : String → V → Map V → Map V
  insert key new [] = (key, new) ∷ []
  insert key new ((name, x) ∷ rest) =
      let later = insert key new rest in
      if name == key then (name, new) ∷ rest else (name, x) ∷ later

  unfoldable pub delete : String → Map V → Map V
  delete key [] = []
  delete key ((name, x) ∷ rest) =
      let later = delete key rest in if name == key then later else (name, x) ∷ later

  -- maps.Copy: the entries of the first, over those of the second.
  unfoldable pub copy_over : Map V → Map V → Map V
  copy_over [] m = m
  copy_over ((name, x) ∷ src) m = copy_over src (insert name x m)

  pub lookup-insert :
      (key other : String) (new : V) (m : Map V)
      → lookup other (insert key new m) ≡ (if key == other then some new else lookup other m)
  unfolding lookup insert
  lookup-insert key other new [] = refl
  lookup-insert key other new ((name, x) ∷ rest) =
      let ih = lookup-insert key other new rest in
      ground (arith, ih, eq_iff name key, eq_iff name other, eq_iff key other)

  pub lookup-insert_self :
      (key : String) (new : V) (m : Map V) → lookup key (insert key new m) ≡ some new
  lookup-insert_self key new m = simp (lookup-insert, eq_refl)

  pub lookup-delete :
      (key other : String) (m : Map V)
      → lookup other (delete key m) ≡ (if key == other then none else lookup other m)
  unfolding lookup delete
  lookup-delete key other [] = ground arith
  lookup-delete key other ((name, x) ∷ rest) =
      let ih = lookup-delete key other rest in
      ground (arith, ih, eq_iff name key, eq_iff name other, eq_iff key other)

-- ===== src/Prelude/Assoc/Laws.antt =====
-- Maps with distinct keys, as Go's are, and what a copy of one over another holds.
use Prim.Native.String.{String}
use mathlib.Core.Path.{◌≡◌, refl}
use mathlib.Core.Option.{Option, none, some}
use mathlib.Core.List.{[], ◌∷◌}
use native.Mathlib.Omega.{arith}
use text.Mathlib.TextEquality.{eq_iff}
use arex.Prelude.Assoc.{Map, lookup, insert, copy_over, lookup-insert}

module _ {ℓ} {V : Type ℓ} where
  -- No key stands twice.
  abbrev pub Distinct : Map V → Type ℓ
  Distinct [] = Unit
  Distinct ((k, v) ∷ m) = (lookup k m ≡ none) × Distinct m

  abbrev pub or_else : Option V → Option V → Option V
  or_else none b = b
  or_else (some a) b = some a

  pub insert-Distinct : (k : String) (v : V) (m : Map V) → Distinct m → Distinct (insert k v m)
  unfolding insert lookup
  insert-Distinct k v [] d = ground arith
  insert-Distinct k v ((j, w) ∷ m) d =
      ground (arith, eq_iff j k, eq_iff k j, insert-Distinct k v m d.1, lookup-insert k j v m)

  pub copy_over-Distinct : (src m : Map V) → Distinct m → Distinct (copy_over src m)
  unfolding copy_over
  copy_over-Distinct [] m d = d
  copy_over-Distinct ((k, v) ∷ src) m d =
      copy_over-Distinct src (insert k v m) (insert-Distinct k v m d)

  pub lookup-copy_over :
      (k : String) (src m : Map V)
      → Distinct src
      → lookup k (copy_over src m) ≡ or_else (lookup k src) (lookup k m)
  unfolding copy_over lookup
  lookup-copy_over k [] m d = refl
  lookup-copy_over k ((j, v) ∷ src) m d =
      ground (arith, eq_iff j k, lookup-copy_over k src (insert j v m) d.1, lookup-insert j k v m)

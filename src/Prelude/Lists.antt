-- ===== src/Prelude/Lists.antt =====
-- Lists measured by native numbers, and predicates on lists by recursion.
use Prim.Native.Nat.{ℕ, zero, suc, ◌+◌, ◌≤◌}
use mathlib.Core.Path.{◌≡◌, refl, ap, subst}
use mathlib.Core.Logic.{◌⊎◌, inl, inr}
use mathlib.Core.Bool.{Bool, true, false, ◌&&◌, ◌||◌}
use mathlib.Core.List.{List, [], ◌∷◌, ◌++◌, map, Memᴰ}
use mathlib.Core.Option.{Option, none, some}
use native.Mathlib.Omega.{arith}
use arex.Prelude.Tests.{if◌then◌else◌, Bool-cases}

module _ {ℓ} {A : Type ℓ} where
  abbrev pub length : List A → ℕ
  length [] = 0
  length (x ∷ xs) = suc (length xs)

  abbrev pub get_elem? : List A → ℕ → Option A
  get_elem? [] i = none
  get_elem? (x ∷ xs) zero = some x
  get_elem? (x ∷ xs) (suc i) = get_elem? xs i

  abbrev pub replicate : ℕ → A → List A
  replicate zero a = []
  replicate (suc n) a = a ∷ replicate n a

  abbrev pub is_empty : List A → Bool
  is_empty [] = true
  is_empty (x ∷ xs) = false

  -- The library's `filter` takes a decision; the source's loops test a Boolean.
  abbrev pub keep : (A → Bool) → List A → List A
  keep p [] = []
  keep p (x ∷ xs) = let rest = keep p xs in if p x then x ∷ rest else rest

  abbrev pub all : (A → Bool) → List A → Bool
  all p [] = true
  all p (x ∷ xs) = p x && all p xs

  abbrev pub any : (A → Bool) → List A → Bool
  any p [] = false
  any p (x ∷ xs) = p x || any p xs

  abbrev pub All {κ} : (A → Type κ) → List A → Type κ
  All P [] = Unit
  All P (x ∷ xs) = P x × All P xs

  -- A test that every member passes holds of each.
  pub all-Memᴰ : (p : A → Bool) (xs : List A) {a : A} → all p xs ≡ true → Memᴰ a xs → p a ≡ true
  all-Memᴰ p [] h t = elim t [ ]
  all-Memᴰ p (x ∷ xs) h (Memᴰ.head e) = rw e (ground arith)
  all-Memᴰ p (x ∷ xs) h (Memᴰ.tail t) = all-Memᴰ p xs (ground arith) t

  -- A test that no member passes fails at each.
  pub any-Memᴰ : (p : A → Bool) (xs : List A) {a : A} → any p xs ≡ false → Memᴰ a xs → p a ≡ false
  any-Memᴰ p [] h t = elim t [ ]
  any-Memᴰ p (x ∷ xs) h (Memᴰ.head e) = rw e (ground arith)
  any-Memᴰ p (x ∷ xs) h (Memᴰ.tail t) = any-Memᴰ p xs (ground arith) t

  pub Memᴰ-keep : (p : A → Bool) (xs : List A) {a : A} → p a ≡ true → Memᴰ a xs → Memᴰ a (keep p xs)
  Memᴰ-keep p [] h t = elim t [ ]
  Memᴰ-keep p (x ∷ xs) {a} h (Memᴰ.head e) = rw (subst (λ y. p y ≡ true) e h) (Memᴰ.head e)
  Memᴰ-keep p (x ∷ xs) h (Memᴰ.tail t) = elim (Bool-cases (p x)) [
    | inl kept ↦ rw kept (Memᴰ.tail (Memᴰ-keep p xs h t))
    | inr dropped ↦ rw dropped (Memᴰ-keep p xs h t)
  ]

  -- What is in a concatenation is in one of its parts.
  pub Memᴰ-append : (xs ys : List A) {a : A} → Memᴰ a (xs ++ ys) → Memᴰ a xs ⊎ Memᴰ a ys
  Memᴰ-append [] ys t = inr t
  Memᴰ-append (x ∷ xs) ys (Memᴰ.head e) = inl (Memᴰ.head e)
  Memᴰ-append (x ∷ xs) ys (Memᴰ.tail t) = elim (Memᴰ-append xs ys t) [
    | inl here ↦ inl (Memᴰ.tail here)
    | inr there ↦ inr there
  ]

  pub length-append : (xs ys : List A) → length (xs ++ ys) ≡ length xs + length ys
  length-append [] ys = omega arith
  length-append (x ∷ xs) ys = omega (arith, length-append xs ys)

  pub length-replicate : (n : ℕ) (a : A) → length (replicate n a) ≡ n
  length-replicate zero a = refl
  length-replicate (suc n) a = ap suc (length-replicate n a)

  pub length-keep-le : (p : A → Bool) (xs : List A) → length (keep p xs) ≤ length xs
  length-keep-le p [] = omega arith
  length-keep-le p (x ∷ xs) = ground (arith, length-keep-le p xs)

-- What the body of a loop gives for each element, in order.
abbrev pub flat_map {ℓ κ} : {A : Type ℓ} {B : Type κ} → (A → List B) → List A → List B
flat_map f [] = []
flat_map f (x ∷ xs) = f x ++ flat_map f xs

pub Memᴰ-map {ℓ κ} :
    {A : Type ℓ} {B : Type κ} (f : A → B) (xs : List A) {a : A} → Memᴰ a xs → Memᴰ (f a) (map f xs)
Memᴰ-map f [] t = elim t [ ]
Memᴰ-map f (x ∷ xs) (Memᴰ.head e) = Memᴰ.head (ap f e)
Memᴰ-map f (x ∷ xs) (Memᴰ.tail t) = Memᴰ.tail (Memᴰ-map f xs t)

pub length-map {ℓ κ} :
    {A : Type ℓ} {B : Type κ} (xs : List A) (f : A → B) → length (map f xs) ≡ length xs
length-map [] f = refl
length-map (x ∷ xs) f = ap suc (length-map xs f)

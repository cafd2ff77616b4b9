-- ===== src/Prelude/Within.antt =====
-- A list with some of its members left out, in the same order.
use arex.Prelude.{List, [], ◌∷◌, ◌++◌}

-- The first is the second with some members left out.
pub data Within {A : Type 0} : List A → List A → Type 0 where
  both_end : Within [] []
  kept : (x : A) {xs ys : List A} → Within xs ys → Within (x ∷ xs) (x ∷ ys)
  left_out : (x : A) {xs ys : List A} → Within xs ys → Within xs (x ∷ ys)

module _ {A : Type 0} where
  pub Within-refl : (xs : List A) → Within xs xs
  Within-refl [] = both_end
  Within-refl (x ∷ xs) = kept x (Within-refl xs)

  pub Within-nil : (ys : List A) → Within [] ys
  Within-nil [] = both_end
  Within-nil (y ∷ ys) = left_out y (Within-nil ys)

  pub Within-append :
      {xs ys zs ws : List A} → Within xs ys → Within zs ws → Within (xs ++ zs) (ys ++ ws)
  Within-append both_end q = q
  Within-append (kept x p) q = kept x (Within-append p q)
  Within-append (left_out x p) q = left_out x (Within-append p q)

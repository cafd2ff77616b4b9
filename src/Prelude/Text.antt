-- ===== src/Prelude/Text.antt =====
-- Texts, as far as the program compares and joins them, and `%d` of fmt.
use Prim.Native.Nat.{ℕ, zero, suc, ◌/◌, ◌%◌}
use Prim.Native.String.{String, ◌++◌ as append}
use Prim.Native.Char.{code}
use text.Mathlib.Text.{◌==◌}
use mathlib.Core.Bool.{Bool, true, false}
use mathlib.Core.List.{List, [], ◌∷◌}
use arex.Prelude.Tests.{ltb, if◌then◌else◌}

abbrev pub str_eq : String → String → Bool
str_eq a b = a == b

abbrev pub nonempty : String → Bool
nonempty s = elim (s == "") [ true ↦ false | false ↦ true ]

infixr 65 ◌+s◌
abbrev pub ◌+s◌ : String → String → String
a +s b = append a b

-- `String` has its own `[]` and `∷`.
abbrev pub codes : String → List ℕ
codes String.[] = []
codes (String.◌∷◌ c s) = code c ∷ codes s

-- strings.Join
abbrev pub join : String → List String → String
join sep [] = ""
join sep (s ∷ []) = s
join sep (s ∷ t ∷ rest) = s +s sep +s join sep (t ∷ rest)

digit : ℕ → String
digit zero = "0"
digit (suc zero) = "1"
digit (suc (suc zero)) = "2"
digit (suc (suc (suc zero))) = "3"
digit (suc (suc (suc (suc zero)))) = "4"
digit (suc (suc (suc (suc (suc zero))))) = "5"
digit (suc (suc (suc (suc (suc (suc zero)))))) = "6"
digit (suc (suc (suc (suc (suc (suc (suc zero))))))) = "7"
digit (suc (suc (suc (suc (suc (suc (suc (suc zero)))))))) = "8"
digit n = "9"

digits : ℕ → ℕ → String
digits zero n = ""
digits (suc fuel) n =
    let rest = digits fuel (n / 10) in if ltb n 10 then digit n else rest +s digit (n % 10)

-- A number has at most as many digits as its value and one more.
unfoldable pub itoa : ℕ → String
unfolding digits digit
itoa n = digits (suc n) n

-- ===== src/Config/LogLevel.antt =====
-- ParseLogLevel of config/loglevel.go, on the code points of a text.
use arex.Prelude.{
  ℕ, ◌+◌, ◌==◌, leb, Bool, true, false, ◌&&◌, ◌||◌, String, codes, List, [], ◌∷◌, Option, none,
  some, is_empty, if◌then◌else◌,
}

pub data Level : Type 0 where
  debug info warn error : Level

-- unicode.IsSpace
abbrev pub is_space : ℕ → Bool
is_space c =
    (leb 9 c && leb c 13)
    || (c == 32)
    || (c == 0x85)
    || (c == 0xa0)
    || (c == 0x1680)
    || (leb 0x2000 c && leb c 0x200a)
    || (c == 0x2028)
    || (c == 0x2029)
    || (c == 0x202f)
    || (c == 0x205f)
    || (c == 0x3000)

-- unicode.ToLower, as far as it gives an ASCII letter: two letters beyond ASCII do.
abbrev pub to_lower : ℕ → ℕ
to_lower c =
    if leb 65 c && leb c 90
    then c + 32
    else if c == 0x130
    then 105
    else if c == 0x212a
    then 107
    else c

unfoldable pub drop_spaces : List ℕ → List ℕ
drop_spaces [] = []
drop_spaces (c ∷ rest) = if is_space c then drop_spaces rest else c ∷ rest

-- strings.ToLower of strings.TrimSpace
unfoldable pub trimmed : List ℕ → List ℕ
trimmed [] = []
trimmed (c ∷ rest) =
    let later = trimmed rest in if is_space c && is_empty later then [] else to_lower c ∷ later

unfoldable pub codes_eq : List ℕ → List ℕ → Bool
codes_eq [] [] = true
codes_eq (a ∷ xs) (b ∷ ys) = (a == b) && codes_eq xs ys
codes_eq _ _ = false

-- `none` is the error of an unknown level.
unfoldable pub parse_log_level : String → Option Level
unfolding trimmed drop_spaces codes_eq
parse_log_level name =
    let text = trimmed (drop_spaces (codes name)) in
    if codes_eq text (codes "debug")
    then some debug
    else if codes_eq text (codes "info")
    then some info
    else if codes_eq text (codes "warn") || codes_eq text (codes "warning")
    then some warn
    else if codes_eq text (codes "error")
    then some error
    else none

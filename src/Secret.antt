-- ===== src/Secret.antt =====
-- internal/secret/credential.go: a password that is read from a file, and read again when what it
-- authenticates against rejects it. os.ReadFile is a function on the world `W`, a parameter.
pub mod Laws
use arex.Prelude.{
  ℕ, ◌==◌, ◌||◌, ◌&&◌, Bool, true, false, not, String, nonempty, str_eq, ◌+s◌, Result, ok, err,
  if◌then◌else◌,
}
use Prim.Native.Char.{code}

pub record Credential : Type 0 where
  pub password : String
  pub path : String

-- `strings.TrimRight(s, "\r\n")`
unfoldable pub trim_line_end : String → String
trim_line_end String.[] = ""
trim_line_end (String.◌∷◌ c s) =
    let rest = trim_line_end s in
    if not (nonempty rest) && (code c == 10 || code c == 13) then "" else String.◌∷◌ c rest

unfoldable pub new_static_credential : String → Credential
new_static_credential password = record { password = password; path = "" }

-- What read does with what os.ReadFile returns.
unfoldable pub password_of : String → Result String String → Result String String
password_of path (err e) = err ("read password file: " +s e)
password_of path (ok body) =
    let pw = trim_line_end body in
    if not (nonempty pw) then err ("password file " +s path +s " is empty") else ok pw

-- The rest of Reload, once the file is read.
unfoldable pub adopt : Credential → Result String String → Credential × Result String Bool
adopt c (err e) = (c, err e)
adopt c (ok pw) =
    if str_eq pw c.password then (c, ok false) else (record c { password = pw }, ok true)

module _ {W : Type 0} (read_file : String → W → W × Result String String) where
  unfoldable pub read : Credential → W → W × Result String String
  read c w = let (w', res) = read_file c.path w in (w', password_of c.path res)

  unfoldable pub new_file_credential : String → W → W × Result String Credential
  new_file_credential path w =
      let (w', res) = read (record { password = ""; path = path }) w in
      (w', elim res [ err e ↦ err e | ok pw ↦ ok (record { password = pw; path = path }) ])

  unfoldable pub reload : Credential → W → W × Credential × Result String Bool
  reload c w =
      if not (nonempty c.path)
      then (w, c, ok false)
      else let (w', res) = read c w in let (c', changed) = adopt c res in (w', c', changed)

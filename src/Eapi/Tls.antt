-- ===== src/Eapi/Tls.antt =====
-- internal/eapi/tls.go: how a switch's certificate is verified. Reading the CA file and making a pool
-- of it are arguments, and so is SHA-256. A text is read as its code points: no other character
-- lowers to a hexadecimal digit or a separator.
pub mod Laws
mod Tests
use arex.Prelude.{
  ℕ, ◌+◌, ◌-◌, ◌*◌, ◌==◌, ◌&&◌, ◌||◌, Bool, true, false, not, String, nonempty, codes, List, [],
  ◌∷◌, length, map, keep, Option, none, some, Result, ok, err, leb, if◌then◌else◌,
}
use arex.Config.Types.{TlsOptions}

abbrev is_separator : ℕ → Bool
is_separator c = c == 58 || c == 32 || c == 45

abbrev lower : ℕ → ℕ
lower c = if leb 65 c && leb c 90 then c + 32 else c

-- The Replacer, then ToLower.
unfoldable pub clean : List ℕ → List ℕ
clean [] = []
clean (c ∷ cs) = let rest = clean cs in if is_separator c then rest else lower c ∷ rest

-- encoding/hex: the value of a digit.
unfoldable pub from_hex_char : ℕ → Option ℕ
from_hex_char c =
    if leb 48 c && leb c 57
    then some (c - 48)
    else if leb 97 c && leb c 102
    then some (c - 87)
    else if leb 65 c && leb c 70
    then some (c - 55)
    else none

abbrev pub with_digits : Option ℕ → Option ℕ → Option (List ℕ) → Option (List ℕ)
with_digits (some hi) (some lo) (some bytes) = some ((hi * 16 + lo) ∷ bytes)
with_digits _ _ _ = none

-- hex.DecodeString: none for another character and for an odd length.
unfoldable pub decode_string : List ℕ → Option (List ℕ)
unfolding from_hex_char
decode_string [] = some []
decode_string (a ∷ []) = none
decode_string (a ∷ b ∷ rest) = with_digits (from_hex_char a) (from_hex_char b) (decode_string rest)

pub data TlsError : Type 0 where
  both_given : TlsError
  not_hex : TlsError
  wrong_size : ℕ → TlsError
  ca_not_read : String → TlsError
  ca_has_none : String → TlsError

abbrev pub sha256_size : ℕ
sha256_size = 32

unfoldable pub check_size : Option (List ℕ) → Result TlsError (List ℕ)
check_size none = err not_hex
check_size (some raw) = if length raw == sha256_size then ok raw else err (wrong_size (length raw))

unfoldable pub parse_pin : String → Result TlsError (List ℕ)
unfolding clean decode_string check_size
parse_pin s = check_size (decode_string (clean (codes s)))

-- What of the tls.Config is decided here. A pin stands in two callbacks, one of which is also called
-- for a session that is resumed.
pub record Verification (P : Type 0) : Type 0 where
  pub insecure_skip_verify : Bool
  pub verify_peer : Option (List ℕ)
  pub verify_connection : Option (List ℕ)
  pub root_cas : Option P

module _ {P : Type 0} where
  abbrev pub default_verification : Verification P
  default_verification = record {
    insecure_skip_verify = false;
    verify_peer = none;
    verify_connection = none;
    root_cas = none;
  }

  unfoldable pub with_pin : Result TlsError (List ℕ) → Result TlsError (Verification P)
  with_pin (err e) = err e
  with_pin (ok want) = ok (record default_verification {
    insecure_skip_verify = true;
    verify_peer = some want;
    verify_connection = some want;
  })

  -- The file as a pool, none where it holds no certificate.
  unfoldable pub with_ca : String → Result String (Option P) → Result TlsError (Verification P)
  with_ca file (err e) = err (ca_not_read e)
  with_ca file (ok none) = err (ca_has_none file)
  with_ca file (ok (some pool)) = ok (record default_verification { root_cas = some pool })

  unfoldable pub build_tls_config :
      TlsOptions → Result String (Option P) → Result TlsError (Verification P)
  unfolding with_pin with_ca parse_pin
  build_tls_config o pool =
      if nonempty o.ca_file && nonempty o.pinned_cert_sha256
      then err both_given
      else if nonempty o.pinned_cert_sha256
      then with_pin (parse_pin o.pinned_cert_sha256)
      else if nonempty o.ca_file
      then with_ca o.ca_file pool
      else ok (record default_verification { insecure_skip_verify = o.skip_verify })

abbrev pub same_bytes : List ℕ → List ℕ → Bool
same_bytes [] [] = true
same_bytes (a ∷ rest_a) (b ∷ rest_b) = a == b && same_bytes rest_a rest_b
same_bytes _ _ = false

-- checkPin: whether the certificate has the digest.
unfoldable pub check_pin : (List ℕ → List ℕ) → List ℕ → List ℕ → Bool
check_pin sha256 der want = same_bytes (sha256 der) want

-- pinVerifier, and the callback on a connection: the leaf is the first certificate.
unfoldable pub verify_pin : (List ℕ → List ℕ) → List ℕ → List (List ℕ) → Bool
unfolding check_pin
verify_pin sha256 want [] = false
verify_pin sha256 want (leaf ∷ chain) = check_pin sha256 leaf want

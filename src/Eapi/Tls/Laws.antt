-- ===== src/Eapi/Tls/Laws.antt =====
-- The pin of internal/eapi/tls.go: what a printed fingerprint is read as.
use arex.Prelude.{
  ok_injective, subst, sym, ◌⊎◌, inl, inr, ◌≢◌, Bool-cases, Result-cases, nonempty, ℕ, ◌+◌, ◌*◌,
  ◌/◌, ◌%◌, ◌<◌, ◌≡◌, refl, ap, ◌∙◌, Bool, true, false, String, codes, List, [], ◌∷◌, length, All,
  Option, none, some, Result, ok, err, ltb, if◌then◌else◌, arith,
}
use arex.Config.Types.{TlsOptions}
use arex.Eapi.Tls.{
  Verification, default_verification, TlsError, with_pin, with_ca, build_tls_config, clean,
  from_hex_char, decode_string, check_size, parse_pin, sha256_size,
}

abbrev pub upper_digit : ℕ → ℕ
upper_digit d = if ltb d 10 then 48 + d else 55 + d

-- As openssl prints a fingerprint: two digits for a byte, in capitals, with colons between.
abbrev pub print_rest : List ℕ → List ℕ
print_rest [] = []
print_rest (b ∷ bs) = 58 ∷ upper_digit (b / 16) ∷ upper_digit (b % 16) ∷ print_rest bs

abbrev pub print_fingerprint : List ℕ → List ℕ
print_fingerprint [] = []
print_fingerprint (b ∷ bs) = upper_digit (b / 16) ∷ upper_digit (b % 16) ∷ print_rest bs

lower_digit : ℕ → ℕ
lower_digit d = if ltb d 10 then 48 + d else 87 + d

clean_digit : (d : ℕ) (cs : List ℕ) → d < 16 → clean (upper_digit d ∷ cs) ≡ lower_digit d ∷ clean cs
unfolding clean lower_digit
clean_digit d cs h = ground arith

from_hex_char_digit : (d : ℕ) → d < 16 → from_hex_char (lower_digit d) ≡ some d
unfolding from_hex_char lower_digit
from_hex_char_digit d h = ground arith

-- A byte from its two digits.
decode_byte :
    (b : ℕ) (cs : List ℕ) (bytes : List ℕ)
    → b < 256
    → decode_string cs ≡ some bytes
    → decode_string (lower_digit (b / 16) ∷ lower_digit (b % 16) ∷ cs) ≡ some (b ∷ bytes)
unfolding decode_string
decode_byte b cs bytes h e =
    let hi : b / 16 < 16 = omega arith in
    let lo : b % 16 < 16 = omega arith in
    let whole : b / 16 * 16 + b % 16 ≡ b = omega arith in
    rw (decode_string, from_hex_char_digit (b / 16) hi, from_hex_char_digit (b % 16) lo, e, whole)
      refl

clean_byte :
    (b : ℕ) (cs : List ℕ)
    → b < 256
    → clean (upper_digit (b / 16) ∷ upper_digit (b % 16) ∷ cs)
      ≡ lower_digit (b / 16) ∷ lower_digit (b % 16) ∷ clean cs
clean_byte b cs h =
    clean_digit (b / 16) (upper_digit (b % 16) ∷ cs) (omega arith)
    ∙ ap (λ l. lower_digit (b / 16) ∷ l) (clean_digit (b % 16) cs (omega arith))

decode_rest :
    (bs : List ℕ) → All (λ b. b < 256) bs → decode_string (clean (print_rest bs)) ≡ some bs
unfolding clean decode_string
decode_rest [] h = refl
decode_rest (b ∷ bs) h =
    ap decode_string (clean_byte b (print_rest bs) h.0)
    ∙ decode_byte b (clean (print_rest bs)) bs h.0 (decode_rest bs h.1)

decode_fingerprint :
    (bs : List ℕ) → All (λ b. b < 256) bs → decode_string (clean (print_fingerprint bs)) ≡ some bs
unfolding clean decode_string
decode_fingerprint [] h = refl
decode_fingerprint (b ∷ bs) h =
    ap decode_string (clean_byte b (print_rest bs) h.0)
    ∙ decode_byte b (clean (print_rest bs)) bs h.0 (decode_rest bs h.1)

fits_size : (digest : List ℕ) → length digest ≡ sha256_size → check_size (some digest) ≡ ok digest
unfolding check_size
fits_size digest size = rw (check_size, size) refl

-- A fingerprint as openssl prints it is read back as the digest that it was printed from: 32 bytes,
-- each of two digits in capitals, with colons between.
pub parse_pin-print_fingerprint :
    (s : String) (digest : List ℕ)
    → codes s ≡ print_fingerprint digest
    → All (λ b. b < 256) digest
    → length digest ≡ sha256_size
    → parse_pin s ≡ ok digest
unfolding parse_pin check_size
parse_pin-print_fingerprint s digest printed bytes size =
    ap (λ cs. check_size (decode_string (clean cs))) printed
    ∙ ap check_size (decode_fingerprint digest bytes)
    ∙ fits_size digest size

-- A digest of the right length stands in both callbacks, or Go verifies, or the options say not to.
abbrev pub IsVerified : {P : Type 0} → TlsOptions → Verification P → Type 0
IsVerified o v =
    ((want : List ℕ) × ((v.verify_peer ≡ some want)
        × (v.verify_connection ≡ some want)
        × (length want ≡ sha256_size)))
    ⊎ ((v.insecure_skip_verify ≡ false) ⊎ (o.skip_verify ≡ true))

sized : (o : Option (List ℕ)) (want : List ℕ) → check_size o ≡ ok want → length want ≡ sha256_size
unfolding check_size
sized none want e = ground arith
sized (some raw) want e = ground arith

module _ {P : Type 0} where
  with_pin_refused : (e : TlsError) (v : Verification P) → with_pin (err e) ≢ ok v
  unfolding with_pin
  with_pin_refused e v h = ground arith

  with_pin-IsVerified :
      (o : TlsOptions) (v : Verification P)
      → with_pin (parse_pin o.pinned_cert_sha256) ≡ ok v
      → IsVerified o v
  unfolding with_pin parse_pin
  with_pin-IsVerified o v e = elim (Result-cases (parse_pin o.pinned_cert_sha256)) [
    | inl (want, pinned) ↦
        let size = sized (decode_string (clean (codes o.pinned_cert_sha256))) want pinned in
        subst (IsVerified o)
          (ok_injective _ v (with_pin (parse_pin o.pinned_cert_sha256)) (ap with_pin pinned) e)
          (inl (want, (refl, refl, size)))
    | inr (bad, refused) ↦
        absurd (with_pin_refused bad v (subst (λ r. with_pin r ≡ ok v) refused e))
  ]

  with_ca-IsVerified :
      (o : TlsOptions) (file : String) (pool : Result String (Option P)) (v : Verification P)
      → with_ca file pool ≡ ok v
      → IsVerified o v
  unfolding with_ca
  with_ca-IsVerified o file (err x) v e = absurd (ground arith)
  with_ca-IsVerified o file (ok none) v e = absurd (ground arith)
  with_ca-IsVerified o file (ok (some p)) v e = inr (inl (ground arith))

  skip-IsVerified :
      (o : TlsOptions) (v : Verification P) (b : Bool)
      → o.skip_verify ≡ b
      → v.insecure_skip_verify ≡ b
      → IsVerified o v
  skip-IsVerified o v true e f = inr (inr e)
  skip-IsVerified o v false e f = inr (inl f)

  module _ (o : TlsOptions) (pool : Result String (Option P)) where
    the_pin :
        nonempty o.pinned_cert_sha256 ≡ true
        → nonempty o.ca_file ≡ false
        → build_tls_config o pool ≡ with_pin (parse_pin o.pinned_cert_sha256)
    unfolding build_tls_config
    the_pin pin no_ca = rw (build_tls_config, no_ca, pin) refl

    the_ca :
        nonempty o.pinned_cert_sha256 ≡ false
        → nonempty o.ca_file ≡ true
        → build_tls_config o pool ≡ with_ca o.ca_file pool
    unfolding build_tls_config
    the_ca no_pin ca = rw (build_tls_config, ca, no_pin) refl

    no_option :
        nonempty o.pinned_cert_sha256 ≡ false
        → nonempty o.ca_file ≡ false
        → build_tls_config o pool
          ≡ ok (record default_verification { insecure_skip_verify = o.skip_verify })
    unfolding build_tls_config
    no_option no_pin no_ca = rw (build_tls_config, no_ca, no_pin) refl

  -- A configuration that is built never leaves a switch unverified without being told to: a digest of
  -- the right length stands in the callback of a handshake and in the one that is also called for a
  -- resumed session, or Go verifies, or the options say to skip the verification.
  pub build_tls_config-IsVerified :
      (o : TlsOptions) (pool : Result String (Option P)) (v : Verification P)
      → build_tls_config o pool ≡ ok v
      → IsVerified o v
  unfolding build_tls_config
  build_tls_config-IsVerified o pool v e = elim (Bool-cases (nonempty o.pinned_cert_sha256)) [
    | inl pin ↦ elim (Bool-cases (nonempty o.ca_file)) [
      | inl ca ↦ absurd (ground arith)
      | inr no_ca ↦ with_pin-IsVerified o v (sym (the_pin o pool pin no_ca) ∙ e)
    ]
    | inr no_pin ↦ elim (Bool-cases (nonempty o.ca_file)) [
      | inl ca ↦ with_ca-IsVerified o o.ca_file pool v (sym (the_ca o pool no_pin ca) ∙ e)
      | inr no_ca ↦
          let same : record default_verification { insecure_skip_verify = o.skip_verify } ≡ v =
            ok_injective _ v (build_tls_config o pool) (no_option o pool no_pin no_ca) e in
          skip-IsVerified o v o.skip_verify refl
            (ap (λ (u : Verification P). u.insecure_skip_verify) (sym same))
    ]
  ]

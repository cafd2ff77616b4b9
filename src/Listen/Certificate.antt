-- ===== src/Listen/Certificate.antt =====
-- internal/listen/tls.go: the server's certificate, which is read again when its files change, and
-- the TLS configuration of the listener. A certificate is a type `C`. What the files are at a moment
-- is a Disk: what tls.LoadX509KeyPair gives for the pair and what two calls of os.Stat give. The lock
-- is left out: a handshake is one step.
pub mod Laws
mod Tests
use arex.Prelude.{
  ℕ, ◌*◌, ◌==◌, Bool, true, false, not, ◌&&◌, String, str_eq, nonempty, ◌+s◌, Option, none, some,
  Result, ok, err, if◌then◌else◌,
}
use arex.GoTime.{Time, Duration, second, since}
use arex.Prelude.Int.{ℤ, pos, leb_ℤ}

abbrev pub reload_interval : Duration
reload_interval = pos (30 * second)

-- The sizes of both files and the times of their last change.
pub record Stamp : Type 0 where
  pub cert_size : ℕ
  pub key_size : ℕ
  pub cert_mod : Time
  pub key_mod : Time

abbrev pub stamp_eq : Stamp → Stamp → Bool
stamp_eq s t =
    s.cert_size == t.cert_size
    && s.key_size == t.key_size
    && s.cert_mod == t.cert_mod
    && s.key_mod == t.key_mod

pub record Disk (C : Type 0) : Type 0 where
  pub pair : Result String C
  pub cert_stat : Result String (ℕ × Time)
  pub key_stat : Result String (ℕ × Time)

pub record Certificate (C : Type 0) : Type 0 where
  pub current : C
  pub stamp : Stamp
  pub checked : Time

unfoldable pub stamp_of : Result String (ℕ × Time) → Result String (ℕ × Time) → Result String Stamp
stamp_of (err e) key = err ("stat certificate: " +s e)
stamp_of (ok cert) (err e) = err ("stat key: " +s e)
stamp_of (ok (cert_size, cert_mod)) (ok (key_size, key_mod)) =
    ok (record {
      cert_size = cert_size;
      key_size = key_size;
      cert_mod = cert_mod;
      key_mod = key_mod;
    })

module _ {C : Type 0} where
  unfoldable pub stat : Disk C → Result String Stamp
  unfolding stamp_of
  stat d = stamp_of d.cert_stat d.key_stat

  -- What load stores: the pair as it is read, and the stamp of the files a moment later.
  unfoldable pub loaded :
      Result String C → Result String Stamp → Time → Result String (Certificate C)
  loaded (err e) s now = err ("load certificate: " +s e)
  loaded (ok cert) (err e) now = err e
  loaded (ok cert) (ok s) now = ok (record { current = cert; stamp = s; checked = now })

  unfoldable pub load : Disk C → Disk C → Time → Result String (Certificate C)
  unfolding stat loaded
  load at_read at_stat now = loaded at_read.pair (stat at_stat) now

  -- A failed load leaves the certificate as it was.
  unfoldable pub keep_on_error : Certificate C → Result String (Certificate C) → C × Certificate C
  keep_on_error c (err e) = (c.current, c)
  keep_on_error c (ok fresh) = (fresh.current, fresh)

  -- From the stamp that was found on.
  unfoldable pub get_changed :
      Certificate C → Result String Stamp → Result String (Certificate C) → C × Certificate C
  unfolding keep_on_error
  get_changed c (err e) fresh = (c.current, c)
  get_changed c (ok s) fresh = if stamp_eq s c.stamp then (c.current, c) else keep_on_error c fresh

  -- The certificate for a handshake at `now`: the files are looked at, read, and looked at again at
  -- three moments, the last of them at `done`.
  unfoldable pub get : Certificate C → Time → Disk C → Disk C → Disk C → Time → C × Certificate C
  unfolding get_changed stat load
  get c now at_check at_read at_stat done =
      if leb_ℤ reload_interval (since now c.checked)
      then get_changed (record c { checked = now }) (stat at_check) (load at_read at_stat done)
      else (c.current, c)

-- The Options of the listener, and what of the tls.Config is decided here: the certificate that
-- GetCertificate serves, and the pool that clients must verify against, if there is one.
pub record Options : Type 0 where
  pub cert_file : String
  pub key_file : String
  pub client_ca_file : String

pub record TlsConfig (C P : Type 0) : Type 0 where
  pub certificate : Certificate C
  pub client_cas : Option P

pub data Refused : Type 0 where
  ca_without_certificate : Refused
  not_loaded : String → Refused
  ca_not_read : String → Refused
  ca_has_none : String → Refused

module _ {C P : Type 0} where
  -- `pool` is what AppendCertsFromPEM makes of the file, none if it holds no certificate.
  unfoldable pub with_client_ca :
      String → Certificate C → Result String (Option P) → Result Refused (Option (TlsConfig C P))
  with_client_ca file cert (err e) = err (ca_not_read e)
  with_client_ca file cert (ok none) = err (ca_has_none file)
  with_client_ca file cert (ok (some pool)) =
      ok (some (record { certificate = cert; client_cas = some pool }))

  unfoldable pub with_certificate :
      Options
      → Result String (Certificate C)
      → Result String (Option P)
      → Result Refused (Option (TlsConfig C P))
  unfolding with_client_ca
  with_certificate o (err e) pool = err (not_loaded e)
  with_certificate o (ok cert) pool =
      if nonempty o.client_ca_file
      then with_client_ca o.client_ca_file cert pool
      else ok (some (record { certificate = cert; client_cas = none }))

  -- `none` for no TLS.
  unfoldable pub tls_config :
      Options
      → Disk C
      → Disk C
      → Time
      → Result String (Option P)
      → Result Refused (Option (TlsConfig C P))
  unfolding with_certificate load
  tls_config o at_read at_stat now pool =
      if not (nonempty o.cert_file) && not (nonempty o.key_file)
      then if nonempty o.client_ca_file then err ca_without_certificate else ok none
      else with_certificate o (load at_read at_stat now) pool

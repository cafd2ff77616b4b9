-- ===== src/Config/Validate.antt =====
-- applyDefaults and validate of config/config.go, and validateListen of config/listen.go. An error
-- stands for its text by what the text tells; a switch is told by its index.
pub mod Laws
pub mod Collected
use arex.Prelude.{
  ℕ, suc, ◌+◌, ◌*◌, ltb, Bool, true, false, not, ◌&&◌, ◌||◌, String, ◌+s◌, nonempty, str_eq, itoa,
  List, [], ◌∷◌, ◌++◌, length, is_empty, Option, none, some, is_some, Result, ok, err, ◌>>=◌, ◌>>◌,
  fail_if, if◌then◌else◌,
}
use arex.Prelude.Int.{pos, is_zero}
use arex.GoTime.{second, times}
use arex.Config.Types.{
  SwitchConfig, Config, ListenTls, ListenAuth, label, effective_password_file, listen_tls_enabled,
  requires_client_cert, listen_auth_enabled,
}
use arex.Config.Modules.{CollectError, validate_collect, scope_is_valid}
use arex.Config.LogLevel.{parse_log_level}
use arex.Config.Files.{
  FileSystem, FileError, Warning, clear_credentials, secret_mode_warning, check_password_file,
}

abbrev pub max_switches : ℕ
max_switches = 1000

abbrev pub reserved_target : String
reserved_target = "internal"

pub data ConfigError : Type 0 where
  global_skip_verify no_switches no_collect_block : ConfigError
  too_many_switches : ℕ → ConfigError
  bad_collect : CollectError → ConfigError
  unknown_log_level : String → ConfigError
  shared_probe_address half_certificate client_ca_alone half_basic_auth : ConfigError
  missing_file : String → String → ConfigError
  bad_password_file : FileError → ConfigError
  missing_host missing_username two_credentials no_credential reserved_name bad_scope :
      ℕ → ConfigError
  two_verifications skip_and_verify no_verification : ℕ → ConfigError

unfoldable pub apply_defaults : {W : Type 0} → Config W → Config W
apply_defaults c =
    let poll = if is_zero c.poll_interval then pos (30 * second) else c.poll_interval in
    record c {
      listen_address = if nonempty c.listen_address then c.listen_address else ":9100";
      poll_interval = poll;
      scrape_timeout = if is_zero c.scrape_timeout then pos (10 * second) else c.scrape_timeout;
      staleness_limit = if is_zero c.staleness_limit then times 3 poll else c.staleness_limit;
    }

-- An error of a part, as an error of the whole.
abbrev pub as_error : {E A : Type 0} → (E → ConfigError) → Result E A → Result ConfigError A
as_error f (ok a) = ok a
as_error f (err e) = err (f e)

-- The loop of validateListen over one of the three files; only the key is a secret.
unfoldable pub check_listen_file :
    FileSystem → Bool → String → String → Result ConfigError (List Warning)
check_listen_file fs is_key field path =
    if not (nonempty path) then ok [] else elim (fs.stat path) [
      | err e ↦ err (missing_file field e)
      | ok info ↦
          ok (if is_key then secret_mode_warning "config: listenTLS.keyFile" path info else [])
    ]

unfoldable pub check_listen_files : FileSystem → ListenTls → Result ConfigError (List Warning)
check_listen_files fs t = if not (listen_tls_enabled t) then ok [] else do
  cert ← check_listen_file fs false "certFile" t.cert_file
  key ← check_listen_file fs true "keyFile" t.key_file
  ca ← check_listen_file fs false "clientCAFile" t.client_ca_file
  ok (cert ++ key ++ ca)

unfoldable pub check_basic_auth : FileSystem → ListenAuth → Result ConfigError (List Warning)
check_basic_auth fs a = elim a.basic [
  | none ↦ ok []
  | some b ↦
      if not (nonempty b.username) || not (nonempty b.password_file)
      then err half_basic_auth
      else as_error bad_password_file (check_password_file fs b.password_file "listenAuth.basic")
]

unfoldable pub validate_listen : FileSystem → Config Warning → Result ConfigError (List Warning)
validate_listen fs c =
    let t = c.listen_tls in
    do
      fail_if (nonempty c.probe_address && str_eq c.probe_address c.listen_address)
          shared_probe_address
      fail_if
          (nonempty t.cert_file && not (nonempty t.key_file)
            || not (nonempty t.cert_file) && nonempty t.key_file)
          half_certificate
      fail_if (not (listen_tls_enabled t) && requires_client_cert t) client_ca_alone
      files ← check_listen_files fs t
      auth ← check_basic_auth fs c.listen_auth
      ok (
          files
          ++ auth
          ++ (if listen_auth_enabled c.listen_auth && not (listen_tls_enabled t)
              then clear_credentials ∷ []
              else []))

-- The credential of one switch.
unfoldable pub check_credential :
    FileSystem → String → ℕ → SwitchConfig → Result ConfigError (List Warning)
check_credential fs fleet_file i sw =
    let file = effective_password_file sw fleet_file in
    do
      fail_if (nonempty sw.password && nonempty sw.password_file) (two_credentials i)
      fail_if (not (nonempty sw.password) && not (nonempty file)) (no_credential i)
      if nonempty file
          then as_error bad_password_file
              (check_password_file fs file ("switch[" +s itoa i +s "] (" +s label sw +s ")"))
          else ok []

-- The way one switch is verified: exactly one is set.
unfoldable pub check_verification : ℕ → SwitchConfig → Result ConfigError (Unit {0})
check_verification i sw =
    if nonempty sw.ca_file && nonempty sw.pinned_cert_sha256
    then err (two_verifications i)
    else if sw.tls_skip_verify && (nonempty sw.ca_file || nonempty sw.pinned_cert_sha256)
    then err (skip_and_verify i)
    else if nonempty sw.ca_file || nonempty sw.pinned_cert_sha256 || sw.tls_skip_verify
    then ok tt
    else err (no_verification i)

-- The body of the loop of validate over the switches.
unfoldable pub validate_switch :
    FileSystem → Config Warning → ℕ → SwitchConfig → Result ConfigError (List Warning)
validate_switch fs c i sw = do
  fail_if (not (nonempty sw.host)) (missing_host i)
  fail_if (not (nonempty sw.username)) (missing_username i)
  warnings ← check_credential fs c.password_file i sw
  fail_if (str_eq (label sw) reserved_target) (reserved_name i)
  as_error bad_collect (
      validate_collect sw.collect ("switch[" +s itoa i +s "] (" +s label sw +s ")") c.poll_interval)
  fail_if (not (scope_is_valid sw.interface_scope)) (bad_scope i)
  check_verification i sw
  ok warnings

unfoldable pub validate_switches :
    FileSystem → Config Warning → ℕ → List SwitchConfig → Result ConfigError (List Warning)
validate_switches fs c i [] = ok []
validate_switches fs c i (sw ∷ rest) =
    let later = validate_switches fs c (suc i) rest in
    do warnings ← validate_switch fs c i sw; more ← later; ok (warnings ++ more)

unfoldable pub validate_collect_block : Config Warning → Result ConfigError (Unit {0})
validate_collect_block c = elim c.collect [
  | none ↦ err no_collect_block
  | some set ↦ as_error bad_collect (validate_collect set "collect" c.poll_interval)
]

-- The configuration that is returned has the warnings added.
unfoldable pub validate : FileSystem → Config Warning → Result ConfigError (Config Warning)
validate fs c = do
  fail_if (is_some c.tls_skip_verify) global_skip_verify
  fail_if (is_empty c.switches) no_switches
  fail_if (ltb max_switches (length c.switches)) (too_many_switches (length c.switches))
  validate_collect_block c
  fail_if (nonempty c.log_level && not (is_some (parse_log_level c.log_level)))
      (unknown_log_level c.log_level)
  listen ← validate_listen fs c
  switches ← validate_switches fs c 0 c.switches
  ok (record c { warnings = c.warnings ++ listen ++ switches })

-- From the decoded file on: Load.
unfoldable pub load : FileSystem → Config Warning → Result ConfigError (Config Warning)
load fs c = validate fs (apply_defaults c)

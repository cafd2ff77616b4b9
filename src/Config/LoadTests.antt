-- ===== src/Config/LoadTests.antt =====
-- Loading a configuration at concrete values: two switches, and a password file.
use arex.Prelude.{itoa, ◌≡◌, refl, Bool, true, false, [], ◌∷◌, Memᴰ, none, some, Result, ok, err}
use arex.Prelude.Int.{pos, negsuc, ◌≤ℤ◌}
use arex.GoTime.{Duration}
use arex.Config.Types.{
  SwitchConfig, Config, label, effective_password_file, listen_tls_enabled, requires_client_cert,
  listen_auth_enabled,
}
use arex.Prelude.Assoc.{lookup, copy_over, insert}
use arex.Config.Modules.{
  validate_collect, scope_is_valid, is_known_key, effective_collect, resolve_all, resolve_interval,
}
use arex.Config.LogLevel.{parse_log_level, trimmed, drop_spaces, codes_eq}
use arex.Config.Files.{FileSystem, Warning, loose_mode, check_password_file, secret_mode_warning}
use arex.Config.Validate.{
  load, apply_defaults, validate, validate_listen, validate_switches, validate_switch,
  validate_collect_block, check_credential, check_verification, check_basic_auth,
  check_listen_files,
}
use arex.Config.Validate.Collected.{validate_collects_known}
use arex.Secret.{trim_line_end, read, new_file_credential, password_of}
use arex.Eapi.Tls.{default_verification, build_tls_config}
use arex.Config.Types.{tls_options}
use arex.Prelude.{ℕ, ◌+◌, String, Option}
use arex.Startup.Wiring.{
  BuiltClient, ClientOptions, credential_for, built, with_credential, new_client,
}
use arex.Startup.Wiring.Laws.{IsReady, new_client-IsReady}

abbrev readable : FileSystem
readable = record {
  stat = λ path. ok (record { is_dir = false; mode = 420; group_is_ours = false });
  read_file = λ path. ok "secret\n";
}

abbrev leaf : SwitchConfig
leaf = record {
  host = "https://10.0.0.1";
  username = "prometheus";
  password = "";
  password_file = "";
  name = "leaf1";
  fabric = "";
  tls_skip_verify = true;
  ca_file = "";
  pinned_cert_sha256 = "";
  collect = [];
  interface_scope = "Ethernet1-4";
}

abbrev with_interval : Duration → Config Warning
with_interval poll = record {
  listen_address = "";
  poll_interval = poll;
  scrape_timeout = pos 0;
  staleness_limit = pos 0;
  tls_skip_verify = none;
  debug = false;
  switches = leaf ∷ [];
  log_level = " Warn";
  probe_address = "";
  listen_tls = record { cert_file = ""; key_file = ""; client_ca_file = "" };
  listen_auth = record { basic = none };
  password_file = "/run/secrets/password";
  warnings = [];
  collect = some [];
}

abbrev loaded : Config Warning
loaded = record (apply_defaults (with_interval (pos 0))) {
  warnings = loose_mode "config: switch[0] (leaf1): passwordFile" "/run/secrets/password" 420 ∷ [];
}

abbrev is_accepted : {E A : Type 0} → Result E A → Bool
is_accepted (ok a) = true
is_accepted (err e) = false

load_example : load readable (with_interval (pos 0)) ≡ ok loaded
unfolding load apply_defaults validate validate_listen validate_switches validate_switch
    validate_collect_block check_credential check_verification check_basic_auth check_listen_files
    parse_log_level trimmed drop_spaces codes_eq check_password_file secret_mode_warning label
    effective_password_file listen_tls_enabled requires_client_cert listen_auth_enabled
    validate_collect scope_is_valid trim_line_end itoa
load_example = refl

-- A negative interval is no less accepted.
negative_interval : is_accepted (load readable (with_interval (negsuc 4))) ≡ true
unfolding load apply_defaults validate validate_listen validate_switches validate_switch
    validate_collect_block check_credential check_verification check_basic_auth check_listen_files
    parse_log_level trimmed drop_spaces codes_eq check_password_file secret_mode_warning label
    effective_password_file listen_tls_enabled requires_client_cert listen_auth_enabled
    validate_collect scope_is_valid trim_line_end itoa
negative_interval = refl

-- The common block has a group that the switch does not mention.
abbrev with_ntp : Config Warning
with_ntp = record (apply_defaults (with_interval (pos 0))) {
  collect = some (("ntp", record { enabled = true; interval = pos 0 }) ∷ []);
}

abbrev loaded_ntp : Config Warning
loaded_ntp = record with_ntp {
  warnings = loose_mode "config: switch[0] (leaf1): passwordFile" "/run/secrets/password" 420 ∷ [];
}

ntp_accepted : validate readable with_ntp ≡ ok loaded_ntp
unfolding apply_defaults validate validate_listen validate_switches validate_switch
    validate_collect_block check_credential check_verification check_basic_auth check_listen_files
    parse_log_level trimmed drop_spaces codes_eq check_password_file secret_mode_warning label
    effective_password_file listen_tls_enabled requires_client_cert listen_auth_enabled
    validate_collect is_known_key scope_is_valid trim_line_end itoa
ntp_accepted = refl

validate_collects_known_example :
    (is_known_key "ntp" ≡ true) × (with_ntp.poll_interval ≤ℤ pos 60000000000)
unfolding effective_collect resolve_all resolve_interval lookup apply_defaults copy_over insert
validate_collects_known_example =
    validate_collects_known readable with_ntp loaded_ntp leaf
      (("ntp", record { enabled = true; interval = pos 0 }) ∷ []) "ntp"
      (record { enabled = true; interval = pos 60000000000 }) ntp_accepted (Memᴰ.head refl) refl tt
      (refl, tt) refl

-- The client of the one switch, on a file that is read once.
abbrev mounted : String → ℕ → ℕ × Result String String
mounted path w = (w + 1, ok "secret\n")

abbrev no_pool : SwitchConfig → Result String (Option ℕ)
no_pool sw = ok none

abbrev quiet_options : ClientOptions
quiet_options = record { stats = none; has_logger = true; debug = false }

abbrev made : BuiltClient ℕ
made = record {
  client = record {
    url = "https://10.0.0.1/command-api";
    username = "prometheus";
    timeout = pos 10000000000;
    cred = record { password = "secret"; path = "/run/secrets/password" };
    has_logger = true;
    debug = false;
    stats = none;
  };
  tls = record default_verification { insecure_skip_verify = true };
}

new_client-IsReady_example : IsReady leaf made
unfolding load new_client credential_for built with_credential build_tls_config tls_options
    new_file_credential read password_of trim_line_end effective_password_file apply_defaults
new_client-IsReady_example =
    new_client-IsReady mounted no_pool readable (apply_defaults (with_interval (pos 0))) loaded leaf
      quiet_options 0 made load_example (Memᴰ.head refl) refl

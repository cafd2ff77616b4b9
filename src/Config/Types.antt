-- ===== src/Config/Types.antt =====
-- The structs of config/config.go, config/module.go and config/listen.go. `Collect` of a Config is
-- an Option, since its nil map is told from an empty one; that of a SwitchConfig is not.
use arex.Prelude.{Bool, ◌&&◌, String, List, Option, nonempty, is_some, if◌then◌else◌}
use arex.Prelude.Assoc.{Map}
use arex.GoTime.{Duration}

pub record ModuleConfig : Type 0 where
  pub enabled : Bool
  pub interval : Duration

abbrev pub CollectSet : Type 0
CollectSet = Map ModuleConfig

pub record TlsOptions : Type 0 where
  pub skip_verify : Bool
  pub ca_file : String
  pub pinned_cert_sha256 : String

pub record SwitchConfig : Type 0 where
  pub host : String
  pub username : String
  pub password : String
  pub password_file : String
  pub name : String
  pub fabric : String
  pub tls_skip_verify : Bool
  pub ca_file : String
  pub pinned_cert_sha256 : String
  pub collect : CollectSet
  pub interface_scope : String

pub record ListenTls : Type 0 where
  pub cert_file : String
  pub key_file : String
  pub client_ca_file : String

pub record BasicAuth : Type 0 where
  pub username : String
  pub password_file : String

pub record ListenAuth : Type 0 where
  pub basic : Option BasicAuth

pub record Config (W : Type 0) : Type 0 where
  pub listen_address : String
  pub poll_interval : Duration
  pub scrape_timeout : Duration
  pub staleness_limit : Duration
  pub tls_skip_verify : Option Bool
  pub debug : Bool
  pub switches : List SwitchConfig
  pub log_level : String
  pub probe_address : String
  pub listen_tls : ListenTls
  pub listen_auth : ListenAuth
  pub password_file : String
  pub warnings : List W
  pub collect : Option CollectSet

unfoldable pub tls_options : SwitchConfig → TlsOptions
tls_options s = record {
  skip_verify = s.tls_skip_verify;
  ca_file = s.ca_file;
  pinned_cert_sha256 = s.pinned_cert_sha256;
}

unfoldable pub label : SwitchConfig → String
label s = if nonempty s.name then s.name else s.host

unfoldable pub effective_password_file : SwitchConfig → String → String
effective_password_file s fleet_default =
    if nonempty s.password
    then ""
    else if nonempty s.password_file
    then s.password_file
    else fleet_default

unfoldable pub listen_tls_enabled : ListenTls → Bool
listen_tls_enabled t = nonempty t.cert_file && nonempty t.key_file

unfoldable pub requires_client_cert : ListenTls → Bool
requires_client_cert t = nonempty t.client_ca_file

unfoldable pub listen_auth_enabled : ListenAuth → Bool
listen_auth_enabled a = is_some a.basic

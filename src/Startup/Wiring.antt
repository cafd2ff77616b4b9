-- ===== src/Startup/Wiring.antt =====
-- client.go, and what main.go builds of a configuration: the client of a switch, whether every client
-- can be built (checkConfig), and the authentication before the handlers (protect). Reading a file is
-- a function on the world `W`, a parameter, and so is what the CA file of a switch holds.
pub mod Laws
mod Tests
use arex.Prelude.{
  Bool, true, false, not, String, ◌+s◌, nonempty, List, [], ◌∷◌, Option, none, some, Result, ok,
  err, if◌then◌else◌,
}
use arex.GoTime.{Time}
use arex.Secret.{Credential, new_static_credential, new_file_credential}
use arex.Config.Types.{SwitchConfig, BasicAuth, Config, label, effective_password_file, tls_options}
use arex.Eapi.Stats.{Stats}
use arex.Eapi.Tls.{Verification, TlsError, build_tls_config}
use arex.Eapi.Client.{Client}
use arex.Listen.Auth.{AuthState, Allowed, Request, new_basic_auth, admit}

pub data StartError : Type 0 where
  bad_credential : String → String → StartError
  bad_tls : TlsError → StartError
  bad_basic_auth : String → StartError

-- A client, with how it verifies the switch.
pub record BuiltClient (P : Type 0) : Type 0 where
  pub client : Client
  pub tls : Verification P

-- The options that run gives a client.
pub record ClientOptions : Type 0 where
  pub stats : Option Stats
  pub has_logger : Bool
  pub debug : Bool

abbrev pub name_switch : SwitchConfig → Result String Credential → Result StartError Credential
name_switch sw (ok cred) = ok cred
name_switch sw (err e) = err (bad_credential (label sw) e)

module _ {W A : Type 0} (read_file : String → W → W × Result String String) where
  unfoldable pub credential_for : SwitchConfig → Config A → W → W × Result StartError Credential
  credential_for sw cfg w =
      let file = effective_password_file sw cfg.password_file in
      if not (nonempty file)
      then (w, ok (new_static_credential sw.password))
      else let (w', res) = new_file_credential read_file file w in (w', name_switch sw res)

module _ {P A : Type 0} where
  -- NewClient, with the credential among its options.
  unfoldable pub built :
      SwitchConfig
      → Config A
      → ClientOptions
      → Credential
      → Result TlsError (Verification P)
      → Result StartError (BuiltClient P)
  built sw cfg o cred (err e) = err (bad_tls e)
  built sw cfg o cred (ok tls) = ok (record {
    client = record {
      url = sw.host +s "/command-api";
      username = sw.username;
      timeout = cfg.scrape_timeout;
      cred = cred;
      has_logger = o.has_logger;
      debug = o.debug;
      stats = o.stats;
    };
    tls = tls;
  })

  unfoldable pub with_credential :
      SwitchConfig
      → Config A
      → ClientOptions
      → Result String (Option P)
      → Result StartError Credential
      → Result StartError (BuiltClient P)
  unfolding built
  with_credential sw cfg o pool (err e) = err e
  with_credential sw cfg o pool (ok cred) =
      built sw cfg o cred (build_tls_config (tls_options sw) pool)

module _ {W P A : Type 0} (read_file : String → W → W × Result String String)
    (pool : SwitchConfig → Result String (Option P)) where
  unfoldable pub new_client :
      SwitchConfig → Config A → ClientOptions → W → W × Result StartError (BuiltClient P)
  unfolding credential_for with_credential
  new_client sw cfg o w =
      let (w', cred) = credential_for read_file sw cfg w in
      (w', with_credential sw cfg o (pool sw) cred)

abbrev pub probe_paths : List String
probe_paths = "/livez" ∷ "/readyz" ∷ []

abbrev pub guarded_by :
    BasicAuth → Time → Result String Credential → Result StartError (Option AuthState)
guarded_by b now (err e) = err (bad_basic_auth e)
guarded_by b now (ok cred) = ok (some (new_basic_auth b.username cred now))

module _ {W A : Type 0} (read_file : String → W → W × Result String String) where
  -- `none` for no authentication.
  unfoldable pub protect : Config A → Time → W → W × Result StartError (Option AuthState)
  protect cfg now w = elim cfg.listen_auth.basic [
    | none ↦ (w, ok none)
    | some b ↦
        let (w', cred) = new_file_credential read_file b.password_file w in
        (w', guarded_by b now cred)
  ]

-- What the handler that protect returns lets through.
module _ {W : Type 0} (read_file : String → W → W × Result String String) where
  unfoldable pub let_through : Option AuthState → Request → W → Bool
  let_through none q w = true
  let_through (some a) q w = (admit read_file probe_paths a q w).allowed

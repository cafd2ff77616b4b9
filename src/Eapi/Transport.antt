-- ===== src/Eapi/Transport.antt =====
-- internal/eapi/transport.go: a failure of http.Client.Do as an error an operator can act on. A
-- Failure holds what errors.Is, errors.As and url.Parse answer about the failure; `duration_text`
-- is Duration.String. All of these are parameters.
use arex.Prelude.{
  Bool, true, false, ◌||◌, String, nonempty, Option, none, some, ◌+s◌, ◌==◌, if◌then◌else◌,
}
use arex.Prelude.{str_eq}
use Prim.Native.Char.{code}
use arex.Prelude.Int.{is_pos}
use arex.GoTime.{Duration}
use arex.Eapi.Error.{Err}

-- The parts of a request URL.
pub record Url : Type 0 where
  pub hostname : String
  pub port : String
  pub scheme : String

pub record Failure : Type 0 where
  pub text : String
  -- The *url.Error, if there is one: its URL, if it parses, and the text of its cause.
  pub request_url : Option Url
  pub inner_text : Option String
  pub dns_error : Bool
  pub timeout : Bool
  pub connection_refused : Bool
  pub host_unreachable : Bool
  pub network_unreachable : Bool
  pub hostname_error : Bool
  pub certificate_expired : Bool
  pub unknown_authority : Bool
  pub certificate_invalid : Bool
  pub connection_reset : Bool
  pub eof : Bool
  pub unexpected_eof : Bool

abbrev pub has_prefix : String → String → Bool
has_prefix String.[] s = true
has_prefix (String.◌∷◌ a p) String.[] = false
has_prefix (String.◌∷◌ a p) (String.◌∷◌ b s) =
    let rest = has_prefix p s in if code a == code b then rest else false

-- strings.Contains
unfoldable pub contains : String → String → Bool
contains part String.[] = has_prefix part ""
contains part (String.◌∷◌ c s) =
    let later = contains part s in has_prefix part (String.◌∷◌ c s) || later

abbrev or_text : String → String → String
or_text s default = if nonempty s then s else default

unfoldable pub endpoint : Failure → String × String
endpoint f = elim f.request_url [
  | none ↦ ("the switch", "443")
  | some u ↦ (
    or_text u.hostname "the switch",
    or_text u.port (if str_eq u.scheme "http" then "80" else "443"),
  )
]

unfoldable pub within : (Duration → String) → Duration → String
within duration_text timeout = if is_pos timeout then " within " +s duration_text timeout else ""

unfoldable pub cause : Failure → String
cause f = elim f.inner_text [ some s ↦ s | none ↦ f.text ]

unfoldable pub is_idle_close : Failure → Bool
unfolding contains
is_idle_close f = contains "server closed idle connection" f.text

unfoldable pub is_untrusted_certificate : Failure → Bool
is_untrusted_certificate f = f.unknown_authority || f.certificate_invalid

unfoldable pub transport_error : (Duration → String) → Failure → Duration → Err
transport_error duration_text f timeout =
    let (host, port) = endpoint f in
    Err.transport (
      if f.dns_error
      then "cannot resolve \"" +s host +s "\": check DNS, or configure the switch by address"
      else if f.timeout
      then "no response from "
        +s host
        +s within duration_text timeout
        +s ": check routing and firewall rules to TCP "
        +s port
        +s ", and that the switch is reachable from this host"
      else if f.connection_refused
      then host +s " refused the connection on TCP " +s port
        +s ": check that eAPI is enabled and listening, including inside the management VRF"
      else if f.host_unreachable || f.network_unreachable
      then "no route to " +s host
        +s ": check routing from this host, and that the management VRF has a path to the switch"
      else if f.hostname_error
      then "the certificate presented by " +s host
        +s " is for a different name: check the switch's eAPI certificate, or connect using a name it covers"
      else if f.certificate_expired
      then "the certificate presented by " +s host
        +s " has expired: renew the switch's eAPI certificate"
      else if is_untrusted_certificate f
      then host
        +s " presented a certificate we do not trust: set caFile to the CA that signed it, or pinnedCertSha256 to the certificate itself"
      else if f.connection_reset || f.eof || f.unexpected_eof
      then host +s " closed the connection before responding"
      else if is_idle_close f
      then host
        +s " closed the connection it was holding open: harmless once, but check for an idle timeout on the switch if it repeats"
      else cause f)

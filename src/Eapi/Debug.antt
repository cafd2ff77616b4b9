-- ===== src/Eapi/Debug.antt =====
-- internal/eapi/debug.go and tlsver.go: the debug record of one request, that is what is known of it
-- and the attributes that are logged of that. Of a logger, what is attached to it is modelled; what
-- every record of log/slog has besides (time, level and message) is left out.
pub mod Laws
mod Tests
use arex.Prelude.{
  ℕ, ◌+◌, ◌*◌, ◌/◌, ◌==◌, Bool, true, false, not, String, nonempty, join, List, [], ◌∷◌, ◌++◌,
  length, Option, none, some, is_empty, leb, suc, if◌then◌else◌,
}
use arex.Prelude.Int.{ℤ, pos, negsuc, sub_ℕ, is_zero}
use arex.GoTime.{Time, Duration, since}

-- listCmdsUpTo
abbrev pub list_cmds_up_to : ℕ
list_cmds_up_to = 3

pub record RequestLog : Type 0 where
  pub method : String
  pub path : String
  pub cmds : List String
  pub start : Time
  pub status : ℕ
  pub proto : String
  pub req_bytes : ℕ
  pub resp_bytes : ℕ
  pub reused : Bool
  pub got_conn : Bool
  pub tls : String
  pub eapi_code : ℤ
  pub eapi_message : String
  pub eapi_data : List String
  pub failure : Option String

-- The versions of crypto/tls are 0x0301 to 0x0304.
unfoldable pub tls_version_name : ℕ → String
tls_version_name v =
    if v == 772
    then "1.3"
    else if v == 771
    then "1.2"
    else if v == 770
    then "1.1"
    else if v == 769
    then "1.0"
    else "unknown"

-- The callbacks of trace: on a connection, new or reused, and on a handshake.
unfoldable pub on_connection : Bool → RequestLog → RequestLog
on_connection is_reused r = record r { got_conn = true; reused = is_reused }

unfoldable pub on_handshake : ℕ → Option String → RequestLog → RequestLog
unfolding tls_version_name
on_handshake version none r = record r { tls = tls_version_name version }
on_handshake version (some e) r = r

-- What stands in the list of alternating keys and values.
pub data Any : Type 0 where
  text : String → Any
  number : ℤ → Any
  texts : List String → Any

-- `d.Milliseconds()`, which truncates toward zero.
unfoldable pub milliseconds : Duration → ℤ
milliseconds (pos n) = pos (n / 1000000)
milliseconds (negsuc n) = sub_ℕ 0 (suc n / 1000000)

abbrev pub result_attrs : Option String → RequestLog → List Any
result_attrs (some e) r = text "error" ∷ text e ∷ []
result_attrs none r =
    text "status" ∷ number (pos r.status) ∷ text "resp_bytes" ∷ number (pos r.resp_bytes) ∷ []

abbrev pub cause_attrs : RequestLog → List Any
cause_attrs r =
    if is_empty r.eapi_data then [] else text "eapi_cause" ∷ text (join "; " r.eapi_data) ∷ []

abbrev pub eapi_attrs : RequestLog → List Any
eapi_attrs r =
    text "eapi_error"
    ∷ number r.eapi_code
    ∷ text "eapi_message"
    ∷ text r.eapi_message
    ∷ cause_attrs r

-- attrs, as emit builds them at `now`.
unfoldable pub attrs : RequestLog → Time → List Any
unfolding milliseconds
attrs r now =
    (text "method"
      ∷ text r.method
      ∷ text "path"
      ∷ text r.path
      ∷ text "duration_ms"
      ∷ number (milliseconds (since now r.start))
      ∷ text "cmds"
      ∷ number (pos (length r.cmds))
      ∷ text "req_bytes"
      ∷ number (pos r.req_bytes)
      ∷ [])
    ++ (if leb (length r.cmds) list_cmds_up_to then text "commands" ∷ texts r.cmds ∷ [] else [])
    ++ result_attrs r.failure r
    ++ (if nonempty r.proto then text "proto" ∷ text r.proto ∷ [] else [])
    ++ (if r.got_conn then text "conn" ∷ text (if r.reused then "reused" else "new") ∷ [] else [])
    ++ (if nonempty r.tls then text "tls" ∷ text r.tls ∷ [] else [])
    ++ (if is_zero r.eapi_code then [] else eapi_attrs r)

-- A key that is no text reads as the empty one.
abbrev pub key_of : Any → String
key_of (text k) = k
key_of _ = ""

-- attrsOf: the pairs; a key without a value is dropped.
unfoldable pub attrs_of : List Any → List (String × Any)
attrs_of [] = []
attrs_of (k ∷ []) = []
attrs_of (k ∷ v ∷ rest) = (key_of k, v) ∷ attrs_of rest

-- A slog.Logger, as the attributes that With has attached to it: its handler puts them first.
abbrev pub Logger : Type 0
Logger = List (String × Any)

-- `logger.With("switch", name)`
abbrev pub with_switch : Logger → String → Logger
with_switch logger name = logger ++ (("switch", text name) ∷ [])

-- What the two options of debug.go set of a Client.
pub record Logging : Type 0 where
  pub logger : Option Logger
  pub debug : Bool

unfoldable pub with_logging : String → Logger → Logging → Logging
with_logging name logger c = record c { logger = some (with_switch logger name) }

unfoldable pub with_debug : String → Logger → Logging → Logging
with_debug name logger c = record { logger = some (with_switch logger name); debug = true }

-- The attributes of the record that emit logs, on a logger.
unfoldable pub emit : Logger → RequestLog → Time → List (String × Any)
unfolding attrs attrs_of
emit logger r now = logger ++ attrs_of (attrs r now)

-- The records at debug of one request, which attempt asks for with `if c.debug`.
abbrev pub on_logger : Option Logger → RequestLog → Time → List (List (String × Any))
on_logger none r now = []
on_logger (some logger) r now = emit logger r now ∷ []

unfoldable pub debug_records : Logging → RequestLog → Time → List (List (String × Any))
unfolding emit
debug_records c r now = if c.debug then on_logger c.logger r now else []

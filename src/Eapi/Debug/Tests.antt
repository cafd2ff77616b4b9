-- ===== src/Eapi/Debug/Tests.antt =====
-- The record of a request of one command that was answered.
use arex.Prelude.{List, ◌+◌, ◌*◌, ◌≡◌, refl, false, String, [], ◌∷◌, none}
use arex.Prelude.Int.{pos}
use arex.Prelude.Within.{Within}
use arex.GoTime.{second, since, saturate64}
use arex.Eapi.Debug.{
  Logging, with_logging, with_debug, debug_records, RequestLog, Any, text, number, texts,
  tls_version_name, on_connection, on_handshake, milliseconds, attrs, attrs_of, emit,
}
use arex.Eapi.Debug.Laws.{debug_keys, keys_of, debug_records-Within}

abbrev sent : RequestLog
sent = record {
  method = "POST";
  path = "/command-api";
  cmds = "show version" ∷ [];
  start = 5;
  status = 200;
  proto = "HTTP/1.1";
  req_bytes = 90;
  resp_bytes = 700;
  reused = false;
  got_conn = false;
  tls = "";
  eapi_code = pos 0;
  eapi_message = "";
  eapi_data = [];
  failure = none;
}

abbrev traced : RequestLog
traced = on_handshake 772 none (on_connection false sent)

-- As run sets a client up.
abbrev with_info : Logging
with_info = with_logging "leaf1" [] (record { logger = none; debug = false })

traced_attributes :
    emit [] traced (5 + 2 * second)
    ≡ ("method", text "POST")
      ∷ ("path", text "/command-api")
      ∷ ("duration_ms", number (pos 2000))
      ∷ ("cmds", number (pos 1))
      ∷ ("req_bytes", number (pos 90))
      ∷ ("commands", texts ("show version" ∷ []))
      ∷ ("status", number (pos 200))
      ∷ ("resp_bytes", number (pos 700))
      ∷ ("proto", text "HTTP/1.1")
      ∷ ("conn", text "new")
      ∷ ("tls", text "1.3")
      ∷ []
unfolding emit attrs attrs_of milliseconds on_handshake on_connection tls_version_name since
    saturate64
traced_attributes = refl

debug_records-Within_example :
    (logged : List (String × Any)) × ((debug_records
          (with_debug "leaf1" [] with_info)
          traced
          (5 + 2 * second)
        ≡ logged ∷ [])
      × Within (keys_of logged) ("switch" ∷ debug_keys))
debug_records-Within_example = debug_records-Within "leaf1" with_info traced (5 + 2 * second)

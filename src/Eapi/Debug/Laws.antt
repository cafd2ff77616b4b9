-- ===== src/Eapi/Debug/Laws.antt =====
-- The debug record of internal/eapi/debug.go: what it may say.
use arex.Prelude.{
  ◌≡◌, refl, Bool, true, false, String, List, [], ◌∷◌, ◌++◌, map, Option, none, some, nonempty,
  is_empty, leb, length, if◌then◌else◌,
}
use arex.Prelude.Int.{is_zero}
use arex.Prelude.Within.{Within, both_end, kept, left_out}
use arex.GoTime.{Time}
use arex.Eapi.Debug.{
  Logging, with_switch, with_debug, debug_records, RequestLog, Any, text, list_cmds_up_to,
  result_attrs, eapi_attrs, attrs, attrs_of, emit,
}

-- The keys that a record may have, in their order.
abbrev pub debug_keys : List String
debug_keys =
    ("method" ∷ "path" ∷ "duration_ms" ∷ "cmds" ∷ "req_bytes" ∷ [])
    ++ ("commands" ∷ [])
    ++ ("error" ∷ "status" ∷ "resp_bytes" ∷ [])
    ++ ("proto" ∷ [])
    ++ ("conn" ∷ [])
    ++ ("tls" ∷ [])
    ++ ("eapi_error" ∷ "eapi_message" ∷ "eapi_cause" ∷ [])

-- The list alternates between some of the keys, in their order, and values.
data Alternates : List Any → List String → Type 0 where
  ended : Alternates [] []
  given :
      (k : String) (v : Any) {kv : List Any} {ks : List String}
      → Alternates kv ks
      → Alternates (text k ∷ v ∷ kv) (k ∷ ks)
  not_given :
      (k : String) {kv : List Any} {ks : List String} → Alternates kv ks → Alternates kv (k ∷ ks)

Alternates-append :
    {kv kv' : List Any} {ks ks' : List String}
    → Alternates kv ks
    → Alternates kv' ks'
    → Alternates (kv ++ kv') (ks ++ ks')
Alternates-append ended q = q
Alternates-append (given k v p) q = given k v (Alternates-append p q)
Alternates-append (not_given k p) q = not_given k (Alternates-append p q)

Alternates-nil : (ks : List String) → Alternates [] ks
Alternates-nil [] = ended
Alternates-nil (k ∷ ks) = not_given k (Alternates-nil ks)

Alternates-if :
    (b : Bool) (k : String) (v : Any) → Alternates (if b then text k ∷ v ∷ [] else []) (k ∷ [])
Alternates-if true k v = given k v ended
Alternates-if false k v = not_given k ended

attrs_of-Within :
    {kv : List Any} {ks : List String}
    → Alternates kv ks
    → Within (map (λ (a : String × Any). a.0) (attrs_of kv)) ks
unfolding attrs_of
attrs_of-Within ended = both_end
attrs_of-Within (given k v p) = kept k (attrs_of-Within p)
attrs_of-Within (not_given k p) = left_out k (attrs_of-Within p)

result_attrs-Alternates :
    (o : Option String) (r : RequestLog)
    → Alternates (result_attrs o r) ("error" ∷ "status" ∷ "resp_bytes" ∷ [])
result_attrs-Alternates (some e) r = given _ _ (not_given _ (not_given _ ended))
result_attrs-Alternates none r = not_given _ (given _ _ (given _ _ ended))

cause-Alternates :
    (none_given : Bool) (v : Any)
    → Alternates (if none_given then [] else text "eapi_cause" ∷ v ∷ []) ("eapi_cause" ∷ [])
cause-Alternates true v = not_given _ ended
cause-Alternates false v = given _ _ ended

eapi_attrs-Alternates :
    (succeeded : Bool) (r : RequestLog)
    → Alternates
        (if succeeded then [] else eapi_attrs r)
        ("eapi_error" ∷ "eapi_message" ∷ "eapi_cause" ∷ [])
eapi_attrs-Alternates true r = Alternates-nil _
eapi_attrs-Alternates false r = given _ _ (given _ _ (cause-Alternates (is_empty r.eapi_data) _))

attrs-Alternates : (r : RequestLog) (now : Time) → Alternates (attrs r now) debug_keys
unfolding attrs
attrs-Alternates r now =
    Alternates-append
      (Alternates-append
        (Alternates-append
          (Alternates-append
            (Alternates-append
              (Alternates-append
                (given "method" _ (
                  given "path" _
                    (given "duration_ms" _ (given "cmds" _ (given "req_bytes" _ ended)))))
                (Alternates-if (leb (length r.cmds) list_cmds_up_to) "commands" _))
              (result_attrs-Alternates r.failure r))
            (Alternates-if (nonempty r.proto) "proto" _))
          (Alternates-if r.got_conn "conn" _))
        (Alternates-if (nonempty r.tls) "tls" _))
      (eapi_attrs-Alternates (is_zero r.eapi_code) r)

abbrev pub keys_of : List (String × Any) → List String
keys_of attributes = map (λ (a : String × Any). a.0) attributes

attached-Within :
    (name : String) (kv : List (String × Any)) (ks : List String)
    → Within (keys_of kv) ks
    → Within (keys_of (with_switch [] name ++ kv)) ("switch" ∷ ks)
attached-Within name kv ks p = kept "switch" p

-- WithDebug, on a logger to which nothing is attached, makes a request log one record at debug. It has
-- the key switch and each of fifteen others once at most, in their order, and no other attribute: none
-- for a header or a password. This holds whatever is known of the request, whatever options came
-- before.
pub debug_records-Within :
    (name : String) (before : Logging) (r : RequestLog) (now : Time)
    → (logged : List (String × Any)) × ((debug_records (with_debug name [] before) r now
          ≡ logged ∷ [])
        × Within (keys_of logged) ("switch" ∷ debug_keys))
unfolding debug_records with_debug emit
debug_records-Within name before r now = (
  emit (with_switch [] name) r now,
  (
    refl,
    attached-Within name (attrs_of (attrs r now)) debug_keys
        (attrs_of-Within (attrs-Alternates r now)),
  ),
)

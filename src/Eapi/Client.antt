-- ===== src/Eapi/Client.antt =====
-- internal/eapi/client.go: one request, and Run, which tries a second time after a rotated secret.
-- net/http, encoding/json, the clock and os.ReadFile are the record Http of functions on the world
-- `W`; a Reply is what they make of one POST. The detailed record of -debug is not modelled.
pub mod Laws
pub mod Counted
use arex.Prelude.{
  ℕ, ◌==◌, ◌/◌, ◌&&◌, Bool, true, false, not, String, ◌+s◌, List, [], ◌∷◌, ◌++◌, length, Option,
  none, some, Result, ok, err, if◌then◌else◌,
}
use arex.Prelude.Int.{ℤ, pos, pos_part}
use arex.GoTime.{Time, Duration, since}
use arex.Eapi.Error.{Err, status_error, is_unauthorized}
use arex.Eapi.Stats.{
  Outcome, success, eapi_error, http_error, RequestKey, Stats, Reload, rotated, unchanged, failed,
  record_request, record_reload, attempt_for,
}
use arex.Eapi.Transport.{Failure, transport_error}
use arex.Secret.{Credential, reload}

-- The body of a 200, with the number of bytes read.
pub data Body : Type 0 where
  undecodable : String → ℕ → Body
  rejected : ℤ → String → List (List String) → ℕ → Body
  results : List String → ℕ → Body

pub data Reply : Type 0 where
  -- http.NewRequest fails, and nothing is sent.
  not_created : String → Reply
  no_response : Failure → Reply
  response : ℕ → String → Body → Reply

pub record Http (W : Type 0) : Type 0 where
  -- The commands, the user and the password.
  pub post : List String → String → String → W → W × Reply
  pub clock : W → W × Time
  pub read_file : String → W → W × Result String String
  pub duration_text : Duration → String

pub record Client : Type 0 where
  pub url : String
  pub username : String
  pub timeout : Duration
  pub cred : Credential
  pub has_logger : Bool
  pub debug : Bool
  -- `none` where no Stats are attached.
  pub stats : Option Stats

pub data ClientLog : Type 0 where
  reload_failed : String → String → ClientLog
  credential_rotated : String → ClientLog
  request_successful : ℕ → ℕ → ClientLog

pub record Ran (W : Type 0) : Type 0 where
  pub world : W
  pub client : Client
  pub result : Result Err (List String)
  pub log : List ClientLog

-- The errors of all commands, in order.
unfoldable pub details : List (List String) → List String
details [] = []
details (d ∷ ds) = d ++ details ds

-- What attempt makes of a reply: the outcome, the bytes counted, the result.
unfoldable pub read_reply :
    (Duration → String) → Duration → Reply → Outcome × ℕ × Result Err (List String)
read_reply text timeout (not_created msg) =
    (success, 0, err (Err.plain ("create request: " +s msg)))
read_reply text timeout (no_response f) =
    (Outcome.transport_error, 0, err (transport_error text f timeout))
read_reply text timeout (response code status body) =
    if not (code == 200) then (http_error, 0, err (status_error code status)) else elim body [
      | undecodable msg n ↦
          (Outcome.transport_error, n, err (Err.plain ("decode response: " +s msg)))
      | rejected code msg data_errors n ↦
          (eapi_error, n, err (Err.command_error code msg (details data_errors)))
      | results raws n ↦ (success, n, ok raws)
    ]

-- Reading the clock for a record that is written only with `on`.
abbrev pub read_if : {W : Type 0} → Bool → (W → W × Time) → W → W × Time
read_if true clock w = clock w
read_if false clock w = (w, 0)

abbrev pub is_counted : Option Stats → Bool
is_counted none = false
is_counted (some s) = true

abbrev success_log : Bool → Result Err (List String) → ℕ → ℕ → List ClientLog
success_log on (err e) ms cmds = []
success_log true (ok raws) ms cmds = request_successful ms cmds ∷ []
success_log false (ok raws) ms cmds = []

abbrev is_ok : Result Err (List String) → Bool
is_ok (ok raws) = true
is_ok (err e) = false

abbrev pub count_request : Option Stats → RequestKey → ℕ → Duration → Option Stats
count_request none key n d = none
count_request (some s) key n d = some (record_request s key (pos n) d)

unfoldable pub count_reload : Client → Reload → Client
count_reload c r = elim c.stats [
  | none ↦ c
  | some s ↦ record c { stats = some (record_reload s r) }
]

module _ {W : Type 0} (h : Http W) where
  unfoldable pub attempt : Client → List String → W → Ran W
  attempt c cmds w =
      let (w1, start) = h.clock w in
      let (w2, log_start) = h.clock w1 in
      let (w3, reply) = h.post cmds c.username c.cred.password w2 in
      let (outcome, bytes, result) = read_reply h.duration_text c.timeout reply in
      let logged = is_ok result && c.has_logger && not c.debug in
      let (w4, at_log) = read_if logged h.clock w3 in
      let (w5, at_end) = read_if (is_counted c.stats) h.clock w4 in
      record {
        world = w5;
        client = record c {
          stats =
              count_request c.stats (record { outcome = outcome; attempt = attempt_for cmds }) bytes
                (since at_end start);
        };
        result = result;
        log = success_log logged result (pos_part (since at_log start) / 1000000) (length cmds);
      }

  unfoldable pub retry_after_rotation : Ran W → List String → Ran W
  retry_after_rotation first cmds =
      let c = first.client in
      let (w, cred, res) = reload h.read_file c.cred first.world in
      let c' = record c { cred = cred } in
      elim res [
        | err e ↦ record {
          world = w;
          client = count_reload c' failed;
          result = first.result;
          log = first.log ++ (reload_failed c.url e ∷ []);
        }
        | ok changed ↦
            let again = attempt (count_reload c' rotated) cmds w in
            if not changed
            then record {
              world = w;
              client = count_reload c' unchanged;
              result = first.result;
              log = first.log;
            }
            else record again { log = first.log ++ (credential_rotated c.url ∷ again.log) }
      ]

  unfoldable pub run : Client → List String → W → Ran W
  run c cmds w =
      let first = attempt c cmds w in
      elim first.result [
        | ok raws ↦ first
        | err e ↦ if not (is_unauthorized e) then first else retry_after_rotation first cmds
      ]

-- ===== src/Eapi/Stats.antt =====
-- internal/eapi/stats.go: the request counters of one switch. A map of counters is a function that
-- gives `none` on a key never counted; uint64 counters wrap.
use arex.Prelude.{
  ℕ, ◌+◌, ◌%◌, ◌^◌, ◌==◌, Bool, ◌&&◌, String, List, [], ◌∷◌, Option, none, some, if◌then◌else◌,
  flat_map,
}
use arex.Prelude.Int.{ℤ, pos, is_pos, pos_part}
use arex.GoTime.{Duration, add_duration}

pub data Outcome : Type 0 where
  success eapi_error http_error transport_error : Outcome

pub data Attempt : Type 0 where
  batch retry : Attempt

pub record RequestKey : Type 0 where
  pub outcome : Outcome
  pub attempt : Attempt

pub data Reload : Type 0 where
  rotated unchanged failed : Reload

abbrev outcome_index : Outcome → ℕ
outcome_index success = 0
outcome_index eapi_error = 1
outcome_index http_error = 2
outcome_index transport_error = 3

abbrev attempt_index : Attempt → ℕ
attempt_index batch = 0
attempt_index retry = 1

abbrev reload_index : Reload → ℕ
reload_index rotated = 0
reload_index unchanged = 1
reload_index failed = 2

abbrev pub key_eq : RequestKey → RequestKey → Bool
key_eq a b =
    outcome_index a.outcome == outcome_index b.outcome
    && attempt_index a.attempt == attempt_index b.attempt

abbrev pub reload_eq : Reload → Reload → Bool
reload_eq a b = reload_index a == reload_index b

pub record Stats : Type 0 where
  pub requests : RequestKey → Option ℕ
  pub resp_bytes : ℕ
  pub duration : Duration
  pub reloads : Reload → Option ℕ

abbrev pub zero_stats : Stats
zero_stats = record { requests = λ k. none; resp_bytes = 0; duration = pos 0; reloads = λ r. none }

abbrev pub count_or_zero : Option ℕ → ℕ
count_or_zero none = 0
count_or_zero (some n) = n

-- `m[k]++` on a uint64.
abbrev pub bump : Option ℕ → ℕ
bump o = (count_or_zero o + 1) % 2 ^ 64

unfoldable pub record_request : Stats → RequestKey → ℤ → Duration → Stats
record_request s key resp_bytes d = record s {
  requests = λ k. if key_eq k key then some (bump (s.requests key)) else s.requests k;
  resp_bytes =
      if is_pos resp_bytes then (s.resp_bytes + pos_part resp_bytes) % 2 ^ 64 else s.resp_bytes;
  duration = add_duration s.duration d;
}

unfoldable pub record_reload : Stats → Reload → Stats
record_reload s r = record s {
  reloads = λ k. if reload_eq k r then some (bump (s.reloads r)) else s.reloads k;
}

-- A call with one command is a retry.
unfoldable pub attempt_for : List String → Attempt
attempt_for (c ∷ []) = retry
attempt_for cmds = batch

abbrev pub outcome_text : Outcome → String
outcome_text success = "success"
outcome_text eapi_error = "eapi_error"
outcome_text http_error = "http_error"
outcome_text transport_error = "transport_error"

abbrev pub attempt_text : Attempt → String
attempt_text batch = "batch"
attempt_text retry = "retry"

abbrev pub reload_text : Reload → String
reload_text rotated = "rotated"
reload_text unchanged = "unchanged"
reload_text failed = "failed"

abbrev pub outcomes : List Outcome
outcomes = success ∷ eapi_error ∷ http_error ∷ transport_error ∷ []

abbrev pub reloads : List Reload
reloads = rotated ∷ unchanged ∷ failed ∷ []

-- Every key that a map of the requests can have.
abbrev pub request_keys : List RequestKey
request_keys =
    flat_map
      (λ (o : Outcome).
        record { outcome = o; attempt = batch } ∷ record { outcome = o; attempt = retry } ∷ [])
      outcomes

-- The keys counted so far, with their counts: what maps.Copy copies.
abbrev pub counted : {K : Type 0} → (K → Option ℕ) → List K → List (K × ℕ)
counted count [] = []
counted count (k ∷ ks) =
    let rest = counted count ks in elim (count k) [ none ↦ rest | some n ↦ (k, n) ∷ rest ]

pub record StatsSnapshot (F : Type 0) : Type 0 where
  pub requests : List (RequestKey × ℕ)
  pub response_bytes : ℕ
  pub duration_seconds : F
  pub reloads : List (Reload × ℕ)

-- `seconds` is Duration.Seconds.
unfoldable pub snapshot : {F : Type 0} → (Duration → F) → Stats → StatsSnapshot F
snapshot seconds s = record {
  requests = counted s.requests request_keys;
  response_bytes = s.resp_bytes;
  duration_seconds = seconds s.duration;
  reloads = counted s.reloads reloads;
}

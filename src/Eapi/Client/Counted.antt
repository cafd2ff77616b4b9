-- ===== src/Eapi/Client/Counted.antt =====
-- What Run of internal/eapi/client.go counts of the requests that it makes.
use arex.Prelude.{
  ℕ, suc, ◌+◌, ◌<◌, ◌^◌, ◌≡◌, refl, ◌∙◌, ap, true, String, List, Option, none, some, arith,
  if◌then◌else◌, Bool-cases, Option-cases, Result-cases, inl, inr,
}
use arex.GoTime.{Duration}
use arex.Prelude.Int.{ℤ}
use arex.Eapi.Error.{is_unauthorized}
use arex.Eapi.Stats.{
  Outcome, success, eapi_error, http_error, Attempt, batch, retry, Stats, Reload, RequestKey,
  record_request, record_reload, count_or_zero,
}
use arex.Eapi.Client.{
  Http, Client, Ran, Reply, not_created, no_response, response, attempt, retry_after_rotation, run,
  count_reload, is_counted, count_request,
}
use arex.Eapi.Client.Laws.{Counts, reply_of, second_reply, is_second_try, is_rotated, run_requests}
use arex.Secret.{reload}

-- The requests that are counted, over all series.
abbrev pub total : Stats → ℕ
total s =
    let of : Outcome → Attempt → ℕ =
      λ o a. count_or_zero (s.requests (record { outcome = o; attempt = a })) in
    of success batch
    + of success retry
    + of eapi_error batch
    + of eapi_error retry
    + of http_error batch
    + of http_error retry
    + of Outcome.transport_error batch
    + of Outcome.transport_error retry

abbrev pub counted : Option Stats → ℕ
counted none = 0
counted (some s) = total s

total_record :
    (s : Stats) (o : Outcome) (a : Attempt) (n : ℤ) (d : Duration)
    → total s + 1 < 2 ^ 64
    → total (record_request s (record { outcome = o; attempt = a }) n d) ≡ suc (total s)
unfolding record_request
total_record s success batch n d small = ground arith
total_record s success retry n d small = ground arith
total_record s eapi_error batch n d small = ground arith
total_record s eapi_error retry n d small = ground arith
total_record s http_error batch n d small = ground arith
total_record s http_error retry n d small = ground arith
total_record s Outcome.transport_error batch n d small = ground arith
total_record s Outcome.transport_error retry n d small = ground arith

counted-count_request :
    (stats : Option Stats) (o : Outcome) (a : Attempt) (n : ℕ) (d : Duration)
    → is_counted stats ≡ true
    → counted stats + 1 < 2 ^ 64
    → counted (count_request stats (record { outcome = o; attempt = a }) n d) ≡ suc (counted stats)
counted-count_request none o a n d on small = ground arith
counted-count_request (some s) o a n d on small = total_record s o a _ d small

count_request_on :
    (stats : Option Stats) (key : RequestKey) (n : ℕ) (d : Duration)
    → is_counted (count_request stats key n d) ≡ is_counted stats
count_request_on none key n d = refl
count_request_on (some s) key n d = refl

count_reload-counted :
    (c : Client) (r : Reload)
    → (counted (count_reload c r).stats ≡ counted c.stats)
      × (is_counted (count_reload c r).stats ≡ is_counted c.stats)
unfolding count_reload record_reload
count_reload-counted c r = elim (Option-cases c.stats) [
  | inl e ↦ rw (e, count_reload) (ap counted e, ap is_counted e)
  | inr (s, e) ↦ rw (e, count_reload) (refl, refl)
]

module _ {W : Type 0} (h : Http W) where
  attempt_counted :
      (c : Client) (cmds : List String) (w : W)
      → is_counted c.stats ≡ true
      → counted c.stats + 1 < 2 ^ 64
      → counted (attempt h c cmds w).client.stats ≡ suc (counted c.stats)
  unfolding attempt
  attempt_counted c cmds w on small = counted-count_request c.stats _ _ _ _ on small

  attempt_counted_on :
      (c : Client) (cmds : List String) (w : W)
      → is_counted (attempt h c cmds w).client.stats ≡ is_counted c.stats
  unfolding attempt
  attempt_counted_on c cmds w = count_request_on c.stats _ _ _

  -- A second try counts one more.
  retry_counted :
      (first : Ran W) (cmds : List String)
      → is_counted first.client.stats ≡ true
      → counted first.client.stats + 1 < 2 ^ 64
      → counted (retry_after_rotation h first cmds).client.stats
        ≡ counted first.client.stats
          + (if is_rotated (reload h.read_file first.client.cred first.world).2 then 1 else 0)
  unfolding retry_after_rotation
  retry_counted first cmds on small =
      let c = first.client in
      let (w, cred, res) = reload h.read_file c.cred first.world in
      let with_cred = record c { cred = cred } in
      let again = count_reload with_cred Reload.rotated in
      let rotated_one = count_reload-counted with_cred Reload.rotated in
      elim (Result-cases res) [
        | inl (changed, e) ↦ elim (Bool-cases changed) [
          | inl fresh ↦
              let second =
                attempt_counted again cmds w (rotated_one.1 ∙ on) (omega (arith, rotated_one.0)) in
              rw (e, retry_after_rotation, fresh) (omega (arith, second, rotated_one.0))
          | inr kept ↦
              rw (e, retry_after_rotation, kept)
                (omega (arith, (count_reload-counted with_cred Reload.unchanged).0))
        ]
        | inr (x, e) ↦
            rw (e, retry_after_rotation)
              (omega (arith, (count_reload-counted with_cred Reload.failed).0))
      ]

  -- A Run counts one, and one more for a second try.
  tries_counted :
      (c : Client) (cmds : List String) (w : W)
      → is_counted c.stats ≡ true
      → counted c.stats + 2 < 2 ^ 64
      → counted (run h c cmds w).client.stats
        ≡ counted c.stats + 1 + (if is_second_try h c cmds w then 1 else 0)
  unfolding run
  tries_counted c cmds w on small =
      let first = attempt h c cmds w in
      let one = attempt_counted c cmds w on (omega (arith, small)) in
      elim (Result-cases first.result) [
        | inl (raws, e) ↦ rw (e, run, is_second_try) (omega (arith, one))
        | inr (x, e) ↦ elim (Bool-cases (is_unauthorized x)) [
          | inl login ↦
              let still_on = attempt_counted_on c cmds w ∙ on in
              rw (e, run, is_second_try, login)
                (omega (arith, one, retry_counted first cmds still_on (omega (arith, one, small))))
          | inr other ↦ rw (e, run, is_second_try, other) (omega (arith, one))
        ]
      ]

-- Whether a reply is to a request that was sent: http.NewRequest fails before that.
abbrev pub sent : Reply → ℕ
sent (not_created msg) = 0
sent _ = 1

abbrev pub not_sent : Reply → ℕ
not_sent (not_created msg) = 1
not_sent _ = 0

sent_or_not : (reply : Reply) → sent reply + not_sent reply ≡ 1
sent_or_not (not_created msg) = refl
sent_or_not (no_response f) = refl
sent_or_not (response code status body) = refl

-- The requests of a Run that could not be built, and so were not sent.
abbrev pub unbuilt : {W : Type 0} → Http W → Client → List String → W → ℕ
unbuilt h c cmds w =
    not_sent (reply_of h c cmds w)
    + (if is_second_try h c cmds w then not_sent (second_reply h (attempt h c cmds w) cmds) else 0)

module _ {W : Type 0} (h : Http W) (count : W → ℕ) (law : Counts h sent count) where
  -- A Run counts, over all series of the statistics, every request that it sends and every one that
  -- could not be built, and nothing else. The world counts those that are sent. Statistics are
  -- attached, and the counters are two below their range at least.
  pub run_counted :
      (c : Client) (cmds : List String) (w : W)
      → is_counted c.stats ≡ true
      → counted c.stats + 2 < 2 ^ 64
      → let after = run h c cmds w in
        counted after.client.stats + count w
        ≡ counted c.stats + count after.world + unbuilt h c cmds w
  run_counted c cmds w on small =
      let made = run_requests h sent count law c cmds w in
      let tried = tries_counted h c cmds w on small in
      let once = sent_or_not (reply_of h c cmds w) in
      elim (Bool-cases (is_second_try h c cmds w)) [
        | inl again ↦
            let twice = sent_or_not (second_reply h (attempt h c cmds w) cmds) in
            ground (arith, made, tried, once, twice, again)
        | inr only ↦ ground (arith, made, tried, once, only)
      ]

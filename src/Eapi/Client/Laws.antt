-- ===== src/Eapi/Client/Laws.antt =====
-- How many requests Run of internal/eapi/client.go makes and counts, and how it classes its errors.
use arex.Prelude.{
  ℕ, ◌+◌, ◌≡◌, refl, Bool, true, false, not, ◌&&◌, ◌==◌, String, List, Result, ok, err, arith,
  if◌then◌else◌, Bool-cases, Result-cases, inl, inr,
}
use arex.GoTime.{Duration}
use arex.Eapi.Error.{Err, status_error, is_unauthorized}
use arex.Eapi.Stats.{Reload}
use arex.Eapi.Transport.{transport_error}
use arex.Eapi.Client.{
  Http, Client, Ran, Reply, not_created, no_response, response, rejected, results, undecodable,
  read_reply, attempt, retry_after_rotation, run, count_reload, read_if, is_ok, is_counted,
}
use arex.Secret.{Credential, reload, read}
use arex.Collector.Poll.{worth_retrying_individually}

-- A 200 that carries an error of the switch, and a 401.
abbrev pub is_rejection : Reply → Bool
is_rejection (response code status (rejected c m d n)) = code == 200
is_rejection _ = false

abbrev pub is_401 : Reply → Bool
is_401 (response code status body) = code == 401
is_401 _ = false

abbrev pub fails_with : (Err → Bool) → Result Err (List String) → Bool
fails_with p (ok raws) = false
fails_with p (err e) = p e

module _ (text : Duration → String) (timeout : Duration) where
  -- The error of a request is worth retrying command by command exactly if the reply is a 200 that
  -- carries an error of the switch, and worth reading the credential again exactly if it is a 401.
  pub read_reply_classes :
      (reply : Reply)
      → let result = (read_reply text timeout reply).2 in
        (fails_with worth_retrying_individually result ≡ is_rejection reply)
        × (fails_with is_unauthorized result ≡ is_401 reply)
  unfolding read_reply status_error transport_error worth_retrying_individually is_unauthorized
  read_reply_classes (not_created msg) = (refl, refl)
  read_reply_classes (no_response f) = (refl, refl)
  read_reply_classes (response code status (undecodable msg n)) = (ground arith, ground arith)
  read_reply_classes (response code status (rejected c m d n)) = (ground arith, ground arith)
  read_reply_classes (response code status (results raws n)) = (ground arith, ground arith)

-- What a count of the requests is: a post adds what its reply counts for, the clock and the file
-- add none.
pub record Counts {W : Type 0} (h : Http W) (weight : Reply → ℕ) (count : W → ℕ) : Type 0 where
  pub post_counts :
      (cmds : List String) (user password : String) (w : W)
      → let (w', reply) = h.post cmds user password w in count w' ≡ count w + weight reply
  pub clock_counts : (w : W) → count (h.clock w).0 ≡ count w
  pub read_counts : (path : String) (w : W) → count (h.read_file path w).0 ≡ count w

abbrev pub is_rotated : Result String Bool → Bool
is_rotated (ok changed) = changed
is_rotated (err e) = false

-- Whether a Run tries a second time: the first request meets a 401, and the file has another
-- password by then.
abbrev pub is_second_try : {W : Type 0} → Http W → Client → List String → W → Bool
is_second_try h c cmds w =
    let first = attempt h c cmds w in
    fails_with is_unauthorized first.result
    && is_rotated (reload h.read_file first.client.cred first.world).2

-- The reply that an attempt gets.
abbrev pub reply_of : {W : Type 0} → Http W → Client → List String → W → Reply
reply_of h c cmds w = (h.post cmds c.username c.cred.password (h.clock (h.clock w).0).0).1

-- The reply that a second try gets, with the password that was read anew.
abbrev pub second_reply : {W : Type 0} → Http W → Ran W → List String → Reply
second_reply h first cmds =
    let (w, cred, res) = reload h.read_file first.client.cred first.world in
    reply_of h (count_reload (record first.client { cred = cred }) Reload.rotated) cmds w

module _ {W : Type 0} (h : Http W) (weight : Reply → ℕ) (count : W → ℕ)
    (law : Counts h weight count) where
  read_if_requests : (on : Bool) (w : W) → count (read_if on h.clock w).0 ≡ count w
  read_if_requests true w = law.clock_counts w
  read_if_requests false w = refl

  pub attempt_requests :
      (c : Client) (cmds : List String) (w : W)
      → count (attempt h c cmds w).world ≡ count w + weight (reply_of h c cmds w)
  unfolding attempt
  attempt_requests c cmds w =
      let w2 = (h.clock (h.clock w).0).0 in
      let (w3, reply) = h.post cmds c.username c.cred.password w2 in
      let ok_logged =
        is_ok (read_reply h.duration_text c.timeout reply).2 && c.has_logger && not c.debug in
      let w4 = (read_if ok_logged h.clock w3).0 in
      omega (
        arith,
        read_if_requests (is_counted c.stats) w4,
        read_if_requests ok_logged w3,
        law.post_counts cmds c.username c.cred.password w2,
        law.clock_counts (h.clock w).0,
        law.clock_counts w,
      )

  pub reload_requests : (cred : Credential) (w : W) → count (reload h.read_file cred w).0 ≡ count w
  unfolding reload read
  reload_requests cred w = ground (arith, law.read_counts cred.path w)

  retry_requests :
      (first : Ran W) (cmds : List String)
      → count (retry_after_rotation h first cmds).world
        ≡ count first.world
          + (if is_rotated (reload h.read_file first.client.cred first.world).2
              then weight (second_reply h first cmds)
              else 0)
  unfolding retry_after_rotation
  retry_requests first cmds =
      let c = first.client in
      let (w, cred, res) = reload h.read_file c.cred first.world in
      let again = count_reload (record c { cred = cred }) Reload.rotated in
      let same = reload_requests c.cred first.world in
      elim (Result-cases res) [
        | inl (changed, e) ↦ elim (Bool-cases changed) [
          | inl fresh ↦
              rw (e, retry_after_rotation, fresh)
                (omega (arith, attempt_requests again cmds w, same))
          | inr kept ↦ rw (e, retry_after_rotation, kept) (omega (arith, same))
        ]
        | inr (x, e) ↦ rw (e, retry_after_rotation) (omega (arith, same))
      ]

  -- A Run makes one request, and a second one exactly if the first meets a 401 and the file has
  -- another password by then. The world counts what the replies are weighed at, whatever that is: with
  -- one for each reply the requests that are tried, with none for a request that could not be built
  -- those that are sent. The clock and reading a file add nothing.
  pub run_requests :
      (c : Client) (cmds : List String) (w : W)
      → count (run h c cmds w).world
        ≡ count w
          + weight (reply_of h c cmds w)
          + (if is_second_try h c cmds w
              then weight (second_reply h (attempt h c cmds w) cmds)
              else 0)
  unfolding run
  run_requests c cmds w =
      let first = attempt h c cmds w in
      let made = attempt_requests c cmds w in
      elim (Result-cases first.result) [
        | inl (raws, e) ↦ rw (e, run, is_second_try) (omega (arith, made))
        | inr (x, e) ↦ elim (Bool-cases (is_unauthorized x)) [
          | inl login ↦
              rw (e, run, is_second_try, login) (omega (arith, made, retry_requests first cmds))
          | inr other ↦ rw (e, run, is_second_try, other) (omega (arith, made))
        ]
      ]

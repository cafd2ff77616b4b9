-- ===== src/Eapi/Tests.antt =====
-- The client at a concrete switch: it rejects the password it is given first, and the file has
-- another one by then. The world is the number of requests sent.
use arex.Prelude.{
  ℕ, suc, ◌+◌, ◌*◌, ◌≡◌, refl, Bool-cases, inl, inr, true, false, String, str_eq, [], ◌∷◌, some, ok,
  arith, if◌then◌else◌,
}
use arex.Prelude.Int.{pos}
use arex.GoTime.{second}
use arex.Eapi.Stats.{zero_stats}
use arex.Eapi.Client.{Http, Client, Reply, response, results, undecodable, attempt, run, read_reply}
use arex.Eapi.Client.Laws.{
  reply_of, second_reply, Counts, is_second_try, run_requests, read_reply_classes, fails_with,
  is_rejection, is_401,
}
use arex.Eapi.Client.Counted.{sent, unbuilt, counted, run_counted}
use arex.Eapi.Error.{is_unauthorized}
use arex.Collector.Poll.{worth_retrying_individually}
use arex.Secret.{reload}
use arex.Secret.Laws.{IsHonest, FollowsFile, reload-IsHonest}

abbrev answer : String → Reply
answer password =
    if str_eq password "new"
    then response 200 "200 OK" (results ("{}" ∷ []) 2)
    else response 401 "401 Unauthorized" (undecodable "" 0)

abbrev rotating : Http ℕ
rotating = record {
  post = λ cmds user password w. (suc w, answer password);
  clock = λ w. (w, 1000 + w);
  read_file = λ path w. (w, ok "new\n");
  duration_text = λ d. "10s";
}

abbrev old_client : Client
old_client = record {
  url = "https://10.0.0.1/command-api";
  username = "prometheus";
  timeout = pos (10 * second);
  cred = record { password = "old"; path = "/run/secrets/password" };
  has_logger = true;
  debug = false;
  stats = some zero_stats;
}

always_sent : (password : String) → sent (answer password) ≡ 1
always_sent password = elim (Bool-cases (str_eq password "new")) [
  | inl fresh ↦ rw fresh refl
  | inr old ↦ rw old refl
]

rotating-Counts : Counts rotating sent (λ w. w)
rotating-Counts = record {
  post_counts = λ cmds user password w. omega (arith, always_sent password);
  clock_counts = λ w. refl;
  read_counts = λ path w. refl;
}

run_requests_example :
    let first = attempt rotating old_client ("show version" ∷ []) 0 in
    (run rotating old_client ("show version" ∷ []) 0).world
    ≡ 0
      + sent (reply_of rotating old_client ("show version" ∷ []) 0)
      + (if is_second_try rotating old_client ("show version" ∷ []) 0
          then sent (second_reply rotating first ("show version" ∷ []))
          else 0)
run_requests_example =
    run_requests rotating sent (λ w. w) rotating-Counts old_client ("show version" ∷ []) 0

run_counted_example :
    let after = run rotating old_client ("show version" ∷ []) 0 in
    counted after.client.stats + 0
    ≡ counted old_client.stats + after.world + unbuilt rotating old_client ("show version" ∷ []) 0
run_counted_example =
    run_counted rotating (λ w. w) rotating-Counts old_client ("show version" ∷ []) 0 refl
      (omega arith)

reload-IsHonest_example :
    let after = reload rotating.read_file old_client.cred 0 in
    IsHonest old_client.cred after.1 after.2
    × FollowsFile true (ok "new\n") old_client.cred after.1 after.2
reload-IsHonest_example = reload-IsHonest rotating.read_file old_client.cred 0

read_reply_classes_example :
    let result = (read_reply rotating.duration_text (pos 0) (answer "old")).2 in
    (fails_with worth_retrying_individually result ≡ is_rejection (answer "old"))
    × (fails_with is_unauthorized result ≡ is_401 (answer "old"))
read_reply_classes_example = read_reply_classes rotating.duration_text (pos 0) (answer "old")

-- ===== src/Collector/Poll.antt =====
-- The parts of one poll of a switch: what collect of internal/collector/collector.go calls. `W` is the
-- state of everything a poll talks to: the switch behind the Runner, and the clock. A poll returns
-- the new SwitchData, the new world and the lines it logs.
pub mod Laws
use arex.Prelude.{
  ℕ, suc, ◌==◌, String, ◌+s◌, nonempty, str_eq, itoa, join, List, [], ◌∷◌, map, length, replicate,
  any, Bool, true, false, not, Option, none, some, Result, ok, err, if◌then◌else◌,
}
use arex.Prelude.Assoc.{Map, lookup, insert, has}
use arex.GoTime.{Time}
use arex.Eapi.Error.{Err, command_error, result_count, plain, error_text}
use arex.Collector.Commands.{CmdSpec}
use arex.Collector.Output.{Output, Decoder, unmarshal_into}
use arex.Collector.Data.{SwitchData}

-- A raw result is text; a nil one is "".
abbrev pub Raw : Type 0
Raw = String

-- The interface Runner, and time.Now.
pub record Runner (W : Type 0) : Type 0 where
  pub run : List String → W → W × Result Err (List Raw)
  pub clock : W → W × Time

pub data LogRecord : Type 0 where
  commands_failed switch_recovered collection_failed : String → String → LogRecord

pub record Polled (F W : Type 0) : Type 0 where
  pub switch : SwitchData F
  pub world : W
  pub log : List LogRecord

unfoldable pub worth_retrying_individually : Err → Bool
worth_retrying_individually (command_error code message details) = true
worth_retrying_individually (result_count expected got) = true
worth_retrying_individually _ = false

-- The end of runBatch: n empty results beside an error.
unfoldable pub batch_result : ℕ → Result Err (List Raw) → List Raw × Option Err
batch_result n (err e) = (replicate n "", some e)
batch_result n (ok raws) =
    if length raws == n then (raws, none) else (replicate n "", some (result_count n (length raws)))

unfoldable pub one_result : Result Err (List Raw) → Result Err Raw
one_result (err e) = err e
one_result (ok (raw ∷ [])) = ok raw
one_result (ok raws) = err (plain ("expected 1 result, got " +s itoa (length raws)))

abbrev pub raw_or_nil : Result Err Raw → Raw
raw_or_nil (ok raw) = raw
raw_or_nil (err e) = ""

abbrev pub note_error : String → Result Err Raw → Map Err → Map Err
note_error name (ok raw) errs = errs
note_error name (err e) errs = insert name e errs

-- What the per-command round leaves: the world, a raw result for each spec, the errors.
pub record Fetched (W : Type 0) : Type 0 where
  pub world : W
  pub raws : List Raw
  pub errs : Map Err

-- What the parsing round leaves: a flag for each spec, the errors, the snapshot.
pub record Parsed (F : Type 0) : Type 0 where
  pub oks : List Bool
  pub errs : Map Err
  pub snap : Output F

module _ {W : Type 0} (r : Runner W) where
  unfoldable pub run_batch : List CmdSpec → W → W × List Raw × Option Err
  run_batch specs w =
      let (w', res) = r.run (map (λ c. c.cli) specs) w in
      let (raws, e) = batch_result (length specs) res in (w', raws, e)

  unfoldable pub run_one : String → W → W × Result Err Raw
  run_one cli w = let (w', res) = r.run (cli ∷ []) w in (w', one_result res)

  unfoldable pub retry_each : List CmdSpec → Map Err → W → Fetched W
  retry_each [] errs w = record { world = w; raws = []; errs = errs }
  retry_each (c ∷ cs) errs w =
      let (w', res) = run_one c.cli w in
      let rest = retry_each cs (note_error c.name res errs) w' in
      record rest { raws = raw_or_nil res ∷ rest.raws }

module _ {F : Type 0} where
  -- The body of the parsing loop for one spec.
  unfoldable pub parse_one :
      Decoder F → CmdSpec → Raw → Map Err → Output F → Bool × Map Err × Output F
  parse_one d c raw errs snap =
      if has c.name errs
      then (false, errs, snap)
      else if not (nonempty raw)
      then (false, insert c.name (plain "empty result") errs, snap)
      else let r = unmarshal_into d c.slot raw snap in
        elim r.1 [
          | none ↦ (true, errs, r.0)
          | some msg ↦ (false, insert c.name (plain ("parse: " +s msg)) errs, r.0)
        ]

  unfoldable pub parse_each : Decoder F → List CmdSpec → List Raw → Map Err → Output F → Parsed F
  parse_each d (c ∷ cs) (raw ∷ raws) errs snap =
      let (is_ok, errs', snap') = parse_one d c raw errs snap in
      let rest = parse_each d cs raws errs' snap' in record rest { oks = is_ok ∷ rest.oks }
  parse_each d _ _ errs snap = record { oks = []; errs = errs; snap = snap }

unfoldable pub count_true : List Bool → ℕ
count_true [] = 0
count_true (true ∷ rest) = suc (count_true rest)
count_true (false ∷ rest) = count_true rest

unfoldable pub describe_parts : List CmdSpec → Map Err → List String
describe_parts [] errs = []
describe_parts (c ∷ cs) errs = elim (lookup c.name errs) [
  | none ↦ describe_parts cs errs
  | some e ↦ (c.name +s " (" +s error_text e +s ")") ∷ describe_parts cs errs
]

unfoldable pub describe_cmd_errors : List CmdSpec → Map Err → String
describe_cmd_errors specs errs = join "; " (describe_parts specs errs)

-- The errors of commands that were not polled, over those of this poll.
unfoldable pub merge_errors : List CmdSpec → Map Err → Map Err → Map Err
merge_errors specs [] errs = errs
merge_errors specs ((name, e) ∷ old) errs =
    merge_errors specs old
      (if any (λ c. str_eq c.name name) specs then errs else insert name e errs)

unfoldable pub fail_all : List CmdSpec → Err → Map Err → Map Err
fail_all [] e m = m
fail_all (c ∷ cs) e m = fail_all cs e (insert c.name e m)

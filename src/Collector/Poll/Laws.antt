-- ===== src/Collector/Poll/Laws.antt =====
-- What the rounds of a poll leave in the map of errors: run_batch, retry_each, parse_each,
-- merge_errors and fail_all against internal/collector/collector.go.
use arex.Prelude.{
  ap, Bool-cases, length-replicate, ℕ, suc, ◌≡◌, refl, ◌∙◌, Bool, true, false, not, String, str_eq,
  List, [], ◌∷◌, length, any, map, Memᴰ, some, Result, ok, err, arith, eq_iff, if◌then◌else◌, inl,
  inr,
}
use arex.Prelude.Assoc.{Map, lookup, insert, has, lookup-insert, lookup-insert_self}
use arex.Eapi.Error.{Err}
use arex.Collector.Commands.{CmdSpec}
use arex.Collector.Output.{Output, Decoder}
use arex.Collector.Schedule.Laws.{NamesDiffer}
use arex.Collector.Poll.{
  Raw, Runner, batch_result, run_batch, run_one, retry_each, note_error, parse_one, parse_each,
  merge_errors, fail_all, count_true,
}

abbrev pub names : String → List CmdSpec → Bool
names n specs = any (λ c. str_eq c.name n) specs

-- Every command of a failed poll is marked with the error, and nothing else.
pub lookup-fail_all :
    (n : String) (specs : List CmdSpec) (e : Err) (m : Map Err)
    → lookup n (fail_all specs e m) ≡ (if names n specs then some e else lookup n m)
unfolding fail_all
lookup-fail_all n [] e m = refl
lookup-fail_all n (c ∷ cs) e m =
    ground (arith, lookup-fail_all n cs e (insert c.name e m), lookup-insert c.name n e m)

-- The errors of a poll keep those of the commands that it did not poll.
pub lookup-merge_errors :
    (n : String) (specs : List CmdSpec) (old errs : Map Err)
    → (names n specs ≡ true → lookup n (merge_errors specs old errs) ≡ lookup n errs)
unfolding merge_errors
lookup-merge_errors n specs [] errs h = refl
lookup-merge_errors n specs ((j, e) ∷ old) errs h = ground (
  arith,
  lookup-merge_errors n specs old (if names j specs then errs else insert j e errs),
  lookup-insert j n e errs,
  eq_iff j n,
)

unfoldable pub flags : List CmdSpec → Map Err → List Bool
flags [] errs = []
flags (c ∷ cs) errs = not (has c.name errs) ∷ flags cs errs

module _ {F : Type 0} (d : Decoder F) where
  -- Parsing one command touches no other command's error.
  parse_one-other :
      (n : String) (c : CmdSpec) (raw : Raw) (errs : Map Err) (snap : Output F)
      → str_eq c.name n ≡ false
      → lookup n (parse_one d c raw errs snap).1 ≡ lookup n errs
  unfolding parse_one
  parse_one-other n c raw errs snap h = grind (arith, lookup-insert)

  parse_one_flag :
      (c : CmdSpec) (raw : Raw) (errs : Map Err) (snap : Output F)
      → (parse_one d c raw errs snap).0 ≡ not (has c.name (parse_one d c raw errs snap).1)
  unfolding parse_one
  parse_one_flag c raw errs snap = grind (arith, lookup-insert_self)

  pub parse_each-other :
      (n : String) (specs : List CmdSpec) (raws : List Raw) (errs : Map Err) (snap : Output F)
      → names n specs ≡ false
      → lookup n (parse_each d specs raws errs snap).errs ≡ lookup n errs
  unfolding parse_each
  parse_each-other n [] raws errs snap h = refl
  parse_each-other n (c ∷ cs) [] errs snap h = refl
  parse_each-other n (c ∷ cs) (raw ∷ raws) errs snap h =
      let one = parse_one d c raw errs snap in
      parse_each-other n cs raws one.1 one.2 (ground arith)
      ∙ parse_one-other n c raw errs snap (ground arith)

  -- A command is ok exactly if no error stands against its name in the end.
  pub parse_each-flags :
      (specs : List CmdSpec) (raws : List Raw) (errs : Map Err) (snap : Output F)
      → NamesDiffer specs
      → length raws ≡ length specs
      → let p = parse_each d specs raws errs snap in p.oks ≡ flags specs p.errs
  unfolding parse_each flags
  parse_each-flags [] raws errs snap differ e = refl
  parse_each-flags (c ∷ cs) [] errs snap differ e = absurd (omega arith)
  parse_each-flags (c ∷ cs) (raw ∷ raws) errs snap differ e =
      let one = parse_one d c raw errs snap in
      ground (
        arith,
        parse_one_flag c raw errs snap,
        parse_each-other c.name cs raws one.1 one.2 differ.0,
        parse_each-flags cs raws one.1 one.2 differ.1,
      )

module _ {W : Type 0} (r : Runner W) where
  pub length-retry_each :
      (specs : List CmdSpec) (errs : Map Err) (w : W)
      → length (retry_each r specs errs w).raws ≡ length specs
  unfolding retry_each
  length-retry_each [] errs w = refl
  length-retry_each (c ∷ cs) errs w =
      let one = run_one r c.cli w in
      ap suc (length-retry_each cs (note_error c.name one.1 errs) one.0)

pub length-batch_result : (n : ℕ) (res : Result Err (List Raw)) → length (batch_result n res).0 ≡ n
unfolding batch_result
length-batch_result n (err e) = length-replicate {A = Raw} n ""
length-batch_result n (ok raws) = ground (arith, length-replicate {A = Raw} n "")

pub length-run_batch :
    {W : Type 0} (r : Runner W) (specs : List CmdSpec) (w : W)
    → length (run_batch r specs w).1 ≡ length specs
unfolding run_batch
length-run_batch r specs w = length-batch_result (length specs) (r.run (map (λ c. c.cli) specs) w).1

-- A command that is polled is found by its name.
pub names_of_Memᴰ : (c : CmdSpec) (specs : List CmdSpec) → Memᴰ c specs → names c.name specs ≡ true
names_of_Memᴰ c [] t = elim t [ ]
names_of_Memᴰ c (x ∷ xs) (Memᴰ.head e) = rw e (ground (arith, eq_iff x.name x.name))
names_of_Memᴰ c (x ∷ xs) (Memᴰ.tail t) = ground (arith, names_of_Memᴰ c xs t)

-- Some flag is set exactly if some command has no error.
pub count_true-flags :
    (specs : List CmdSpec) (errs : Map Err) (n : ℕ)
    → count_true (flags specs errs) ≡ suc n
    → any (λ c. not (has c.name errs)) specs ≡ true
unfolding flags count_true
count_true-flags [] errs n e = ground arith
count_true-flags (c ∷ cs) errs n e = elim (Bool-cases (has c.name errs)) [
  | inl bad ↦ rw bad (count_true-flags cs errs n (rw (bad, count_true) at e))
  | inr good ↦ rw good
]

-- ===== src/Metrics/Render/Staleness.antt =====
-- How old a switch's data may be: limitFor, scrapeLimit and the two gates of collectSwitch in
-- internal/metrics/collector.go.
use arex.Prelude.{
  ◌≤◌, ◌≡◌, refl, sym, str_eq, Bool, true, false, ◌&&◌, String, List, [], ◌∷◌, ◌++◌, some, arith,
  Bool-cases, inl, inr, Option-cases, if◌then◌else◌,
}
use arex.Prelude.Int.{pos, ◌≤ℤ◌, ltb_ℤ}
use arex.Prelude.Assoc.{Map, lookup}
use arex.GoTime.{Time, Duration, times, wrap64, since}
use arex.Collector.Data.{SwitchData, or_nil}
use arex.Collector.Collect.Order.{LastOrdered}
use arex.Metrics.Emit.{Host, set}
use arex.Metrics.Render.Switch.{
  Scope, max_duration, limit_for, most_lenient, scrape_limit, is_fresh, collect_modules,
  collect_aged,
}

max_duration-left : (a b : Duration) → a ≤ℤ max_duration a b
max_duration-left a b = ground arith

max_duration-right : (a b : Duration) → b ≤ℤ max_duration a b
max_duration-right a b = ground arith

max_duration-least : (a b c : Duration) → a ≤ℤ c → b ≤ℤ c → max_duration a b ≤ℤ c
max_duration-least a b c p q = ground arith

since_mono : (now earlier later : Time) → earlier ≤ later → since now later ≤ℤ since now earlier
unfolding since
since_mono now earlier later p = ground arith

le_most_lenient : (limit : Duration) (m : Map Duration) → limit ≤ℤ most_lenient limit m
unfolding most_lenient
le_most_lenient limit [] = omega arith
le_most_lenient limit ((cli, iv) ∷ m) = omega (
  arith,
  max_duration-left limit (times 3 iv),
  le_most_lenient (max_duration limit (times 3 iv)) m,
)

times-most_lenient :
    (limit : Duration) (m : Map Duration) (cli : String) (iv : Duration)
    → lookup cli m ≡ some iv
    → times 3 iv ≤ℤ most_lenient limit m
unfolding most_lenient lookup
times-most_lenient limit [] cli iv e = ground arith
times-most_lenient limit ((name, first) ∷ m) cli iv e =
    let next : Duration = max_duration limit (times 3 first) in
    elim (Bool-cases (str_eq name cli)) [
      | inl here ↦
          let same : first ≡ iv = ground arith in
          rw (sym same)
            (omega (arith, max_duration-right limit (times 3 first), le_most_lenient next m))
      | inr later ↦ times-most_lenient next m cli iv (ground arith)
    ]

times_zero : times 3 (pos 0) ≡ pos 0
unfolding times wrap64
times_zero = refl

module _ {F : Type 0} (c : Scope) (sw : SwitchData F)
    (not_negative : pos 0 ≤ℤ c.staleness_limit) where
  -- No command's limit is above the limit of the whole scrape.
  limit_for-scrape_limit : (cli : String) → limit_for c sw cli ≤ℤ scrape_limit c sw
  unfolding limit_for scrape_limit
  limit_for-scrape_limit cli = elim (Option-cases (lookup cli (or_nil sw.command_interval))) [
    | inl missing ↦
        rw (missing, times_zero)
          (max_duration-least c.staleness_limit (pos 0)
            (most_lenient c.staleness_limit (or_nil sw.command_interval))
            (le_most_lenient c.staleness_limit (or_nil sw.command_interval))
            (omega (
              arith,
              not_negative,
              le_most_lenient c.staleness_limit (or_nil sw.command_interval),
            )))
    | inr (iv, found) ↦ rw found (
        max_duration-least c.staleness_limit (times 3 iv)
          (most_lenient c.staleness_limit (or_nil sw.command_interval))
          (le_most_lenient c.staleness_limit (or_nil sw.command_interval))
          (times-most_lenient c.staleness_limit (or_nil sw.command_interval) cli iv found))
  ]

  -- Where the scrape is too old, every command's data is.
  too_old-is_fresh :
      (now : Time) (cli : String)
      → LastOrdered sw
      → ltb_ℤ (scrape_limit c sw) (since now sw.last_success) ≡ true
      → is_fresh c sw now cli ≡ false
  unfolding is_fresh
  too_old-is_fresh now cli ordered old = elim (Option-cases (lookup cli sw.command_last_success)) [
    | inl missing ↦ rw (is_fresh, missing) refl
    | inr (last, found) ↦
        rw (is_fresh, found)
          (ground (
            arith,
            limit_for-scrape_limit cli,
            since_mono now last sw.last_success (ordered cli last found),
          ))
  ]

and_false : (b : Bool) → b && false ≡ false
and_false b = ground arith

if_nil : {A : Type 0} (b : Bool) (xs : List A) → xs ≡ [] → (if b then xs else []) ≡ []
if_nil true xs e = e
if_nil false xs e = refl

module _ {F : Type 0} ⦃h : Host F⦄ where
  collect_modules_stale :
      (c : Scope) (sw : SwitchData F) (now : Time)
      → ((cli : String) → is_fresh c sw now cli ≡ false)
      → collect_modules c sw now ≡ []
  unfolding collect_modules
  collect_modules_stale c sw now stale = simp (stale, and_false, if_nil)

  -- The bound on the scrape as a whole hides nothing that the bounds on the commands show: with a
  -- limit that is not negative, and no command succeeding later than the switch did, the samples
  -- after the age are those of the modules, whatever the age is.
  pub collect_aged-collect_modules :
      (c : Scope) (sw : SwitchData F) (now : Time)
      → pos 0 ≤ℤ c.staleness_limit
      → LastOrdered sw
      → collect_aged c sw now
        ≡ set "arista_scrape_age_seconds" (h.seconds (since now sw.last_success)) (sw.label ∷ [])
          ++ collect_modules c sw now
  unfolding collect_aged
  collect_aged-collect_modules c sw now not_negative ordered =
      elim (Bool-cases (ltb_ℤ (scrape_limit c sw) (since now sw.last_success))) [
        | inl old ↦
            rw
              (
                old,
                collect_modules_stale c sw now
                    λ cli. too_old-is_fresh c sw not_negative now cli ordered old,
              )
              refl
        | inr young ↦ rw young refl
      ]

-- ===== src/Metrics/Serve/Laws.antt =====
-- What NewHandler of internal/metrics/handler.go serves, from the request to the samples.
use arex.Prelude.{
  Option-cases, inl, inr, arith, eq_iff, ◌≡◌, refl, sym, subst, true, false, String, nonempty, List,
  Memᴰ, some, ok,
}
use arex.Prelude.Assoc.{Map, lookup}
use arex.GoTime.{Time, Duration}
use arex.BuildInfo.{Build}
use arex.Collector.Data.{Store}
use arex.Collector.Data.Laws.{WellLabelled}
use arex.Metrics.Emit.{Host, Metric}
use arex.Metrics.Emit.Laws.{Counts, IsDescribed}
use arex.Metrics.Requests.{
  Answer, refused, internal, full, filtered, Query, Filter, handle, serve_label, internal_target,
}
use arex.Metrics.Requests.Laws.{names_switch, is_refused}
use arex.Metrics.Render.Switch.{new_switch_collector, collect_store}
use arex.Metrics.Render.Described.Scrape.{collect_store-IsDescribed}
use arex.Metrics.Serve.{serve, scrape}

handle_switch :
    {F : Type 0} (store : Store F) (index : Map String) (q : Query)
    → names_switch q ≡ true
    → is_refused (handle store index q) ≡ false
    → (l : String) × ((lookup q.target index ≡ some l)
        × (handle store index q ≡ filtered l q.filter))
unfolding handle serve_label
handle_switch store index q switch served = elim (Option-cases (lookup q.target index)) [
  | inl missing ↦ absurd (ground (arith, eq_iff q.target internal_target))
  | inr (l, found) ↦ (l, (found, ground (arith, eq_iff q.target internal_target)))
]

module _ {F : Type 0} ⦃h : Host F⦄ (store : Store F) (index : Map String) (limit : Duration)
    (b : Build) (runtime : List (Metric F)) (now : Time) where
  serve_answered :
      (a : Answer) (ms : List (Metric F))
      → serve store limit b runtime now a ≡ ok ms
      → is_refused a ≡ false
  unfolding serve
  serve_answered (refused r) ms e = ground arith
  serve_answered internal ms e = refl
  serve_answered full ms e = refl
  serve_answered (filtered l f) ms e = refl

  serve_filtered :
      (l : String) (f : Filter) (ms : List (Metric F))
      → serve store limit b runtime now (filtered l f) ≡ ok ms
      → collect_store (new_switch_collector limit l f) store now ≡ ms
  unfolding serve
  serve_filtered l f ms e = ground arith

  -- A request for a switch that is answered at all is answered with samples of that switch alone,
  -- provided that NewConstMetric takes a value for each label of a valid descriptor, the store's
  -- switches stand under their labels and the target's label is not empty: each metric is a sample of
  -- a family that Describe announces, its labels have different names, and the one named switch has
  -- the label that the index has for the target.
  pub scrape_switch :
      ⦃counts : Counts h⦄ (q : Query) (ms : List (Metric F))
      → WellLabelled store
      → names_switch q ≡ true
      → ((l : String) → lookup q.target index ≡ some l → nonempty l ≡ true)
      → scrape store index limit b runtime now q ≡ ok ms
      → (l : String) × ((lookup q.target index ≡ some l)
          × ((m : Metric F) → Memᴰ m ms → IsDescribed l m))
  unfolding scrape
  scrape_switch q ms well switch labelled e =
      let (l, (found, answer)) =
        handle_switch store index q switch (serve_answered (handle store index q) ms e) in
      let sent =
        serve_filtered l q.filter ms
          (subst (λ a. serve store limit b runtime now a ≡ ok ms) answer e) in
      (
        l,
        (
          found,
          λ m t.
              let (shown, (sample, asked)) =
                collect_store-IsDescribed (new_switch_collector limit l q.filter) store now well m
                  (subst (Memᴰ m) (sym sent) t) in
              subst (λ k. IsDescribed k m) (sym (asked.1 (labelled l found))) sample,
        ),
      )

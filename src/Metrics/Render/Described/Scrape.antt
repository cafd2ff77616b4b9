-- ===== src/Metrics/Render/Described/Scrape.antt =====
-- Every sample that Collect of internal/metrics/collector.go sends is of a described family and of a
-- switch that was asked for.
use mathlib.Core.Bool.{true≢false}
use arex.Prelude.{
  false, ◌∙◌, ◌≡◌, inl, inr, true, String, nonempty, List, [], ◌∷◌, Memᴰ, Memᴰ-append, subst, sym,
  refl, some, flat_map, Bool-cases, Option-cases,
}
use arex.GoTime.{Time}
use arex.Collector.Data.{SwitchData, Store, get, get_each}
use arex.Collector.Data.Laws.{WellLabelled}
use arex.Metrics.Emit.{Host, Metric}
use arex.Metrics.Emit.Laws.{Counts, IsDescribed, AllDescribed, and_then}
use arex.Metrics.Render.Switch.{Scope, collect_switch, collect_found, collect_store}
use arex.Metrics.Render.Described.Switch.{collect_switch-IsDescribed}

-- A switch of the store that the collector is not narrowed away from.
abbrev pub Asked : {F : Type 0} → Scope → Store F → String → Type 0
Asked {F} c store label =
    ((sw : SwitchData F) × (get store label ≡ some sw)) × (nonempty c.only ≡ true → c.only ≡ label)

AllDescribed-Memᴰ :
    {F : Type 0} (label : String) (ms : List (Metric F)) {m : Metric F}
    → AllDescribed label ms
    → Memᴰ m ms
    → IsDescribed label m
AllDescribed-Memᴰ label [] p t = elim t [ ]
AllDescribed-Memᴰ label (x ∷ ms) (and_then d p) (Memᴰ.head e) = subst (IsDescribed label) (sym e) d
AllDescribed-Memᴰ label (x ∷ ms) (and_then d p) (Memᴰ.tail t) = AllDescribed-Memᴰ label ms p t

module _ {F : Type 0} ⦃h : Host F⦄ ⦃counts : Counts h⦄ (c : Scope) (store : Store F) (now : Time)
    (well : WellLabelled store) where
  found-IsDescribed :
      (label : String) (m : Metric F)
      → Memᴰ m (collect_found c now (get store label))
      → IsDescribed label m × ((sw : SwitchData F) × (get store label ≡ some sw))
  unfolding collect_found
  found-IsDescribed label m t = elim (Option-cases (get store label)) [
    | inl missing ↦ elim (subst (λ o. Memᴰ m (collect_found c now o)) missing t) [ ]
    | inr (sw, found) ↦ (
      subst (λ l. IsDescribed l m) (well label sw found)
          (AllDescribed-Memᴰ sw.label (collect_switch c sw now)
            (collect_switch-IsDescribed c sw now)
            (subst (λ o. Memᴰ m (collect_found c now o)) found t)),
      (sw, found),
    )
  ]

  each-IsDescribed :
      (labels : List String) (m : Metric F)
      → Memᴰ m (flat_map (collect_found c now) (get_each store labels))
      → (label : String) × (IsDescribed label m
          × ((sw : SwitchData F) × (get store label ≡ some sw)))
  unfolding get_each
  each-IsDescribed [] m t = elim t [ ]
  each-IsDescribed (l ∷ labels) m t =
      elim (Memᴰ-append (collect_found c now (get store l))
        (flat_map (collect_found c now) (get_each store labels)) t) [
          | inl here ↦ (l, found-IsDescribed l m here)
          | inr later ↦ each-IsDescribed labels m later
        ]

  narrowed :
      nonempty c.only ≡ true → collect_store c store now ≡ collect_found c now (get store c.only)
  unfolding collect_store
  narrowed one = rw (collect_store, one) refl

  unnarrowed :
      nonempty c.only ≡ false
      → collect_store c store now ≡ flat_map (collect_found c now) (get_each store store.order)
  unfolding collect_store
  unnarrowed every = rw (collect_store, every) refl

  -- Every metric of a scrape is a sample, never an error, provided that NewConstMetric takes a value
  -- for each label of a valid descriptor and the store's switches stand under their labels: its
  -- family is one that Describe announces, it has the declared value type, its labels have different
  -- names and a value each, and the label named switch has that of a switch of the store: the one
  -- that the collector is narrowed to, if any.
  pub collect_store-IsDescribed :
      (m : Metric F)
      → Memᴰ m (collect_store c store now)
      → (label : String) × (IsDescribed label m × Asked c store label)
  collect_store-IsDescribed m t = elim (Bool-cases (nonempty c.only)) [
    | inl one ↦
        let (sample, there) = found-IsDescribed c.only m (subst (Memᴰ m) (narrowed one) t) in
        (c.only, (sample, (there, λ narrow. refl)))
    | inr every ↦
        let (label, (sample, there)) =
          each-IsDescribed store.order m (subst (Memᴰ m) (unnarrowed every) t) in
        (label, (sample, (there, λ narrow. absurd (true≢false (sym narrow ∙ every)))))
  ]

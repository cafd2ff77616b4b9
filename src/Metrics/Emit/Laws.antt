-- ===== src/Metrics/Emit/Laws.antt =====
-- When an emission of internal/metrics/collector.go is a sample that its collector describes.
use arex.Prelude.{
  ap, sym, ◌∙◌, keep, Memᴰ-map, Memᴰ-keep, ==→≡, ℕ, suc, ◌≡◌, refl, Bool, true, false, not, ◌&&◌,
  String, str_eq, List, [], ◌∷◌, ◌++◌, Memᴰ, Option, none, some, length, ◌==◌, if◌then◌else◌,
  flat_map, arith, Bool-cases, inl, inr,
}
use arex.Prelude.Assoc.{Map, lookup, for_entries}
use arex.Metrics.Catalogue.Labels.{MetricDef}
use arex.Metrics.Catalogue.{
  Desc, new_desc, value_type, is_internal, by_name, descs, types, metric_defs, switch_descs,
}
use arex.Metrics.Catalogue.Laws.{
  are_distinct, is_valid_desc, valid_desc, labels_distinct, switch_label,
}
use arex.Metrics.Emit.{Host, Metric, const_metric, set, set_bool, set_time}

-- A sample of a family that the switch collector describes: its descriptor and its value type are
-- the family's, its labels have different names and a value each, and the label that is named switch
-- has the switch's.
pub data IsDescribed {F : Type 0} (label : String) : Metric F → Type 0 where
  described :
      (def : MetricDef) (names : List String) (v : F) (rest : List String)
      → Memᴰ def metric_defs
      → Memᴰ (new_desc def) switch_descs
      → def.labels ≡ "switch" ∷ names
      → are_distinct def.labels ≡ true
      → length names ≡ length rest
      → IsDescribed label (const_metric (new_desc def) (value_type def) v (label ∷ rest))

pub data AllDescribed {F : Type 0} (label : String) : List (Metric F) → Type 0 where
  none_sent : AllDescribed label []
  and_then :
      {m : Metric F} {ms : List (Metric F)}
      → IsDescribed label m
      → AllDescribed label ms
      → AllDescribed label (m ∷ ms)

-- What the client library documents of NewConstMetric: it fails on another number of label values
-- and on an invalid Desc. A text is valid UTF-8 here, which it also asks for.
pub record Counts {F : Type 0} (h : Host F) : Type 0 where
  pub accepted :
      (d : Desc) (values : List String)
      → is_valid_desc d ≡ true
      → length d.labels ≡ length values
      → h.accepts d values ≡ true

unfoldable pub find_def : String → List MetricDef → Option MetricDef
find_def name [] = none
find_def name (d ∷ defs) =
    let later = find_def name defs in if str_eq d.name name then some d else later

abbrev pub fits : Option MetricDef → ℕ → Bool
fits none n = false
fits (some def) n = not (is_internal def) && length def.labels == n

-- The catalogue has a family of the name, of a switch, with so many labels.
unfoldable pub is_family : String → ℕ → Bool
unfolding find_def metric_defs
is_family name n = fits (find_def name metric_defs) n

lookup-by_name :
    {V : Type 0} (f : MetricDef → V) (name : String) (defs : List MetricDef) (def : MetricDef)
    → find_def name defs ≡ some def
    → lookup name (by_name f defs) ≡ some (f def)
unfolding find_def by_name lookup
lookup-by_name f name [] def e = ground arith
lookup-by_name f name (d ∷ defs) def e = ground (arith, lookup-by_name f name defs def)

find_def-Memᴰ :
    (name : String) (defs : List MetricDef) (def : MetricDef)
    → find_def name defs ≡ some def
    → Memᴰ def defs
unfolding find_def
find_def-Memᴰ name [] def e = ground arith
find_def-Memᴰ name (d ∷ defs) def e = elim (Bool-cases (str_eq d.name name)) [
  | inl same ↦ Memᴰ.head (ground arith)
  | inr other ↦ Memᴰ.tail (find_def-Memᴰ name defs def (ground arith))
]

lookup-descs :
    (name : String) (def : MetricDef)
    → find_def name metric_defs ≡ some def
    → lookup name descs ≡ some (new_desc def)
unfolding descs
lookup-descs name def e = lookup-by_name new_desc name metric_defs def e

lookup-types :
    (name : String) (def : MetricDef)
    → find_def name metric_defs ≡ some def
    → lookup name types ≡ some (value_type def)
unfolding types
lookup-types name def e = lookup-by_name value_type name metric_defs def e

Memᴰ-switch_descs :
    (def : MetricDef)
    → is_internal def ≡ false
    → Memᴰ def metric_defs
    → Memᴰ (new_desc def) switch_descs
unfolding switch_descs
Memᴰ-switch_descs def outer t =
    Memᴰ-map new_desc (keep (λ d. not (is_internal d)) metric_defs)
      (Memᴰ-keep (λ d. not (is_internal d)) metric_defs (ap not outer) t)

not_and : (a b : Bool) → not a && b ≡ true → (a ≡ false) × (b ≡ true)
not_and a b e = ground arith

fits_inv :
    (o : Option MetricDef) (n : ℕ)
    → fits o n ≡ true
    → (def : MetricDef) × ((o ≡ some def) × (is_internal def ≡ false) × (length def.labels ≡ n))
fits_inv none n f = absurd (ground arith)
fits_inv (some def) n f =
    let (outer, arity) = not_and (is_internal def) (length def.labels == n) f in
    (def, (refl, outer, ==→≡ (length def.labels) n arity))

module _ {F : Type 0} ⦃h : Host F⦄ ⦃counts : Counts h⦄ {label : String} where
  set_known :
      (name : String) (v : F) (rest : List String) (def : MetricDef)
      → find_def name metric_defs ≡ some def
      → length def.labels ≡ suc (length rest)
      → is_valid_desc (new_desc def) ≡ true
      → set name v (label ∷ rest)
        ≡ const_metric (new_desc def) (value_type def) v (label ∷ rest) ∷ []
  unfolding set
  set_known name v rest def found arity valid =
      rw
        (
          set,
          lookup-descs name def found,
          lookup-types name def found,
          counts.accepted (new_desc def) (label ∷ rest) valid arity,
        )
        refl

  pub set-IsDescribed :
      (name : String) (v : F) (rest : List String)
      → is_family name (suc (length rest)) ≡ true
      → AllDescribed label (set name v (label ∷ rest))
  unfolding is_family
  set-IsDescribed name v rest f =
      let (def, (found, outer, arity)) =
        fits_inv (find_def name metric_defs) (suc (length rest)) f in
      let listed = find_def-Memᴰ name metric_defs def found in
      let (names, labels) = switch_label def listed outer in
      let counted : length names ≡ length rest = omega (arith, sym (ap length labels) ∙ arity) in
      rw (set_known name v rest def found arity (valid_desc def listed)) (
        and_then
          (described def names v rest listed (Memᴰ-switch_descs def outer listed) labels
            (labels_distinct def listed) counted)
          none_sent)

  pub set_bool-IsDescribed :
      (name : String) (b : Bool) (rest : List String)
      → is_family name (suc (length rest)) ≡ true
      → AllDescribed {F = F} label (set_bool name b (label ∷ rest))
  unfolding set_bool
  set_bool-IsDescribed name b rest f = set-IsDescribed name _ rest f

  pub set_time-IsDescribed :
      (name : String) (epoch : F) (rest : List String)
      → is_family name (suc (length rest)) ≡ true
      → AllDescribed label (set_time name epoch (label ∷ rest))
  unfolding set_time
  set_time-IsDescribed name epoch rest f = elim (Bool-cases (h.at_most_zero epoch)) [
    | inl never ↦ rw never none_sent
    | inr some_time ↦ rw some_time (set-IsDescribed name epoch rest f)
  ]

  pub append-IsDescribed :
      {xs ys : List (Metric F)}
      → AllDescribed label xs
      → AllDescribed label ys
      → AllDescribed label (xs ++ ys)
  append-IsDescribed none_sent q = q
  append-IsDescribed (and_then d p) q = and_then d (append-IsDescribed p q)

  pub flat_map-IsDescribed :
      {A : Type 0} (f : A → List (Metric F)) (xs : List A)
      → ((x : A) → AllDescribed label (f x))
      → AllDescribed label (flat_map f xs)
  flat_map-IsDescribed f [] p = none_sent
  flat_map-IsDescribed f (x ∷ xs) p = append-IsDescribed (p x) (flat_map-IsDescribed f xs p)

  pub for_entries-IsDescribed :
      {V : Type 0} (f : String → V → List (Metric F)) (m : Map V)
      → ((key : String) (x : V) → AllDescribed label (f key x))
      → AllDescribed label (for_entries f m)
  for_entries-IsDescribed f [] p = none_sent
  for_entries-IsDescribed f ((key, x) ∷ m) p =
      append-IsDescribed (p key x) (for_entries-IsDescribed f m p)

  pub if-IsDescribed :
      (b : Bool) (xs ys : List (Metric F))
      → AllDescribed label xs
      → AllDescribed label ys
      → AllDescribed label (if b then xs else ys)
  if-IsDescribed true xs ys p q = p
  if-IsDescribed false xs ys p q = q

pub ruleset described_rules = (
  append-IsDescribed, set-IsDescribed, set_bool-IsDescribed, set_time-IsDescribed,
  flat_map-IsDescribed, for_entries-IsDescribed, if-IsDescribed, none_sent,
)

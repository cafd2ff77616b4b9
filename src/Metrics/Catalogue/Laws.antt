-- ===== src/Metrics/Catalogue/Laws.antt =====
-- What holds of the families of internal/metrics/catalogue.go as a whole.
use text.Mathlib.Text.{starts_with}
use arex.Prelude.{
  ℕ, ◌≡◌, refl, Bool, true, false, not, ◌&&◌, ◌||◌, ◌==◌, leb, String, nonempty, codes, str_eq,
  List, [], ◌∷◌, any, all, all-Memᴰ, Memᴰ, eq_iff, ap, arith,
}
use arex.Metrics.Catalogue.{Desc, new_desc, metric_defs, is_internal}
use arex.Metrics.Catalogue.FirstFamilies.{first_families}
use arex.Metrics.Catalogue.InterfaceFamilies.{interface_families}
use arex.Metrics.Catalogue.PhyFamilies.{phy_families}
use arex.Metrics.Catalogue.LastFamilies.{last_families}
use arex.Metrics.Catalogue.Labels.{MetricDef}

pub distinct : List MetricDef → Bool
distinct [] = true
distinct (d ∷ defs) = not (any (λ e. str_eq e.name d.name) defs) && distinct defs

-- No two families have one name.
pub distinct-metric_defs : distinct metric_defs ≡ true
unfolding distinct metric_defs first_families interface_families phy_families last_families
distinct-metric_defs = refl

-- What the client library documents of a valid Desc: the name and the labels are made of the
-- characters that Prometheus allows, no label starts with two underscores, and no two are the same.
abbrev is_letter : ℕ → Bool
is_letter c = leb 97 c && leb c 122 || leb 65 c && leb c 90 || c == 95

abbrev is_digit : ℕ → Bool
is_digit c = leb 48 c && leb c 57

abbrev is_name : List ℕ → Bool
is_name [] = false
is_name (c ∷ cs) = is_letter c && all (λ d. is_letter d || is_digit d) cs

abbrev is_label : String → Bool
is_label l = is_name (codes l) && not (starts_with l "__")

abbrev pub are_distinct : List String → Bool
are_distinct [] = true
are_distinct (l ∷ ls) = not (any (str_eq l) ls) && are_distinct ls

unfoldable pub is_valid_desc : Desc → Bool
is_valid_desc d =
    is_name (codes d.name) && nonempty d.help && all is_label d.labels && are_distinct d.labels

abbrev starts_at_switch : List String → Bool
starts_at_switch [] = false
starts_at_switch (l ∷ ls) = str_eq l "switch"

unfoldable is_sound : MetricDef → Bool
unfolding is_valid_desc
is_sound d = is_valid_desc (new_desc d) && (is_internal d || starts_at_switch d.labels)

all_sound : all is_sound metric_defs ≡ true
unfolding is_sound metric_defs first_families interface_families phy_families last_families
all_sound = refl

and_true : (a b : Bool) → a && b ≡ true → (a ≡ true) × (b ≡ true)
and_true a b h = (ground arith, ground arith)

sound_parts :
    (def : MetricDef)
    → Memᴰ def metric_defs
    → (is_valid_desc (new_desc def) ≡ true)
      × (is_internal def || starts_at_switch def.labels ≡ true)
unfolding is_sound
sound_parts def t =
    and_true (is_valid_desc (new_desc def)) (is_internal def || starts_at_switch def.labels)
      (all-Memᴰ is_sound metric_defs all_sound t)

-- The descriptor of every family is valid.
pub valid_desc : (def : MetricDef) → Memᴰ def metric_defs → is_valid_desc (new_desc def) ≡ true
valid_desc def t = (sound_parts def t).0

-- No two labels of a family have one name.
pub labels_distinct : (def : MetricDef) → Memᴰ def metric_defs → are_distinct def.labels ≡ true
unfolding is_valid_desc
labels_distinct def t = (and_true _ (are_distinct def.labels) (valid_desc def t)).1

switch_first :
    (labels : List String)
    → starts_at_switch labels ≡ true
    → (names : List String) × (labels ≡ "switch" ∷ names)
switch_first [] h = absurd (ground arith)
switch_first (l ∷ ls) h = (ls, ap (λ k. k ∷ ls) (ground (arith, eq_iff l "switch")))

or_false : (a b : Bool) → a || b ≡ true → a ≡ false → b ≡ true
or_false a b h e = ground arith

-- The first label of a family of a switch is named switch.
pub switch_label :
    (def : MetricDef)
    → Memᴰ def metric_defs
    → is_internal def ≡ false
    → (names : List String) × (def.labels ≡ "switch" ∷ names)
switch_label def t outer =
    switch_first def.labels
      (or_false (is_internal def) (starts_at_switch def.labels) (sound_parts def t).1 outer)

-- ===== src/Metrics/Tests.antt =====
-- Targets and scrape requests of two switches at concrete values; the second has no name, and its
-- host is that of the first.
use arex.Prelude.{
  ◌≡◌, ◌↔◌, refl, subst, ap, arith, eq_iff, true, false, String, [], ◌∷◌, none, Memᴰ, ℕ,
}
use arex.Prelude.Assoc.{lookup, insert, delete, keys}
use arex.Config.Types.{SwitchConfig, label}
use arex.Collector.Data.{Store}
use arex.Collector.Fixtures.{fresh_switch}
use arex.Metrics.Targets.{
  target_index, strip_scheme, cut_after, after_prefix, add_all, add_switch, add_target,
  drop_ambiguous,
}
use arex.Metrics.Targets.Laws.{is_named, resolve, owners, lookup-target_index}
use arex.Metrics.Targets.Owners.{StandsFor, shadowed_label}
use arex.Metrics.Requests.{Query, handle, serve_label, valid_modules}
use arex.Metrics.Requests.Laws.{is_refused, IsAcceptable, handle_refused_iff, handle_target_sound}

abbrev at_host : String → String → SwitchConfig
at_host name host = record {
  host = host;
  username = "prometheus";
  password = "secret";
  password_file = "";
  name = name;
  fabric = "";
  tls_skip_verify = true;
  ca_file = "";
  pinned_cert_sha256 = "";
  collect = [];
  interface_scope = "";
}

abbrev leaf : SwitchConfig
leaf = at_host "leaf1" "https://10.0.0.1"

abbrev unnamed : SwitchConfig
unnamed = at_host "" "https://10.0.0.1"

abbrev spine : SwitchConfig
spine = at_host "spine1" "https://10.0.0.9"

abbrev of_spine : Query
of_spine = record { target = "10.0.0.9"; filter = record { module_name = "phy"; interface = "" } }

unfoldable two_switches : Store ℕ
unfolding fresh_switch
two_switches = record {
  switches = ("leaf1", fresh_switch) ∷ ("spine1", fresh_switch) ∷ [];
  order = "leaf1" ∷ "spine1" ∷ [];
}

stripped : strip_scheme "https://10.0.0.9" ≡ "10.0.0.9"
unfolding strip_scheme cut_after after_prefix
stripped = refl

lookup-target_index_example :
    lookup "10.0.0.1" (target_index (leaf ∷ unnamed ∷ []))
    ≡ resolve "10.0.0.1" (owners "10.0.0.1" (leaf ∷ unnamed ∷ []))
lookup-target_index_example = lookup-target_index "10.0.0.1" refl (leaf ∷ unnamed ∷ [])

shared_host : lookup "10.0.0.1" (target_index (leaf ∷ unnamed ∷ [])) ≡ none
unfolding target_index add_all add_switch add_target label strip_scheme cut_after after_prefix
    drop_ambiguous lookup insert delete keys
shared_host = refl

spine_only :
    (other : SwitchConfig)
    → Memᴰ other (leaf ∷ spine ∷ [])
    → is_named "10.0.0.9" other ≡ true
    → label other ≡ label spine
unfolding label strip_scheme cut_after after_prefix
spine_only other (Memᴰ.head e) named =
    let here : is_named "10.0.0.9" leaf ≡ true =
      subst (λ y. is_named "10.0.0.9" y ≡ true) e named in
    absurd (ground (arith, here))
spine_only other (Memᴰ.tail (Memᴰ.head e)) named = ap label e
spine_only other (Memᴰ.tail (Memᴰ.tail t)) named = elim t [ ]

shadowed_label_example : lookup (label unnamed) (target_index (leaf ∷ unnamed ∷ [])) ≡ none
unfolding label
shadowed_label_example =
    shadowed_label leaf unnamed (unnamed ∷ []) (Memᴰ.head refl) refl refl
      (ground (arith, eq_iff "leaf1" "https://10.0.0.1"))

handle_target_sound_example : StandsFor "10.0.0.9" "spine1" (leaf ∷ spine ∷ [])
unfolding handle serve_label valid_modules target_index add_all add_switch add_target label
    strip_scheme cut_after after_prefix drop_ambiguous lookup insert delete keys
handle_target_sound_example =
    handle_target_sound two_switches of_spine (leaf ∷ spine ∷ []) "spine1" of_spine.filter refl refl

handle_refused_iff_example :
    (is_refused (handle two_switches (("10.0.0.9", "spine1") ∷ []) of_spine) ≡ false)
    ↔ IsAcceptable two_switches (("10.0.0.9", "spine1") ∷ []) of_spine
handle_refused_iff_example = handle_refused_iff two_switches of_spine (("10.0.0.9", "spine1") ∷ [])

-- ===== src/Config/Modules/Laws.antt =====
-- What the intervals and the merge of two collect blocks come to: resolveInterval,
-- EffectiveCollect, validateCollect.
use arex.Prelude.{
  ◌≡◌, refl, ◌↔◌, true, String, [], ◌∷◌, Option, none, some, ok, arith, eq_iff, if◌then◌else◌,
}
use arex.Prelude.Int.{◌≤ℤ◌, is_pos}
use arex.Prelude.Assoc.{lookup, copy_over}
use arex.Prelude.Assoc.Laws.{Distinct, or_else, copy_over-Distinct, lookup-copy_over}
use arex.GoTime.{Duration}
use arex.Config.Types.{ModuleConfig, CollectSet, SwitchConfig}
use arex.Config.Modules.{
  resolve_interval, resolve_all, effective_collect, is_known_key, validate_collect,
}

-- No module is polled more often than the loop ticks.
pub resolve_interval-floor :
    (k : String) (explicit poll : Duration) → poll ≤ℤ resolve_interval k explicit poll
unfolding resolve_interval
resolve_interval-floor k explicit poll = ground arith

-- What an entry of the merged block comes to.
abbrev pub resolved : String → Duration → Option ModuleConfig → Option ModuleConfig
resolved k poll none = none
resolved k poll (some m) =
    if m.enabled
    then some (record { enabled = true; interval = resolve_interval k m.interval poll })
    else none

pub lookup-resolve_all :
    (k : String) (poll : Duration) (m : CollectSet)
    → Distinct m
    → lookup k (resolve_all poll m) ≡ resolved k poll (lookup k m)
unfolding resolve_all lookup
lookup-resolve_all k poll [] d = refl
lookup-resolve_all k poll ((j, v) ∷ m) d =
    ground (arith, eq_iff j k, lookup-resolve_all k poll m d.1)

-- A switch collects exactly the groups that its own block, or failing an entry there the
-- defaults, enables, each at its resolved interval.
pub lookup-effective_collect :
    (k : String) (s : SwitchConfig) (defaults : CollectSet) (poll : Duration)
    → Distinct s.collect
    → Distinct defaults
    → lookup k (effective_collect s defaults poll)
      ≡ resolved k poll (or_else (lookup k s.collect) (lookup k defaults))
unfolding effective_collect lookup
lookup-effective_collect k s defaults poll own shared = ground (
  arith,
  lookup-resolve_all k poll (copy_over s.collect (copy_over defaults []))
      (copy_over-Distinct s.collect (copy_over defaults []) (copy_over-Distinct defaults [] tt)),
  lookup-copy_over k s.collect (copy_over defaults []) own,
  lookup-copy_over k defaults [] shared,
)

-- An entry is acceptable: its key is known, and a stated interval is no shorter than the poll's.
abbrev pub Acceptable : Duration → String → ModuleConfig → Type 0
Acceptable poll k m = (is_known_key k ≡ true) × (is_pos m.interval ≡ true → poll ≤ℤ m.interval)

pub validate_collect_sound :
    (set : CollectSet) (location : String) (poll : Duration) (k : String) (m : ModuleConfig)
    → validate_collect set location poll ≡ ok tt
    → lookup k set ≡ some m
    → Acceptable poll k m
unfolding validate_collect lookup
validate_collect_sound [] location poll k m h e = ground arith
validate_collect_sound ((j, w) ∷ rest) location poll k m h e =
    ground (arith, eq_iff j k, validate_collect_sound rest location poll k m)

validate_collect_complete :
    (set : CollectSet) (location : String) (poll : Duration)
    → Distinct set
    → ((k : String) (m : ModuleConfig) → lookup k set ≡ some m → Acceptable poll k m)
    → validate_collect set location poll ≡ ok tt
unfolding validate_collect lookup
validate_collect_complete [] location poll d h = refl
validate_collect_complete ((j, w) ∷ rest) location poll d h =
    ground (arith, eq_iff j j, h j w, validate_collect_complete rest location poll d.1 later)
  where
    later : (k : String) (m : ModuleConfig) → lookup k rest ≡ some m → Acceptable poll k m
    later k m e = h k m (ground (arith, eq_iff j k, d.0))

-- A collect block passes exactly when each of its entries is acceptable.
pub validate_collect_iff :
    (set : CollectSet) (location : String) (poll : Duration)
    → Distinct set
    → (validate_collect set location poll ≡ ok tt)
      ↔ ((k : String) (m : ModuleConfig) → lookup k set ≡ some m → Acceptable poll k m)
validate_collect_iff set location poll d = (
  λ h k m. validate_collect_sound set location poll k m h,
  validate_collect_complete set location poll d,
)

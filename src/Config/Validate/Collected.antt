-- ===== src/Config/Validate/Collected.antt =====
-- What the switches of a configuration that validate of config/config.go accepts collect.
use arex.Prelude.{
  ◌≡◌, refl, sym, ap, ◌∙◌, ◌⊎◌, inl, inr, true, String, [], Memᴰ, Option, none, some, ok, arith,
  Bool-cases,
}
use arex.Prelude.Int.{◌≤ℤ◌}
use arex.Prelude.Assoc.{lookup}
use arex.Prelude.Assoc.Laws.{Distinct, or_else}
use arex.GoTime.{Duration}
use arex.Config.Types.{CollectSet, ModuleConfig, SwitchConfig, Config}
use arex.Config.Files.{FileSystem, Warning}
use arex.Config.Modules.{is_known_key, effective_collect}
use arex.Config.Modules.Laws.{resolved, resolve_interval-floor, lookup-effective_collect}
use arex.Config.Validate.{validate}
use arex.Config.Validate.Laws.{validate-IsSound}

resolved_acceptable :
    (poll : Duration) (k : String) (o : Option ModuleConfig) (m : ModuleConfig)
    → ((given : ModuleConfig) → o ≡ some given → is_known_key k ≡ true)
    → resolved k poll o ≡ some m
    → (is_known_key k ≡ true) × (poll ≤ℤ m.interval)
resolved_acceptable poll k none m known h = absurd (ground arith)
resolved_acceptable poll k (some given) m known h = elim (Bool-cases given.enabled) [
  | inl on ↦
      let floor = resolve_interval-floor k given.interval poll in
      (known given refl, ground (arith, on, h, floor))
  | inr off ↦ absurd (ground (arith, off, h))
]

block_of : Option CollectSet → CollectSet
block_of none = []
block_of (some block) = block

own_or_common :
    (own common : Option ModuleConfig) (given : ModuleConfig)
    → or_else own common ≡ some given
    → (own ≡ some given) ⊎ (common ≡ some given)
own_or_common none common given h = inr h
own_or_common (some m) common given h = inl h

-- What a switch of an accepted configuration collects, of its own block and the common one, are known
-- groups, and each is collected no faster than the loop ticks. The keys of each block are distinct.
pub validate_collects_known :
    (fs : FileSystem) (c after : Config Warning) (sw : SwitchConfig) (block : CollectSet)
    (k : String) (m : ModuleConfig)
    → validate fs c ≡ ok after
    → Memᴰ sw c.switches
    → c.collect ≡ some block
    → Distinct sw.collect
    → Distinct block
    → lookup k (effective_collect sw block c.poll_interval) ≡ some m
    → (is_known_key k ≡ true) × (c.poll_interval ≤ℤ m.interval)
unfolding block_of
validate_collects_known fs c after sw block k m accepted listed common own_distinct distinct h =
    let sound = validate-IsSound fs c after accepted in
    let (block', (found, acceptable)) = sound.3 in
    let same : block' ≡ block = ap block_of (sym found ∙ common) in
    let known : (given : ModuleConfig)
        → or_else (lookup k sw.collect) (lookup k block) ≡ some given
        → is_known_key k ≡ true =
      λ given e. elim (own_or_common (lookup k sw.collect) (lookup k block) given e) [
        | inl own ↦ ((sound.2 sw listed).4 k given own).0
        | inr shared ↦ (acceptable k given (ap (λ b. lookup k b) same ∙ shared)).0
      ] in
    resolved_acceptable c.poll_interval k (or_else (lookup k sw.collect) (lookup k block)) m known
      (sym (lookup-effective_collect k sw block c.poll_interval own_distinct distinct) ∙ h)

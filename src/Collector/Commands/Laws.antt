-- ===== src/Collector/Commands/Laws.antt =====
-- That the commands of a switch never collide, whatever it collects: commandsFor of
-- internal/collector/collector.go.
use arex.Prelude.{
  ◌≡◌, refl, ◌∙◌, Bool, true, false, not, ◌&&◌, ◌||◌, String, str_eq, List, [], ◌∷◌, ◌++◌, map, any,
  keep, arith, Option-cases, Bool-cases, inl, inr, ◌⊎◌,
}
use arex.Prelude.Assoc.{lookup}
use arex.GoTime.{Duration}
use arex.Config.Types.{ModuleConfig, CollectSet}
use arex.Collector.Commands.{
  CmdSpec, specialise, specs_or_nil, optional_commands, command_order, key_commands, optional_for,
  commands_for, version_command,
}
use arex.Collector.Output.Laws.{slot_eq}
use arex.Collector.Schedule.Laws.{NamesDiffer}
use arex.Collector.Collect.Apply.{SlotsDiffer}

any-append : (q : CmdSpec → Bool) (xs ys : List CmdSpec) → any q (xs ++ ys) ≡ (any q xs || any q ys)
any-append q [] ys = refl
any-append q (x ∷ xs) ys = ground (arith, any-append q xs ys)

-- No later spec collides with an earlier one.
abbrev Apart : (CmdSpec → CmdSpec → Bool) → List CmdSpec → Type 0
Apart collide [] = Unit
Apart collide (c ∷ cs) = (any (λ e. collide e c) cs ≡ false) × Apart collide cs

abbrev is_apart : (CmdSpec → CmdSpec → Bool) → List CmdSpec → Bool
is_apart collide [] = true
is_apart collide (c ∷ cs) = not (any (λ e. collide e c) cs) && is_apart collide cs

is_apart-Apart :
    (collide : CmdSpec → CmdSpec → Bool) (specs : List CmdSpec)
    → is_apart collide specs ≡ true
    → Apart collide specs
is_apart-Apart collide [] h = tt
is_apart-Apart collide (c ∷ cs) h = (ground arith, is_apart-Apart collide cs (ground arith))

-- The commands of keys as the table has them.
abbrev table_for : List String → List CmdSpec
table_for [] = []
table_for (key ∷ rest) = specs_or_nil (lookup key optional_commands) ++ table_for rest

keep-Apart :
    (collide : CmdSpec → CmdSpec → Bool) (p : CmdSpec → Bool) (specs : List CmdSpec)
    → Apart collide specs
    → Apart collide (keep p specs)
keep-Apart collide p [] h = tt
keep-Apart collide p (c ∷ cs) h = elim (Bool-cases (p c)) [
  | inl kept ↦ rw kept (any_keep (λ e. collide e c) p cs h.0, keep-Apart collide p cs h.1)
  | inr dropped ↦ rw dropped (keep-Apart collide p cs h.1)
]
  where
    any_keep :
        (q : CmdSpec → Bool) (p : CmdSpec → Bool) (specs : List CmdSpec)
        → any q specs ≡ false
        → any q (keep p specs) ≡ false
    any_keep q p [] h = refl
    any_keep q p (x ∷ xs) h = ground (arith, any_keep q p xs)

module _ (collide : CmdSpec → CmdSpec → Bool)
    (same : (key scope : String) (m : ModuleConfig) (poll : Duration) (a b : CmdSpec)
      → (collide (specialise key scope m poll a) b ≡ collide a b)
        × (collide a (specialise key scope m poll b) ≡ collide a b))
    (collect : CollectSet) (scope : String) (poll : Duration) where
  any-map-specialise :
      (key : String) (m : ModuleConfig) (c : CmdSpec) (specs : List CmdSpec)
      → any (λ e. collide e c) (map (specialise key scope m poll) specs)
        ≡ any (λ e. collide e c) specs
  any-map-specialise key m c [] = refl
  any-map-specialise key m c (x ∷ xs) =
      rw ((same key scope m poll x c).0, any-map-specialise key m c xs) refl

  any_specialised :
      (key : String) (m : ModuleConfig) (c : CmdSpec) (specs : List CmdSpec)
      → any (λ e. collide e (specialise key scope m poll c)) specs ≡ any (λ e. collide e c) specs
  any_specialised key m c [] = refl
  any_specialised key m c (x ∷ xs) =
      rw ((same key scope m poll x c).1, any_specialised key m c xs) refl

  key_commands_cases :
      (key : String)
      → (key_commands collect scope poll key ≡ [])
        ⊎ ((m : ModuleConfig) × (key_commands collect scope poll key
              ≡ map (specialise key scope m poll) (specs_or_nil (lookup key optional_commands))))
  unfolding key_commands
  key_commands_cases key = elim (Option-cases (lookup key collect)) [
    | inl e ↦ inl (rw (e, key_commands) refl)
    | inr (m, e) ↦ elim (Bool-cases m.enabled) [
      | inl on ↦ inr (m, rw (e, key_commands, on) refl)
      | inr off ↦ inl (rw (e, key_commands, off) refl)
    ]
  ]

  any-optional_for :
      (c : CmdSpec) (keys : List String)
      → any (λ e. collide e c) (table_for keys) ≡ false
      → any (λ e. collide e c) (optional_for collect scope poll keys) ≡ false
  unfolding optional_for
  any-optional_for c [] h = refl
  any-optional_for c (key ∷ rest) h =
      let hit : CmdSpec → Bool = λ e. collide e c in
      let table = specs_or_nil (lookup key optional_commands) in
      let split = any-append hit table (table_for rest) in
      let ih = any-optional_for c rest in
      elim (key_commands_cases key) [
        | inl e ↦ rw e (ih (ground arith))
        | inr (m, e) ↦
            rw
              (
                e,
                any-append hit (map (specialise key scope m poll) table)
                    (optional_for collect scope poll rest),
                any-map-specialise key m c table,
              )
              (ground (arith, ih))
      ]

  tail-Apart : (l t : List CmdSpec) → Apart collide (l ++ t) → Apart collide t
  tail-Apart [] t h = h
  tail-Apart (x ∷ l) t h = tail-Apart l t h.1

  prepend-Apart :
      (key : String) (m : ModuleConfig) (l t t' : List CmdSpec)
      → ((c : CmdSpec) → any (λ e. collide e c) t ≡ false → any (λ e. collide e c) t' ≡ false)
      → Apart collide (l ++ t)
      → Apart collide t'
      → Apart collide (map (specialise key scope m poll) l ++ t')
  prepend-Apart key m [] t t' carry h h' = h'
  prepend-Apart key m (x ∷ l) t t' carry h h' =
      let hit : CmdSpec → Bool = λ e. collide e x in
      let l' = map (specialise key scope m poll) l in
      let free : any hit (l' ++ t') ≡ false =
        rw (any-append hit l' t', any-map-specialise key m x l)
          (ground (arith, any-append hit l t, carry x)) in
      (any_specialised key m x (l' ++ t') ∙ free, prepend-Apart key m l t t' carry h.1 h')

  optional_for-Apart :
      (keys : List String)
      → Apart collide (table_for keys)
      → Apart collide (optional_for collect scope poll keys)
  unfolding optional_for
  optional_for-Apart [] h = tt
  optional_for-Apart (key ∷ rest) h =
      let table = specs_or_nil (lookup key optional_commands) in
      let later = optional_for-Apart rest (tail-Apart table (table_for rest) h) in
      elim (key_commands_cases key) [
        | inl e ↦ rw e later
        | inr (m, e) ↦ rw e (
            prepend-Apart key m table (table_for rest) (optional_for collect scope poll rest)
              (λ c. any-optional_for c rest) h later)
      ]

abbrev same_name : CmdSpec → CmdSpec → Bool
same_name e c = str_eq e.name c.name

abbrev same_slot : CmdSpec → CmdSpec → Bool
same_slot e c = slot_eq e.slot c.slot

same_name_kept :
    (key scope : String) (m : ModuleConfig) (poll : Duration) (a b : CmdSpec)
    → (same_name (specialise key scope m poll a) b ≡ same_name a b)
      × (same_name a (specialise key scope m poll b) ≡ same_name a b)
unfolding specialise
same_name_kept key scope m poll a b = (refl, refl)

same_slot_kept :
    (key scope : String) (m : ModuleConfig) (poll : Duration) (a b : CmdSpec)
    → (same_slot (specialise key scope m poll a) b ≡ same_slot a b)
      × (same_slot a (specialise key scope m poll b) ≡ same_slot a b)
unfolding specialise
same_slot_kept key scope m poll a b = (refl, refl)

-- The commands of a switch have different names, whatever it collects.
pub commands_for-NamesDiffer :
    (collect : CollectSet) (scope : String) (poll : Duration)
    → NamesDiffer (commands_for collect scope poll)
unfolding commands_for lookup
commands_for-NamesDiffer collect scope poll = (
  any-optional_for same_name same_name_kept collect scope poll version_command command_order refl,
  optional_for-Apart same_name same_name_kept collect scope poll command_order
      (is_apart-Apart same_name (table_for command_order) refl),
)

-- The commands of a switch write different fields, whatever it collects.
pub commands_for-SlotsDiffer :
    (collect : CollectSet) (scope : String) (poll : Duration)
    → SlotsDiffer (commands_for collect scope poll)
unfolding commands_for lookup
commands_for-SlotsDiffer collect scope poll = (
  any-optional_for same_slot same_slot_kept collect scope poll version_command command_order refl,
  optional_for-Apart same_slot same_slot_kept collect scope poll command_order
      (is_apart-Apart same_slot (table_for command_order) refl),
)

-- The commands that are due are some of them, and differ too.
pub kept-NamesDiffer :
    (p : CmdSpec → Bool) (specs : List CmdSpec) → NamesDiffer specs → NamesDiffer (keep p specs)
kept-NamesDiffer p specs h = keep-Apart same_name p specs h

pub kept-SlotsDiffer :
    (p : CmdSpec → Bool) (specs : List CmdSpec) → SlotsDiffer specs → SlotsDiffer (keep p specs)
kept-SlotsDiffer p specs h = keep-Apart same_slot p specs h

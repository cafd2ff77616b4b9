-- ===== src/Metrics/Targets/Owners.antt =====
-- Which targets resolve, and to which switch: TargetIndex of internal/metrics/handler.go.
use arex.Prelude.{
  ◌≡◌, ◌≢◌, refl, sym, ap, subst, Memᴰ, ◌∙◌, ◌⊎◌, inl, inr, true, false, String, nonempty, List, [],
  ◌∷◌, none, some, arith, eq_iff, Bool-cases,
}
use arex.Prelude.Assoc.{lookup}
use arex.Config.Types.{SwitchConfig, label}
use arex.Metrics.Targets.{target_index}
use arex.Metrics.Targets.Laws.{is_named, owners, differs, resolve, first_owner, lookup-target_index}

-- A switch of the label is named by the target; and every switch that is has the label, or the
-- target is the label itself.
abbrev pub StandsFor : String → String → List SwitchConfig → Type 0
StandsFor key l switches =
    ((sw : SwitchConfig) × (Memᴰ sw switches × (label sw ≡ l) × (is_named key sw ≡ true)))
    × ((l ≡ key) ⊎ ((sw : SwitchConfig) → Memᴰ sw switches → is_named key sw ≡ true → label sw ≡ l))

module _ (key : String) (given : nonempty key ≡ true) where
  first_owner_given :
      (switches : List SwitchConfig) (sw : SwitchConfig) (l : String)
      → ((other : SwitchConfig) → Memᴰ other switches → is_named key other ≡ true → label other ≡ l)
      → Memᴰ sw switches
      → is_named key sw ≡ true
      → first_owner (owners key switches) ≡ some l
  first_owner_given [] sw l same mem named = elim mem [ ]
  first_owner_given (x ∷ xs) sw l same (Memᴰ.head e) named =
      let here : is_named key x ≡ true = subst (λ y. is_named key y ≡ true) e named in
      rw here (ap some (same x (Memᴰ.head refl) here))
  first_owner_given (x ∷ xs) sw l same (Memᴰ.tail t) named =
      let ih = first_owner_given xs sw l (λ o m. same o (Memᴰ.tail m)) t named in
      ground (arith, ih, same x (Memᴰ.head refl))

  differs_given :
      (switches : List SwitchConfig) (l : String)
      → ((other : SwitchConfig) → Memᴰ other switches → is_named key other ≡ true → label other ≡ l)
      → differs l (owners key switches) ≡ false
  differs_given [] l same = refl
  differs_given (x ∷ xs) l same =
      let ih = differs_given xs l (λ o m. same o (Memᴰ.tail m)) in
      ground (arith, ih, same x (Memᴰ.head refl), eq_iff l (label x))

  resolve_given :
      (os : List String) (l : String)
      → first_owner os ≡ some l
      → differs l os ≡ false
      → resolve key os ≡ some l
  resolve_given [] l h k = ground arith
  resolve_given (o ∷ os) l h k = ground arith

  -- A target that names a switch, and names no switch with another label, resolves to its label. The
  -- target is not the empty text.
  pub target_resolves :
      (switches : List SwitchConfig) (sw : SwitchConfig)
      → Memᴰ sw switches
      → is_named key sw ≡ true
      → ((other : SwitchConfig)
          → Memᴰ other switches
          → is_named key other ≡ true
          → label other ≡ label sw)
      → lookup key (target_index switches) ≡ some (label sw)
  target_resolves switches sw mem named same =
      lookup-target_index key given switches
      ∙ resolve_given (owners key switches) (label sw)
          (first_owner_given switches sw (label sw) same mem named)
          (differs_given switches (label sw) same)

  owned :
      (switches : List SwitchConfig) (sw : SwitchConfig) (l : String)
      → Memᴰ sw switches
      → is_named key sw ≡ true
      → differs l (owners key switches) ≡ false
      → label sw ≡ l
  owned [] sw l mem named h = elim mem [ ]
  owned (x ∷ xs) sw l (Memᴰ.head e) named h =
      let here : is_named key x ≡ true = subst (λ y. is_named key y ≡ true) e named in
      let same : label x ≡ l = ground (arith, eq_iff l (label x)) in ap label e ∙ same
  owned (x ∷ xs) sw l (Memᴰ.tail t) named h = owned xs sw l t named (ground arith)

  first_owned :
      (switches : List SwitchConfig) (l : String)
      → first_owner (owners key switches) ≡ some l
      → (sw : SwitchConfig) × (Memᴰ sw switches × (label sw ≡ l) × (is_named key sw ≡ true))
  first_owned [] l h = absurd (ground (arith, h))
  first_owned (x ∷ xs) l h = elim (Bool-cases (is_named key x)) [
    | inl named ↦ (x, (Memᴰ.head refl, ground arith, named))
    | inr other ↦
        let (sw, (mem, same, named)) = first_owned xs l (ground arith) in
        (sw, (Memᴰ.tail mem, same, named))
  ]

  resolve_sound :
      (os : List String) (l : String)
      → resolve key os ≡ some l
      → (first_owner os ≡ some l) × ((l ≡ key) ⊎ (differs l os ≡ false))
  resolve_sound [] l h = ground arith
  resolve_sound (o ∷ os) l h =
      let first : o ≡ l = ground arith in
      (
        ap some first,
        elim (Bool-cases (differs o os)) [
          | inl clashes ↦ inl (ground (arith, eq_iff o key))
          | inr alone ↦
              inr (subst (λ x. differs x (o ∷ os) ≡ false) first (ground (arith, eq_iff o o)))
        ],
      )

  -- A target that resolves stands for the switch that it resolves to: that switch has the label and
  -- is named by the target, and no switch with another label is, unless the target is the label. The
  -- target is not the empty text.
  pub target_index_sound :
      (switches : List SwitchConfig) (l : String)
      → lookup key (target_index switches) ≡ some l
      → StandsFor key l switches
  target_index_sound switches l h =
      let (first, alone) =
        resolve_sound (owners key switches) l (sym (lookup-target_index key given switches) ∙ h) in
      (
        first_owned switches l first,
        elim alone [
          | inl same ↦ inl same
          | inr same ↦ inr (λ sw mem named. owned switches sw l mem named same)
        ],
      )

-- A label that the first switch, of another label, has as its host, or as its host without the
-- scheme, does not resolve. The label is not empty.
pub shadowed_label :
    (first sw : SwitchConfig) (rest : List SwitchConfig)
    → Memᴰ sw rest
    → nonempty (label sw) ≡ true
    → is_named (label sw) first ≡ true
    → label first ≢ label sw
    → lookup (label sw) (target_index (first ∷ rest)) ≡ none
shadowed_label first sw rest mem given named apart =
    let key = label sw in
    let spec = lookup-target_index key given (first ∷ rest) in
    let self : is_named key sw ≡ true = ground (arith, eq_iff key key) in
    elim (Bool-cases (differs (label first) (owners key rest))) [
      | inl clashes ↦ spec ∙ ground (arith, eq_iff (label first) key)
      | inr same ↦ absurd (apart (sym (owned key given rest sw (label first) mem self same)))
    ]

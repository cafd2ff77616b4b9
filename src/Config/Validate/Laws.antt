-- ===== src/Config/Validate/Laws.antt =====
-- What a configuration that validate of config/config.go accepts is sure to have.
use arex.Prelude.{
  ℕ, suc, ◌+◌, ◌≤◌, ◌<◌, ◌≡◌, ◌≢◌, ◌↔◌, refl, Bool, true, false, String, nonempty, List, [], ◌∷◌,
  Memᴰ, subst, sym, ◌∙◌, Option-cases, itoa, ◌+s◌, length, some, ok, arith, eq_iff, Result-cases,
  Bool-cases, if◌then◌else◌, inl, inr,
}
use arex.Prelude.Int.{is_zero}
use arex.Prelude.Assoc.{lookup}
use arex.Config.Types.{
  CollectSet, ModuleConfig, SwitchConfig, Config, label, effective_password_file,
}
use arex.Config.Modules.{scope_is_valid, validate_collect}
use arex.Config.Modules.Laws.{Acceptable, validate_collect_sound}
use arex.Config.Files.{FileSystem, Warning}
use arex.Config.Validate.{
  load, apply_defaults, check_credential, check_verification, validate_switch, validate_switches,
  validate, as_error, bad_collect, validate_collect_block, reserved_target, max_switches,
}

abbrev pub bit : Bool → ℕ
bit true = 1
bit false = 0

-- Exactly one way to verify the certificate of a switch is set.
abbrev pub IsVerified : SwitchConfig → Type 0
IsVerified sw =
    bit (nonempty sw.ca_file) + bit (nonempty sw.pinned_cert_sha256) + bit sw.tls_skip_verify ≡ 1

-- A switch passes the test of its verification exactly if one way to verify it is set, and one only.
pub check_verification_iff :
    (i : ℕ) (sw : SwitchConfig) → (check_verification i sw ≡ ok tt) ↔ IsVerified sw
unfolding check_verification
check_verification_iff i sw = (λ h. ground arith, λ h. ground arith)

-- What is sure of a switch: it is named and addressed, has exactly one credential, is not named as
-- arex itself, collects known groups no faster than the loop ticks, and is verified one way.
abbrev pub IsSound : Config Warning → SwitchConfig → Type 0
IsSound c sw =
    (nonempty sw.host ≡ true)
    × (nonempty sw.username ≡ true)
    × (bit (nonempty sw.password) + bit (nonempty (effective_password_file sw c.password_file)) ≡ 1)
    × (label sw ≢ reserved_target)
    × ((k : String) (m : ModuleConfig)
        → lookup k sw.collect ≡ some m
        → Acceptable c.poll_interval k m)
    × (scope_is_valid sw.interface_scope ≡ true)
    × IsVerified sw

inline_wins :
    (sw : SwitchConfig) (fleet : String)
    → nonempty sw.password ≡ true
    → effective_password_file sw fleet ≡ ""
unfolding effective_password_file
inline_wins sw fleet h = ground (arith, h)

credential_sound :
    (fs : FileSystem) (fleet : String) (i : ℕ) (sw : SwitchConfig) (ws : List Warning)
    → check_credential fs fleet i sw ≡ ok ws
    → bit (nonempty sw.password) + bit (nonempty (effective_password_file sw fleet)) ≡ 1
unfolding check_credential
credential_sound fs fleet i sw ws h = elim (Bool-cases (nonempty sw.password)) [
  | inl inline ↦ rw (inline_wins sw fleet inline) (ground arith)
  | inr absent ↦ ground arith
]

switch-IsSound :
    (fs : FileSystem) (c : Config Warning) (i : ℕ) (sw : SwitchConfig) (ws : List Warning)
    → validate_switch fs c i sw ≡ ok ws
    → IsSound c sw
unfolding validate_switch
switch-IsSound fs c i sw ws h =
    let location = "switch[" +s itoa i +s "] (" +s label sw +s ")" in
    let collected = validate_collect sw.collect location c.poll_interval in
    elim (Result-cases (check_credential fs c.password_file i sw)) [
      | inl (found, e) ↦ elim (Result-cases collected) [
        | inl (u, e') ↦
            let verified : check_verification i sw ≡ ok tt = ground arith in
            (
              ground arith,
              ground arith,
              credential_sound fs c.password_file i sw found e,
              ground (arith, eq_iff (label sw) reserved_target),
              λ k m. validate_collect_sound sw.collect location c.poll_interval k m e',
              ground arith,
              (check_verification_iff i sw).0 verified,
            )
        | inr (x, e') ↦ absurd (ground arith)
      ]
      | inr (x, e) ↦ absurd (ground arith)
    ]

switches-IsSound :
    (fs : FileSystem) (c : Config Warning) (i : ℕ) (switches : List SwitchConfig)
    (ws : List Warning) (sw : SwitchConfig)
    → validate_switches fs c i switches ≡ ok ws
    → Memᴰ sw switches
    → IsSound c sw
unfolding validate_switches
switches-IsSound fs c i [] ws sw h mem = elim mem [ ]
switches-IsSound fs c i (x ∷ xs) ws sw h (Memᴰ.head e) =
    elim (Result-cases (validate_switch fs c i x)) [
      | inl (found, e') ↦ subst (λ y. IsSound c y) (sym e) (switch-IsSound fs c i x found e')
      | inr (bad, e') ↦ absurd (ground arith)
    ]
switches-IsSound fs c i (x ∷ xs) ws sw h (Memᴰ.tail t) =
    elim (Result-cases (validate_switches fs c (suc i) xs)) [
      | inl (more, e') ↦ switches-IsSound fs c (suc i) xs more sw e' t
      | inr (bad, e') ↦ elim (Result-cases (validate_switch fs c i x)) [
        | inl (found, e'') ↦ absurd (ground arith)
        | inr (worse, e'') ↦ absurd (ground arith)
      ]
    ]

block_sound :
    (c : Config Warning)
    → validate_collect_block c ≡ ok tt
    → (block : CollectSet) × ((c.collect ≡ some block)
        × (validate_collect block "collect" c.poll_interval ≡ ok tt))
unfolding validate_collect_block
block_sound c h = elim (Option-cases c.collect) [
  | inl missing ↦ absurd (ground (arith, h, missing))
  | inr (block, found) ↦
      let passed : as_error bad_collect (validate_collect block "collect" c.poll_interval) ≡ ok tt =
        sym (rw (validate_collect_block, found) refl) ∙ h in
      (
        block,
        (
          found,
          elim (Result-cases (validate_collect block "collect" c.poll_interval)) [
            | inl (u, e) ↦ e
            | inr (x, e) ↦ absurd (ground (arith, passed, e))
          ],
        ),
      )
]

-- The common block is there, and each of its entries has a known key and no interval under the
-- poll's.
abbrev pub HasSoundBlock : Config Warning → Type 0
HasSoundBlock c =
    (block : CollectSet) × ((c.collect ≡ some block)
      × ((k : String) (m : ModuleConfig)
          → lookup k block ≡ some m
          → Acceptable c.poll_interval k m))

block-HasSoundBlock : (c : Config Warning) → validate_collect_block c ≡ ok tt → HasSoundBlock c
block-HasSoundBlock c h =
    let (block, (found, passed)) = block_sound c h in
    (block, (found, λ k m. validate_collect_sound block "collect" c.poll_interval k m passed))

block_passed :
    (fs : FileSystem) (c after : Config Warning)
    → validate fs c ≡ ok after
    → validate_collect_block c ≡ ok tt
unfolding validate
block_passed fs c after h = elim (Result-cases (validate_collect_block c)) [
  | inl (u, e) ↦ e
  | inr (x, e) ↦ absurd (ground arith)
]

pub validate-IsSound :
    (fs : FileSystem) (c after : Config Warning)
    → validate fs c ≡ ok after
    → (0 < length c.switches)
      × (length c.switches ≤ max_switches)
      × ((sw : SwitchConfig) → Memᴰ sw c.switches → IsSound c sw)
      × HasSoundBlock c
unfolding validate
validate-IsSound fs c after h = elim (Result-cases (validate_switches fs c 0 c.switches)) [
  | inl (ws, e) ↦ (
    ground arith,
    ground arith,
    λ sw mem. switches-IsSound fs c 0 c.switches ws sw e mem,
    block-HasSoundBlock c (block_passed fs c after h),
  )
  | inr (bad, e) ↦ absurd (ground arith)
]

validate_keeps :
    (fs : FileSystem) (c after : Config Warning)
    → validate fs c ≡ ok after
    → (after.listen_address ≡ c.listen_address)
      × (after.poll_interval ≡ c.poll_interval)
      × (after.scrape_timeout ≡ c.scrape_timeout)
unfolding validate
validate_keeps fs c after h = (ground arith, ground arith, ground arith)

default_given :
    (s default : String)
    → nonempty default ≡ true
    → nonempty (if nonempty s then s else default) ≡ true
default_given s default h = elim (Bool-cases (nonempty s)) [
  | inl given ↦ rw given given
  | inr absent ↦ rw absent h
]

defaults_given :
    (c : Config Warning)
    → let d = apply_defaults c in
      (nonempty d.listen_address ≡ true)
      × (is_zero d.poll_interval ≡ false)
      × (is_zero d.scrape_timeout ≡ false)
unfolding apply_defaults
defaults_given c = (default_given c.listen_address ":9100" refl, ground arith, ground arith)

-- A loaded configuration listens somewhere, and neither its poll interval nor its timeout is zero.
pub load_defaults :
    (fs : FileSystem) (c after : Config Warning)
    → load fs c ≡ ok after
    → (nonempty after.listen_address ≡ true)
      × (is_zero after.poll_interval ≡ false)
      × (is_zero after.scrape_timeout ≡ false)
unfolding load
load_defaults fs c after h =
    let kept = validate_keeps fs (apply_defaults c) after h in
    let given = defaults_given c in (ground arith, ground arith, ground arith)

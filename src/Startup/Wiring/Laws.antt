-- ===== src/Startup/Wiring/Laws.antt =====
-- The clients of an accepted configuration, and what is served without a password.
use arex.Prelude.{
  ◌+◌, ◌≡◌, refl, ap, ◌∙◌, sym, subst, ◌⊎◌, inl, inr, true, false, String, nonempty, Memᴰ, Option,
  some, Result, ok, err, str_eq, arith, Bool-cases, eq_iff, ok_injective,
}
use arex.Secret.{Credential, new_static_credential, new_file_credential, read, password_of}
use arex.Config.Types.{SwitchConfig, Config, effective_password_file, tls_options}
use arex.Config.Files.{FileSystem, Warning}
use arex.Config.Validate.{validate}
use arex.Config.Validate.Laws.{bit, validate-IsSound}
use arex.Eapi.Tls.{Verification, TlsError, build_tls_config}
use arex.Eapi.Tls.Laws.{IsVerified, build_tls_config-IsVerified}
use arex.Listen.Auth.{AuthState, Request, admit}
use arex.Listen.Auth.Laws.{GivesCredentials, admit-Authentic}
use arex.Startup.Wiring.{
  StartError, BuiltClient, ClientOptions, name_switch, credential_for, built, with_credential,
  new_client, probe_paths, let_through,
}

password_of_filled :
    (path : String) (res : Result String String) (pw : String)
    → password_of path res ≡ ok pw
    → nonempty pw ≡ true
unfolding password_of
password_of_filled path (err e) pw h = absurd (ground arith)
password_of_filled path (ok body) pw h = ground arith

named_filled :
    (sw : SwitchConfig) (path : String) (found : Result String String) (cred : Credential)
    → ((pw : String) → found ≡ ok pw → nonempty pw ≡ true)
    → name_switch sw
        (elim found [ err e ↦ err e | ok pw ↦ ok (record { password = pw; path = path }) ])
      ≡ ok cred
    → nonempty cred.password ≡ true
named_filled sw path (err e) cred filled h = absurd (ground arith)
named_filled sw path (ok pw) cred filled h =
    subst (λ (c : Credential). nonempty c.password ≡ true) (ok_injective _ cred _ refl h)
      (filled pw refl)

module _ {W A : Type 0} (read_file : String → W → W × Result String String) where
  module _ (sw : SwitchConfig) (cfg : Config A) (w : W) where
    from_the_file :
        nonempty (effective_password_file sw cfg.password_file) ≡ true
        → (credential_for read_file sw cfg w).1
          ≡ name_switch sw
              (new_file_credential read_file (effective_password_file sw cfg.password_file) w).1
    unfolding credential_for
    from_the_file given = rw (credential_for, given) refl

    from_the_switch :
        nonempty (effective_password_file sw cfg.password_file) ≡ false
        → (credential_for read_file sw cfg w).1 ≡ ok (new_static_credential sw.password)
    unfolding credential_for
    from_the_switch absent = rw (credential_for, absent) refl

    credential_for_filled :
        (cred : Credential)
        → bit (nonempty sw.password) + bit (nonempty (effective_password_file sw cfg.password_file))
          ≡ 1
        → (credential_for read_file sw cfg w).1 ≡ ok cred
        → nonempty cred.password ≡ true
    unfolding new_file_credential read new_static_credential
    credential_for_filled cred one h =
        let file = effective_password_file sw cfg.password_file in
        elim (Bool-cases (nonempty file)) [
          | inl given ↦
              named_filled sw file (password_of file (read_file file w).1) cred
                (password_of_filled file (read_file file w).1) (sym (from_the_file given) ∙ h)
          | inr absent ↦
              let static : new_static_credential sw.password ≡ cred =
                ok_injective _ cred _ refl (sym (from_the_switch absent) ∙ h) in
              subst (λ (c : Credential). nonempty c.password ≡ true) static
                (elim (Bool-cases (nonempty sw.password)) [
                  | inl filled ↦ filled
                  | inr empty ↦ absurd (ground (arith, one, absent, empty))
                ])
        ]

-- What is sure of a client: its password is not empty, and the switch is verified as it was asked.
abbrev pub IsReady : {P : Type 0} → SwitchConfig → BuiltClient P → Type 0
IsReady sw made = (nonempty made.client.cred.password ≡ true) × IsVerified (tls_options sw) made.tls

module _ {P A : Type 0} where
  built_parts :
      (sw : SwitchConfig) (cfg : Config A) (o : ClientOptions) (cred : Credential)
      (tls : Result TlsError (Verification P)) (made : BuiltClient P)
      → built sw cfg o cred tls ≡ ok made
      → (made.client.cred ≡ cred) × (tls ≡ ok made.tls)
  unfolding built
  built_parts sw cfg o cred (err e) made h = absurd (ground arith)
  built_parts sw cfg o cred (ok tls) made h =
      let same = ok_injective _ made _ refl h in
      (
        sym (ap (λ (m : BuiltClient P). m.client.cred) same),
        ap (λ (m : BuiltClient P). ok m.tls) same,
      )

  with_credential-IsReady :
      (sw : SwitchConfig) (cfg : Config A) (o : ClientOptions) (pool : Result String (Option P))
      (found : Result StartError Credential) (made : BuiltClient P)
      → ((cred : Credential) → found ≡ ok cred → nonempty cred.password ≡ true)
      → with_credential sw cfg o pool found ≡ ok made
      → IsReady sw made
  unfolding with_credential
  with_credential-IsReady sw cfg o pool (err e) made filled h = absurd (ground arith)
  with_credential-IsReady sw cfg o pool (ok cred) made filled h =
      let (same, verified) =
        built_parts sw cfg o cred (build_tls_config (tls_options sw) pool) made h in
      (
        subst (λ (c : Credential). nonempty c.password ≡ true) (sym same) (filled cred refl),
        build_tls_config-IsVerified (tls_options sw) pool made.tls verified,
      )

module _ {W P : Type 0} (read_file : String → W → W × Result String String)
    (pool : SwitchConfig → Result String (Option P)) where
  -- A client that is built for a switch of an accepted configuration has a password that is not
  -- empty, and it never leaves the switch unverified without being told to.
  pub new_client-IsReady :
      (fs : FileSystem) (c after : Config Warning) (sw : SwitchConfig) (o : ClientOptions) (w : W)
      (made : BuiltClient P)
      → validate fs c ≡ ok after
      → Memᴰ sw c.switches
      → (new_client read_file pool sw c o w).1 ≡ ok made
      → IsReady sw made
  unfolding new_client
  new_client-IsReady fs c after sw o w made accepted listed h =
      let sound = (validate-IsSound fs c after accepted).2 sw listed in
      with_credential-IsReady sw c o (pool sw) (credential_for read_file sw c w).1 made
        (λ cred. credential_for_filled read_file sw c w cred sound.2) h

module _ {W : Type 0} (read_file : String → W → W × Result String String) where
  -- Behind the authentication, a request that is let through is for one of the two probes, or it
  -- carries the user name and the password that are in memory once it is answered: the metrics and
  -- the status of the switches are never served without them.
  pub let_through_guards :
      (a : AuthState) (q : Request) (w : W)
      → let_through read_file (some a) q w ≡ true
      → ((q.path ≡ "/livez") ⊎ (q.path ≡ "/readyz"))
        ⊎ GivesCredentials q (admit read_file probe_paths a q w).state
  unfolding let_through
  let_through_guards a q w h = elim (admit-Authentic read_file probe_paths a q w h) [
    | inl exempt ↦ elim (Bool-cases (str_eq q.path "/livez")) [
      | inl livez ↦ inl (inl (ground (arith, eq_iff q.path "/livez")))
      | inr other ↦ inl (inr (ground (arith, eq_iff q.path "/readyz")))
    ]
    | inr given ↦ inr given
  ]

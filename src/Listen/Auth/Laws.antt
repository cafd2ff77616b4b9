-- ===== src/Listen/Auth/Laws.antt =====
-- What the authentication of internal/listen/auth.go lets through, and how often it reads the file.
use text.Mathlib.TextPositions.{eq_refl}
use arex.Prelude.{
  ap, ◌∙◌, ℕ, ◌+◌, ◌*◌, ◌≤◌, ◌≡◌, refl, sym, subst, Bool, true, false, ◌&&◌, String, str_eq, List,
  [], any, Option, none, some, Result, ok, err, arith, eq_iff, nonempty, Bool-cases, inl, inr, ◌⊎◌,
}
use arex.Prelude.Int.{ltb_ℤ}
use arex.GoTime.{Time, second, since, saturate64}
use arex.Secret.{Credential, reload, read, adopt}
use arex.Listen.Auth.{
  AuthState, Allowed, Request, reload_interval, matches, due, after_reload, allow, admit_basic,
  admit,
}

-- The request has the user name and the password that is in memory.
abbrev pub Authentic : AuthState → String → String → Type 0
Authentic a user pass = (user ≡ a.username) × (pass ≡ a.cred.password)

abbrev pub GivesCredentials : Request → AuthState → Type 0
GivesCredentials q a =
    (user : String) × ((pass : String) × ((q.basic ≡ some (user, pass)) × Authentic a user pass))

matches-Authentic :
    (a : AuthState) (user pass : String)
    → matches user pass a.username a.cred.password ≡ true
    → Authentic a user pass
unfolding matches
matches-Authentic a user pass h =
    (ground (arith, eq_iff user a.username), ground (arith, eq_iff pass a.cred.password))

matches_itself : (user pass : String) → matches user pass user pass ≡ true
unfolding matches
matches_itself user pass = rw (matches, eq_refl user, eq_refl pass) refl

unfoldable pub interval_ns : ℕ
interval_ns = 30 * second

-- A read is claimed an interval after the last one at the earliest.
due_spaced :
    (a : AuthState) (now : Time)
    → ltb_ℤ (since now a.reloaded) reload_interval ≡ false
    → a.reloaded + interval_ns ≤ now
unfolding since saturate64 interval_ns
due_spaced a now h = ground arith

due_after :
    (a : AuthState) (now : Time)
    → a.reloaded + interval_ns ≤ now
    → ltb_ℤ (since now a.reloaded) reload_interval ≡ false
unfolding since saturate64 interval_ns
due_after a now h = ground arith

and_false : (b : Bool) → b && false ≡ false
and_false b = ground arith

module _ {W : Type 0} (read_file : String → W → W × Result String String) where
  abbrev pub claimed_read : AuthState → String → String → Time → W → Allowed W
  claimed_read a user pass now w =
      let (w', cred, changed) = reload read_file a.cred w in
      after_reload read_file (record a { reloaded = now }) user pass w' cred changed

  -- The three ways of a request: its password is the one in memory, the file is not read, or it is.
  pub allow_cases {ℓ} :
      (P : Allowed W → Type ℓ) (a : AuthState) (user pass : String) (now : Time) (w : W)
      → (matches user pass a.username a.cred.password ≡ true
          → P (record { allowed = true; state = a; world = w; log = [] }))
      → P (record { allowed = false; state = a; world = w; log = [] })
      → (a.reloaded + interval_ns ≤ now → P (claimed_read a user pass now w))
      → P (allow read_file a user pass now w)
  unfolding allow due
  allow_cases P a user pass now w known refused reread =
      elim (Bool-cases (matches user pass a.username a.cred.password)) [
        | inl same ↦ rw (allow, same) (known same)
        | inr apart ↦ elim (Bool-cases (ltb_ℤ (since now a.reloaded) reload_interval)) [
          | inl early ↦ rw (allow, apart, due, early) refused
          | inr late ↦ rw (allow, apart, due, late) (reread (due_spaced a now late))
        ]
      ]

  after_reload-Authentic :
      (a : AuthState) (user pass : String) (w : W) (cred : Credential)
      (changed : Result String Bool)
      → (after_reload read_file a user pass w cred changed).allowed ≡ true
      → Authentic (after_reload read_file a user pass w cred changed).state user pass
  unfolding after_reload
  after_reload-Authentic a user pass w cred (err e) h = ground arith
  after_reload-Authentic a user pass w cred (ok false) h = ground arith
  after_reload-Authentic a user pass w cred (ok true) h =
      matches-Authentic (record a { cred = cred }) user pass h

  pub allow-Authentic :
      (a : AuthState) (user pass : String) (now : Time) (w : W)
      → (allow read_file a user pass now w).allowed ≡ true
      → Authentic (allow read_file a user pass now w).state user pass
  allow-Authentic a user pass now w =
      allow_cases (λ r. r.allowed ≡ true → Authentic r.state user pass) a user pass now w
        (λ same h. matches-Authentic a user pass same) (λ h. absurd (ground arith))
        (λ late.
          let (w', cred, changed) = reload read_file a.cred w in
          after_reload-Authentic (record a { reloaded = now }) user pass w' cred changed)

  admit_basic-Authentic :
      (a : AuthState) (basic : Option (String × String)) (now : Time) (w : W)
      → (admit_basic read_file a basic now w).allowed ≡ true
      → (user : String) × ((pass : String) × ((basic ≡ some (user, pass))
            × Authentic (admit_basic read_file a basic now w).state user pass))
  unfolding admit_basic
  admit_basic-Authentic a none now w h = absurd (ground arith)
  admit_basic-Authentic a (some (user, pass)) now w h =
      (user, (pass, (refl, allow-Authentic a user pass now w h)))

  -- A request that is passed on is for an exempt path, or it carries the user name and the password
  -- that are in memory once it is answered.
  pub admit-Authentic :
      (exempt : List String) (a : AuthState) (q : Request) (w : W)
      → (admit read_file exempt a q w).allowed ≡ true
      → (any (str_eq q.path) exempt ≡ true)
        ⊎ GivesCredentials q (admit read_file exempt a q w).state
  unfolding admit
  admit-Authentic exempt a q w h = elim (Bool-cases (any (str_eq q.path) exempt)) [
    | inl free ↦ inl free
    | inr guarded ↦
        let same : admit read_file exempt a q w ≡ admit_basic read_file a q.basic q.at w =
          rw (admit, guarded) refl in
        inr (
          subst (λ r. GivesCredentials q r.state) (sym same)
            (admit_basic-Authentic a q.basic q.at w (subst (λ r. r.allowed ≡ true) same h)))
  ]

  reload_changed :
      (c : Credential) (pass : String) (w : W)
      → nonempty c.path ≡ true
      → (read read_file c w).1 ≡ ok pass
      → str_eq pass c.password ≡ false
      → reload read_file c w ≡ ((read read_file c w).0, record c { password = pass }, ok true)
  unfolding reload adopt
  reload_changed c pass w file found apart = rw (reload, file, found, adopt, apart) refl

  -- The first request with a rotated password is let through, if the last read of the file was an
  -- interval ago at least: one whose user name is right and whose password is the file's, a readable
  -- file that is not empty.
  pub allow_rotated :
      (a : AuthState) (pass : String) (now : Time) (w : W)
      → nonempty a.cred.path ≡ true
      → a.reloaded + 30 * second ≤ now
      → (read read_file a.cred w).1 ≡ ok pass
      → (allow read_file a a.username pass now w).allowed ≡ true
  unfolding allow due after_reload matches interval_ns
  allow_rotated a pass now w file late found = elim (Bool-cases (str_eq pass a.cred.password)) [
    | inl same ↦ rw (allow, matches, eq_refl a.username, same) refl
    | inr apart ↦
        let read_anew : allow read_file a a.username pass now w
            ≡ claimed_read a a.username pass now w =
          rw (allow, matches, apart, and_false, due, due_after a now late) refl in
        ap (λ (r : Allowed W). r.allowed) read_anew
        ∙ ap
            (λ (x : W × Credential × Result String Bool).
              (after_reload read_file (record a { reloaded = now }) a.username pass x.0 x.1
                x.2).allowed)
            (reload_changed a.cred pass w file found apart)
        ∙ matches_itself a.username pass
  ]

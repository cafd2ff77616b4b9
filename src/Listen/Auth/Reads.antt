-- ===== src/Listen/Auth/Reads.antt =====
-- How often the authentication of internal/listen/auth.go reads the password file.
use arex.Prelude.{
  ℕ, ◌+◌, ◌*◌, ◌≤◌, ◌≡◌, refl, Bool, true, false, String, nonempty, str_eq, List, [], ◌∷◌, any, All,
  Option, none, some, Result, ok, err, arith, Bool-cases, inl, inr, ◌⊎◌,
}
use arex.GoTime.{Time}
use arex.Secret.{Credential, reload, read}
use arex.Listen.Auth.{
  AuthState, Allowed, Request, after_reload, allow, admit_basic, admit, admit_all,
}
use arex.Listen.Auth.Laws.{interval_ns, allow_cases}

module _ {W : Type 0} (read_file : String → W → W × Result String String) where
  -- What a request may do to the time of the last read: it stays, or it is moved by an interval at
  -- least to the time of the request, and a read then stands for it.
  abbrev pub Spaced : (W → ℕ) → AuthState → W → Time → Allowed W → Type 0
  Spaced reads a w now r =
      (reads r.world * interval_ns + a.reloaded ≤ reads w * interval_ns + r.state.reloaded)
      × (r.state.reloaded ≤ a.reloaded ⊎ r.state.reloaded ≡ now)

  module _ (reads : W → ℕ)
      (counted : (path : String) (w : W) → reads (read_file path w).0 ≤ reads w + 1) where
    reload_reads : (c : Credential) (w : W) → reads (reload read_file c w).0 ≤ reads w + 1
    unfolding reload read
    reload_reads c w = elim (Bool-cases (nonempty c.path)) [
      | inl file ↦ rw (reload, file) (counted c.path w)
      | inr static ↦ rw (reload, static) (omega arith)
    ]

    after_reload_keeps :
        (a : AuthState) (user pass : String) (w : W) (cred : Credential)
        (changed : Result String Bool)
        → ((after_reload read_file a user pass w cred changed).world ≡ w)
          × ((after_reload read_file a user pass w cred changed).state.reloaded ≡ a.reloaded)
    unfolding after_reload
    after_reload_keeps a user pass w cred (err e) = (refl, refl)
    after_reload_keeps a user pass w cred (ok false) = (refl, refl)
    after_reload_keeps a user pass w cred (ok true) = (refl, refl)

    allow-Spaced :
        (a : AuthState) (user pass : String) (now : Time) (w : W)
        → Spaced reads a w now (allow read_file a user pass now w)
    unfolding interval_ns
    allow-Spaced a user pass now w =
        allow_cases read_file (Spaced reads a w now) a user pass now w
          (λ same. (omega arith, inl (omega arith))) (omega arith, inl (omega arith))
          (λ late.
            let (w', cred, changed) = reload read_file a.cred w in
            let (world, time) =
              after_reload_keeps (record a { reloaded = now }) user pass w' cred changed in
            rw (world, time) (omega (arith, late, reload_reads a.cred w), inr refl))

    admit_basic-Spaced :
        (a : AuthState) (basic : Option (String × String)) (now : Time) (w : W)
        → Spaced reads a w now (admit_basic read_file a basic now w)
    unfolding admit_basic
    admit_basic-Spaced a none now w = (omega arith, inl (omega arith))
    admit_basic-Spaced a (some (user, pass)) now w = allow-Spaced a user pass now w

    admit-Spaced :
        (exempt : List String) (a : AuthState) (q : Request) (w : W)
        → Spaced reads a w q.at (admit read_file exempt a q w)
    unfolding admit
    admit-Spaced exempt a q w = elim (Bool-cases (any (str_eq q.path) exempt)) [
      | inl free ↦ rw (admit, free) (omega arith, inl (omega arith))
      | inr guarded ↦ rw (admit, guarded) (admit_basic-Spaced a q.basic q.at w)
    ]

    -- However many requests arrive, whatever they carry, the password file is read once for every
    -- reload interval at most: up to the time of the last one, counting from the start. A world
    -- counts its reads, and no request is later than the last.
    pub admit_all_reads :
        (exempt : List String) (a : AuthState) (qs : List Request) (w : W) (last : Time)
        → a.reloaded ≤ last
        → All (λ q. q.at ≤ last) qs
        → reads (admit_all read_file exempt a qs w).1 * interval_ns + a.reloaded
          ≤ reads w * interval_ns + last
    unfolding admit_all interval_ns
    admit_all_reads exempt a [] w last started in_time = omega arith
    admit_all_reads exempt a (q ∷ qs) w last started in_time =
        let one = admit-Spaced exempt a q w in
        let r : Allowed W = admit read_file exempt a q w in
        let later : r.state.reloaded ≤ last = elim one.1 [
          | inl kept ↦ omega (arith, kept, started)
          | inr moved ↦ omega (arith, moved, in_time.0)
        ] in
        omega (arith, one.0, admit_all_reads exempt r.state qs r.world last later in_time.1)

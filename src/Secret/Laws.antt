-- ===== src/Secret/Laws.antt =====
-- What Reload of internal/secret/credential.go reports and keeps.
use arex.Prelude.{
  ◌≡◌, ◌≢◌, ◌↔◌, refl, Bool, true, false, String, nonempty, str_eq, Result, ok, err, arith, eq_iff,
  Bool-cases, inl, inr,
}
use arex.Secret.{Credential, trim_line_end, password_of, adopt, read, reload}

password_of-nonempty :
    (path pw : String) (res : Result String String)
    → password_of path res ≡ ok pw
    → nonempty pw ≡ true
unfolding password_of
password_of-nonempty path pw (err e) h = ground arith
password_of-nonempty path pw (ok body) h = ground (arith, h)

-- Reporting a change is the same as having changed; and a password that is given stays given.
abbrev pub IsHonest : Credential → Credential → Result String Bool → Type 0
IsHonest before after changed =
    ((changed ≡ ok true) ↔ (after.password ≢ before.password))
    × (nonempty before.password ≡ true → nonempty after.password ≡ true)
    × (after.path ≡ before.path)

-- What a reload makes of the contents of the file: it takes the password over, whatever it was; and
-- where the file cannot be read or holds no password, it fails and keeps the one it has.
abbrev is_failure : Result String Bool → Bool
is_failure (ok changed) = false
is_failure (err e) = true

abbrev Takes : Bool → String → Credential → Credential → Result String Bool → Type 0
Takes true pw before after changed = (after.password ≡ pw) × (is_failure changed ≡ false)
Takes false pw before after changed = (after ≡ before) × (is_failure changed ≡ true)

abbrev pub Follows : Result String String → Credential → Credential → Result String Bool → Type 0
Follows (err e) before after changed = Takes false "" before after changed
Follows (ok body) before after changed =
    Takes (nonempty (trim_line_end body)) (trim_line_end body) before after changed

-- A credential without a file is never changed, and its reload never fails.
abbrev pub FollowsFile :
    Bool → Result String String → Credential → Credential → Result String Bool → Type 0
FollowsFile true res before after changed = Follows res before after changed
FollowsFile false res before after changed = (after ≡ before) × (changed ≡ ok false)

adopt-Takes :
    (c : Credential) (pw : String) → Takes true pw c (adopt c (ok pw)).0 (adopt c (ok pw)).1
unfolding adopt
adopt-Takes c pw = elim (Bool-cases (str_eq pw c.password)) [
  | inl same ↦ rw (adopt, same) (ground (arith, eq_iff pw c.password), refl)
  | inr apart ↦ rw (adopt, apart) (refl, refl)
]

adopt-Follows :
    (c : Credential) (path : String) (res : Result String String)
    → Follows res c (adopt c (password_of path res)).0 (adopt c (password_of path res)).1
unfolding password_of adopt
adopt-Follows c path (err e) = (refl, refl)
adopt-Follows c path (ok body) = elim (Bool-cases (nonempty (trim_line_end body))) [
  | inl given ↦ rw given (adopt-Takes c (trim_line_end body))
  | inr empty ↦ rw empty (refl, refl)
]

kept-IsHonest : (c : Credential) (res : Result String Bool) → res ≢ ok true → IsHonest c c res
kept-IsHonest c res h = ((λ e. absurd (h e), λ apart. absurd (apart refl)), λ given. given, refl)

adopt-IsHonest :
    (c : Credential) (res : Result String String)
    → ((pw : String) → res ≡ ok pw → nonempty pw ≡ true)
    → IsHonest c (adopt c res).0 (adopt c res).1
unfolding adopt
adopt-IsHonest c (err e) given = kept-IsHonest c (err e) (ground arith)
adopt-IsHonest c (ok pw) given = elim (Bool-cases (str_eq pw c.password)) [
  | inl same ↦ rw same (kept-IsHonest c (ok false) (ground arith))
  | inr apart ↦
      let differ : pw ≢ c.password = ground (arith, eq_iff pw c.password) in
      rw apart ((λ e. differ, λ e. refl), λ h. given pw refl, refl)
]

module _ {W : Type 0} (read_file : String → W → W × Result String String) where
  -- Reload reports a change exactly if the password is another one afterwards, and a password that is
  -- not empty does not become so. Where the file can be read and is not empty, the password is the
  -- file's afterwards; where it cannot, or is, Reload fails and the credential is what it was; and a
  -- credential without a file stays as it is.
  pub reload-IsHonest :
      (c : Credential) (w : W)
      → let after = reload read_file c w in
        IsHonest c after.1 after.2
        × FollowsFile (nonempty c.path) (read_file c.path w).1 c after.1 after.2
  unfolding reload read
  reload-IsHonest c w = elim (Bool-cases (nonempty c.path)) [
    | inl file ↦
        let res = (read_file c.path w).1 in
        rw file (
          adopt-IsHonest c (password_of c.path res) (λ pw h. password_of-nonempty c.path pw res h),
          adopt-Follows c c.path res,
        )
    | inr static ↦ rw static (kept-IsHonest c (ok false) (ground arith), (refl, refl))
  ]

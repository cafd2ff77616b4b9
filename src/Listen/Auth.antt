-- ===== src/Listen/Auth.antt =====
-- internal/listen/auth.go: the basic authentication of scrapes against a password that may rotate.
-- Reading the password file is a function on the world `W`, a parameter. The mutex is left out: due
-- is what it guards, and a request is one step. The comparison in constant time is `str_eq`.
pub mod Laws
pub mod Reads
mod Tests
use arex.Prelude.{
  ◌*◌, Bool, true, false, not, ◌&&◌, String, str_eq, List, [], ◌∷◌, any, Option, none, some, Result,
  ok, err, if◌then◌else◌,
}
use arex.Prelude.Int.{ℤ, pos, ltb_ℤ}
use arex.GoTime.{Time, Duration, second, since}
use arex.Secret.{Credential, reload}

abbrev pub reload_interval : Duration
reload_interval = pos (30 * second)

pub record AuthState : Type 0 where
  pub username : String
  pub cred : Credential
  pub reloaded : Time

pub data AuthLog : Type 0 where
  reload_failed : String → String → AuthLog
  rotated : String → AuthLog

unfoldable pub new_basic_auth : String → Credential → Time → AuthState
new_basic_auth username cred now = record { username = username; cred = cred; reloaded = now }

unfoldable pub matches : String → String → String → String → Bool
matches got_user got_pass want_user want_pass =
    str_eq got_user want_user && str_eq got_pass want_pass

-- Whether a read is allowed now; if so, it is claimed.
unfoldable pub due : AuthState → Time → AuthState × Bool
due a now =
    if ltb_ℤ (since now a.reloaded) reload_interval
    then (a, false)
    else (record a { reloaded = now }, true)

pub record Allowed (W : Type 0) : Type 0 where
  pub allowed : Bool
  pub state : AuthState
  pub world : W
  pub log : List AuthLog

pub record Request : Type 0 where
  pub path : String
  pub basic : Option (String × String)
  pub at : Time

module _ {W : Type 0} (read_file : String → W → W × Result String String) where
  -- After Reload.
  unfoldable pub after_reload :
      AuthState → String → String → W → Credential → Result String Bool → Allowed W
  unfolding matches
  after_reload a user pass w cred (err e) = record {
    allowed = false;
    state = record a { cred = cred };
    world = w;
    log = reload_failed a.username e ∷ [];
  }
  after_reload a user pass w cred (ok false) = record {
    allowed = false;
    state = record a { cred = cred };
    world = w;
    log = [];
  }
  after_reload a user pass w cred (ok true) = record {
    allowed = matches user pass a.username cred.password;
    state = record a { cred = cred };
    world = w;
    log = rotated a.username ∷ [];
  }

  unfoldable pub allow : AuthState → String → String → Time → W → Allowed W
  unfolding matches due after_reload
  allow a user pass now w =
      if matches user pass a.username a.cred.password
      then record { allowed = true; state = a; world = w; log = [] }
      else let (claimed, is_due) = due a now in
        if not is_due
        then record { allowed = false; state = claimed; world = w; log = [] }
        else let (w', cred, changed) = reload read_file claimed.cred w in
          after_reload claimed user pass w' cred changed

  -- `r.BasicAuth()` gives the credentials of a request, if it has any.
  unfoldable pub admit_basic : AuthState → Option (String × String) → Time → W → Allowed W
  unfolding allow
  admit_basic a none now w = record { allowed = false; state = a; world = w; log = [] }
  admit_basic a (some (user, pass)) now w = allow a user pass now w

  -- The handler: whether the request is passed on. One that is not is answered with 401.
  unfoldable pub admit : List String → AuthState → Request → W → Allowed W
  unfolding admit_basic
  admit exempt a q w =
      if any (str_eq q.path) exempt
      then record { allowed = true; state = a; world = w; log = [] }
      else admit_basic a q.basic q.at w

  -- The requests one after another.
  unfoldable pub admit_all : List String → AuthState → List Request → W → AuthState × W
  unfolding admit
  admit_all exempt a [] w = (a, w)
  admit_all exempt a (q ∷ qs) w =
      let one = admit exempt a q w in admit_all exempt one.state qs one.world

-- ===== src/Startup/Wiring/Tests.antt =====
-- A scrape behind the authentication.
use arex.Prelude.{◌≡◌, refl, ◌⊎◌, ℕ, ◌+◌, String, Result, ok, some}
use arex.Listen.Auth.{AuthState, Request, matches, allow, admit_basic, admit}
use arex.Listen.Auth.Laws.{GivesCredentials}
use arex.Startup.Wiring.{probe_paths, let_through}
use arex.Startup.Wiring.Laws.{let_through_guards}

abbrev mounted : String → ℕ → ℕ × Result String String
mounted path w = (w + 1, ok "secret\n")

abbrev guard : AuthState
guard = record {
  username = "prometheus";
  cred = record { password = "secret"; path = "/run/scrape" };
  reloaded = 0;
}

abbrev scrape : Request
scrape = record { path = "/metrics"; basic = some ("prometheus", "secret"); at = 10 }

let_through_guards_example :
    ((scrape.path ≡ "/livez") ⊎ (scrape.path ≡ "/readyz"))
    ⊎ GivesCredentials scrape (admit mounted probe_paths guard scrape 0).state
unfolding let_through admit admit_basic allow matches
let_through_guards_example = let_through_guards mounted guard scrape 0 refl

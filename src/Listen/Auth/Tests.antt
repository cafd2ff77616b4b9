-- ===== src/Listen/Auth/Tests.antt =====
-- Scrapes whose password rotates.
use arex.Prelude.{ℕ, ◌+◌, ◌*◌, ◌≤◌, ◌≡◌, refl, true, String, [], ◌∷◌, some, Result, ok, arith}
use arex.GoTime.{Time, second}
use arex.Secret.{read, password_of, trim_line_end}
use arex.Listen.Auth.{AuthState, Request, allow, admit_all}
use arex.Listen.Auth.Laws.{interval_ns, allow_rotated}
use arex.Listen.Auth.Reads.{admit_all_reads}

-- The world counts the reads; the file holds the new password.
abbrev rotated_file : String → ℕ → ℕ × Result String String
rotated_file path w = (w + 1, ok "new\n")

abbrev guard : AuthState
guard = record {
  username = "prometheus";
  cred = record { password = "old"; path = "/run/secret" };
  reloaded = 0;
}

abbrev scrape_with : String → Time → Request
scrape_with pass at = record { path = "/metrics"; basic = some ("prometheus", pass); at = at }

allow_rotated_example : (allow rotated_file guard "prometheus" "new" (40 * second) 0).allowed ≡ true
unfolding read password_of trim_line_end
allow_rotated_example =
    allow_rotated rotated_file guard "new" (40 * second) 0 refl (omega arith) refl

admit_all_reads_example :
    (admit_all rotated_file [] guard
          (scrape_with "bad" 10 ∷ scrape_with "bad" (40 * second) ∷ [])
          0).1
        * interval_ns
      + 0
    ≤ 0 * interval_ns + 40 * second
admit_all_reads_example =
    admit_all_reads rotated_file (λ w. w) (λ path w. omega arith) [] guard
      (scrape_with "bad" 10 ∷ scrape_with "bad" (40 * second) ∷ []) 0 (40 * second) (omega arith)
      (omega arith, (omega arith, tt))

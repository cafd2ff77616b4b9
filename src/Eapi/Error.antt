-- ===== src/Eapi/Error.antt =====
-- The errors of internal/eapi and of the collector, as far as a caller tells them apart, and their
-- texts. What a caller only prints is `plain`.
use arex.Prelude.{
  ℕ, Bool, true, false, String, List, join, itoa, ◌+s◌, is_empty, ◌==◌, if◌then◌else◌,
}
use arex.Prelude.Int.{ℤ, itoa_ℤ}

pub data Err : Type 0 where
  command_error : ℤ → String → List String → Err
  unauthorized : String → Err
  transport : String → Err
  result_count : ℕ → ℕ → Err
  plain : String → Err

unfoldable pub error_text : Err → String
error_text (command_error code message details) =
    if is_empty details
    then "eAPI error " +s itoa_ℤ code +s ": " +s message
    else "eAPI error " +s itoa_ℤ code +s ": " +s message +s " (" +s join "; " details +s ")"
error_text (unauthorized status) =
    "unauthorized: eAPI rejected our credentials (" +s status
    +s "): check the username and password, and that the user has a role permitting the show commands"
error_text (transport msg) = msg
error_text (result_count expected got) =
    "result count mismatch: expected " +s itoa expected +s ", got " +s itoa got
error_text (plain msg) = msg

unfoldable pub is_unauthorized : Err → Bool
is_unauthorized (unauthorized status) = true
is_unauthorized _ = false

-- statusError: a 401 is marked, every other status is named with its likely fix.
unfoldable pub status_error : ℕ → String → Err
status_error code status =
    if code == 401
    then unauthorized status
    else if code == 403
    then plain (
        "eAPI refused the request (" +s status
        +s "): check for an access-group on management api http-commands restricting which sources may connect")
    else if code == 404
    then plain (
        "eAPI endpoint not found (" +s status
        +s "): check that eAPI is enabled, including inside the management VRF, and that https is the configured protocol")
    else plain ("unexpected HTTP status: " +s status)

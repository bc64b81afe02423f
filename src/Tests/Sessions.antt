-- ===== src/Tests/Sessions.antt =====
-- The tokens of ann, from the accounts service to the scheduler.
use Prim.Native.String.{String, ◌++◌, slice, len}
use text.Mathlib.TextPositions.{len-append, slice-append_right}
use scalemate.Prelude.{ℕ, ◌≡◌, ap, refl, true, [], ◌∷◌, Option, none, some, arith}
use scalemate.Proto.{AuthTokens}
use scalemate.World.{Err, fundamental, Result, ok, new_uuid, now}
use scalemate.Shared.Auth.{
  Jwt, Claims, refresh, has_claims, no_claims, inject_claims, signed_string,
}
use scalemate.Accounts.Users.{generate_auth_tokens}
use scalemate.Client.Requests.{Sent, ask_cancel_job, ask_get_job, cancel_job_controller}
use scalemate.Client.Requests.Own.{run_command, cancels_job}
use scalemate.Scheduler.Requests.{auth_func_override}
use scalemate.System.Session.{ReadsTokens, Arrives, method_of, run_command-Arrives}
use scalemate.System.Session.Refresh.{refresh_token-accepted}
use scalemate.Tests.Fixture.{test_env, jwt, ann, parse-sign_known}

-- As `jwt`, where every time is valid.
abbrev valid_jwt : Jwt
valid_jwt = record jwt { valid = λ c time. true }

-- What stands behind the scheme.
abbrev from_header : String → Result String
from_header header = ok (slice header 7 (len header))

from_header-bearer : (token : String) → from_header ("Bearer " ++ token) ≡ ok token
from_header-bearer token =
    rw (len-append "Bearer " token) (ap (λ (t : String). ok t) (slice-append_right "Bearer " token))

reads_tokens : ReadsTokens valid_jwt from_header
reads_tokens = record {
  reads = λ c key token eq. parse-sign_known c eq;
  is_valid = λ c time from_then before. refl;
  bearer = from_header-bearer;
}

abbrev made_tokens : AuthTokens
made_tokens = record { access_token = "access"; refresh_token = "refresh" }

abbrev token_answer : String → Result AuthTokens
token_answer token = ok made_tokens

abbrev no_error : AuthTokens → Option Err
no_error tokens = none

abbrev service : Sent → Result ℕ
service s = ok 7

abbrev cancel_call : Sent
cancel_call = record { tokens = some made_tokens; call = ask_cancel_job 3 }

run_command-Arrives_example :
    Arrives test_env valid_jwt from_header
      (1 ∷ [])
      105
      token_answer
      no_error
      (fundamental "no header")
      "ann"
      cancel_call
unfolding generate_auth_tokens signed_string run_command cancel_job_controller
run_command-Arrives_example =
    run_command-Arrives test_env valid_jwt from_header (1 ∷ []) 105 token_answer no_error ann 10 20
      "" [] (new_uuid ∷ new_uuid ∷ now ∷ []) made_tokens service (fundamental "no header")
      (cancels_job 3) (ok 7) cancel_call reads_tokens refl (omega arith) (omega arith) refl

refresh_token-accepted_example :
    (c : Claims) × (auth_func_override no_claims
        (inject_claims jwt test_env.error_text (1 ∷ []) 115 (ok "refresh"))
        (method_of (ask_get_job 3))
      ≡ ok (has_claims c))
    × (c.token_type ≡ refresh)
    × (c.username ≡ "ann")
unfolding generate_auth_tokens signed_string
refresh_token-accepted_example =
    refresh_token-accepted test_env jwt (1 ∷ []) 115 ann 10 20 "" []
      (new_uuid ∷ new_uuid ∷ now ∷ []) made_tokens (ask_get_job 3) refl (λ e. cc) (omega arith)
      (omega arith) refl

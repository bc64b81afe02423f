-- ===== src/Client/Controllers.antt =====
-- client/accounts/controllers.go and shared/client/views.go: what the client's commands on accounts do,
-- and the messages that it prints for errors. The service's answers, the file of tokens and the
-- validation of requests are arguments.
use Prim.Native.String.{String}
use scalemate.Prelude.{
  ◌≡◌, Bool, true, false, List, [], ◌∷◌, Option, none, some, if◌then◌else◌, same_text, arith,
  Bool-cases, Option-cases, inl, inr, ◌≢◌, eq→same_text,
}
use scalemate.Proto.{AuthTokens}
use scalemate.World.{
  Err, fundamental, wrap, Result, Result-cases, ok, err, Code, ok_code, canceled, unknown_code,
  invalid_argument, deadline_exceeded, not_found, already_exists, permission_denied,
  resource_exhausted, failed_precondition, aborted, out_of_range, unimplemented, internal,
  unavailable, data_loss, unauthenticated,
}
use scalemate.Shared.Auth.{Jwt}

-- What a command does outside its process.
pub data ClientCall : Type 0 where
  ask_password_auth : (username password : String) → ClientCall
  ask_register : (username email password : String) → ClientCall
  ask_change_password : (tokens : AuthTokens) → (username password : String) → ClientCall
  store_tokens : AuthTokens → ClientCall
  read_tokens remove_tokens : ClientCall

-- The answers to these calls, and the validation of the requests.
pub record ClientEnv : Type 0 where
  pub on_password_auth : String → String → Result AuthTokens
  pub on_register : String → String → String → Option Err
  pub on_change_password : AuthTokens → String → String → Option Err
  pub on_save : AuthTokens → Option Err
  pub on_load : Result AuthTokens
  pub on_delete : Option Err
  pub validate_login : String → String → Option Err
  pub validate_register : String → String → String → Option Err

-- `ErrEmptyUsername`, `ErrEmptyPassword` and `ErrEmptyEmail`
abbrev pub empty_username : Err
empty_username = fundamental "username can not be empty"

abbrev pub empty_password : Err
empty_password = fundamental "password can not be empty"

abbrev pub empty_email : Err
empty_email = fundamental "email can not be empty"

-- The end of `LoginController`, when the service answered.
abbrev pub save_answer :
    ClientEnv → ClientCall → Result AuthTokens → Result AuthTokens × List ClientCall
save_answer env call (err e) = (err e, call ∷ [])
save_answer env call (ok tokens) = elim (env.on_save tokens) [
  | some e ↦ (err e, call ∷ store_tokens tokens ∷ [])
  | none ↦ (ok tokens, call ∷ store_tokens tokens ∷ [])
]

-- `LoginController`: the answer and the calls in their order.
unfoldable pub login_controller : ClientEnv → String → String → Result AuthTokens × List ClientCall
login_controller env username password =
    let ask : Result AuthTokens × List ClientCall = elim (env.validate_login username password) [
      | some e ↦ (err (wrap e "invalid arguments format"), [])
      | none ↦
          save_answer env (ask_password_auth username password)
            (env.on_password_auth username password)
    ] in
    if same_text username ""
    then (err empty_username, [])
    else if same_text password ""
    then (err empty_password, [])
    else ask

-- `LogoutController`. `errors.Wrap` of no error is no error.
unfoldable pub logout_controller : ClientEnv → Option Err × List ClientCall
logout_controller env = elim env.on_delete [
  | none ↦ (none, remove_tokens ∷ [])
  | some e ↦
      (some (wrap e "could not delete saved auth tokens. Are you logged in?"), remove_tokens ∷ [])
]

-- `RegisterController`
unfoldable pub register_controller :
    ClientEnv → String → String → String → Option Err × List ClientCall
register_controller env username email password =
    let ask : Option Err × List ClientCall = elim (env.validate_register username email password) [
      | some e ↦ (some (wrap e "invalid arguments format"), [])
      | none ↦ (env.on_register username email password, ask_register username email password ∷ [])
    ] in
    if same_text username ""
    then (some empty_username, [])
    else if same_text email ""
    then (some empty_email, [])
    else if same_text password ""
    then (some empty_password, [])
    else ask

-- The end of `ChangePasswordController`, with the tokens that were loaded.
abbrev pub change_with_tokens :
    ClientEnv → Jwt → String → Result AuthTokens → Option Err × List ClientCall
change_with_tokens env jwt password (err e) = (some e, read_tokens ∷ [])
change_with_tokens env jwt password (ok tokens) = elim (jwt.parse_unverified tokens.access_token) [
  | err e ↦ (some e, read_tokens ∷ [])
  | ok c ↦ (
    env.on_change_password tokens c.username password,
    read_tokens ∷ ask_change_password tokens c.username password ∷ [],
  )
]

-- `ChangePasswordController`. `NewClaimsFromString` reads the claims with no key.
unfoldable pub change_password_controller : ClientEnv → Jwt → String → Option Err × List ClientCall
change_password_controller env jwt password =
    let change = change_with_tokens env jwt password env.on_load in
    if same_text password "" then (some empty_password, []) else change

-- `GRPCErrorMessages`: a function of the status, by its message, or nil.
pub record GrpcErrorMessages : Type 0 where
  pub on_ok : Option (String → String)
  pub on_canceled : Option (String → String)
  pub on_unknown : Option (String → String)
  pub on_invalid_argument : Option (String → String)
  pub on_deadline_exceeded : Option (String → String)
  pub on_not_found : Option (String → String)
  pub on_already_exists : Option (String → String)
  pub on_permission_denied : Option (String → String)
  pub on_resource_exhausted : Option (String → String)
  pub on_failed_precondition : Option (String → String)
  pub on_aborted : Option (String → String)
  pub on_out_of_range : Option (String → String)
  pub on_unimplemented : Option (String → String)
  pub on_internal : Option (String → String)
  pub on_unavailable : Option (String → String)
  pub on_data_loss : Option (String → String)
  pub on_unauthenticated : Option (String → String)

-- The cases of the switch in `ErrorView`. There is none for `Unknown`.
unfoldable pub message_for : GrpcErrorMessages → Code → Option (String → String)
message_for m ok_code = m.on_ok
message_for m canceled = m.on_canceled
message_for m unknown_code = none
message_for m invalid_argument = m.on_invalid_argument
message_for m deadline_exceeded = m.on_deadline_exceeded
message_for m not_found = m.on_not_found
message_for m already_exists = m.on_already_exists
message_for m permission_denied = m.on_permission_denied
message_for m resource_exhausted = m.on_resource_exhausted
message_for m failed_precondition = m.on_failed_precondition
message_for m aborted = m.on_aborted
message_for m out_of_range = m.on_out_of_range
message_for m unimplemented = m.on_unimplemented
message_for m internal = m.on_internal
message_for m unavailable = m.on_unavailable
message_for m data_loss = m.on_data_loss
message_for m unauthenticated = m.on_unauthenticated

-- The text that `ErrorView` logs for an error with a text and, if `status.FromError` finds it, a
-- status.
unfoldable pub error_view : GrpcErrorMessages → String → Option (Code × String) → String
error_view m text none = text
error_view m text (some (code, message)) = elim (message_for m code) [
  | none ↦ text
  | some format ↦ format message
]

module _ (env : ClientEnv) where
  -- A login that succeeds had a name and a password, asked the service once with them, and saved the
  -- tokens that the service answered, which are those that it returns.
  pub login_controller-saves :
      (username password : String) (tokens : AuthTokens) (calls : List ClientCall)
      → login_controller env username password ≡ (ok tokens, calls)
      → (username ≢ "")
        × (password ≢ "")
        × (env.on_password_auth username password ≡ ok tokens)
        × (env.on_save tokens ≡ none)
        × (calls ≡ ask_password_auth username password ∷ store_tokens tokens ∷ [])
  unfolding login_controller
  login_controller-saves username password tokens calls eq =
      elim (Bool-cases (same_text username "")) [
        | inl p ↦ absurd (ground (arith, eq, p))
        | inr p ↦ elim (Bool-cases (same_text password "")) [
          | inl q ↦ absurd (ground (arith, eq, p, q))
          | inr q ↦ elim (Option-cases (env.validate_login username password)) [
            | inr (x, r) ↦ absurd (ground (arith, eq, p, q, r))
            | inl r ↦ elim (Result-cases (env.on_password_auth username password)) [
              | inl (x, s) ↦ absurd (ground (arith, eq, p, q, r, s))
              | inr (answer, s) ↦ elim (Option-cases (env.on_save answer)) [
                | inr (x, t) ↦ absurd (ground (arith, eq, p, q, r, s, t))
                | inl t ↦ (
                  (λ none_given. differs p (eq→same_text username "" none_given)),
                  (λ none_given. differs q (eq→same_text password "" none_given)),
                  ground (arith, eq, p, q, r, s, t),
                  ground (arith, eq, p, q, r, s, t),
                  ground (arith, eq, p, q, r, s, t),
                )
              ]
            ]
          ]
        ]
      ]
    where
      differs : {b : Bool} → b ≡ false → b ≡ true → ⊥
      differs f t = cc

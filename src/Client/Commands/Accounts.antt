-- ===== src/Client/Commands/Accounts.antt =====
-- client/cmd/login.go, logout.go, register.go and change_password.go, with client/accounts/views.go:
-- what these commands ask on the terminal, which calls they make, and what they log. The answers at
-- the terminal, the text of an error and its status are arguments.
pub mod Login
pub mod Password
use Prim.Native.String.{String, ◌++◌}
use scalemate.Prelude.{
  ◌≡◌, ◌≢◌, ◌⊎◌, refl, Bool, true, false, List, [], ◌∷◌, ◌++◌ as ◌+++◌, Option, none, some,
  if◌then◌else◌, same_text, arith, inl, inr, Bool-cases, eq→same_text, same_text→eq, sym, ap, ◌∙◌,
}
use scalemate.World.{Err, Code, Result, Result-cases, ok, err}
use scalemate.Shared.Auth.{Jwt}
use scalemate.Client.Controllers.{
  ClientEnv, ClientCall, GrpcErrorMessages, error_view, login_controller, logout_controller,
  register_controller, change_password_controller,
}

-- No function for any code: the empty struct.
abbrev pub no_messages : GrpcErrorMessages
no_messages = record {
  on_ok = none;
  on_canceled = none;
  on_unknown = none;
  on_invalid_argument = none;
  on_deadline_exceeded = none;
  on_not_found = none;
  on_already_exists = none;
  on_permission_denied = none;
  on_resource_exhausted = none;
  on_failed_precondition = none;
  on_aborted = none;
  on_out_of_range = none;
  on_unimplemented = none;
  on_internal = none;
  on_unavailable = none;
  on_data_loss = none;
  on_unauthenticated = none;
}

abbrev pub invalid_parameters : String → String
invalid_parameters message = "invalid parameters: " ++ message

abbrev pub denied : String → String
denied message = "permission denied: " ++ message

abbrev pub login_messages : GrpcErrorMessages
login_messages = record no_messages {
  on_invalid_argument = some (λ message. "invalid login credentials: " ++ message);
  on_not_found = some (λ message. "user with the given username was not found");
  on_permission_denied = some denied;
}

abbrev pub register_messages : GrpcErrorMessages
register_messages = record no_messages {
  on_invalid_argument = some invalid_parameters;
  on_already_exists = some (λ message. "user already exists. Please, login.");
}

abbrev pub change_password_messages : GrpcErrorMessages
change_password_messages = record no_messages {
  on_invalid_argument = some invalid_parameters;
  on_permission_denied = some denied;
}

-- What is written to the log.
pub data Logged : Type 0 where
  logs_info logs_error : String → Logged

-- What a command does: the prompts that it prints, the calls of its controller, and what it logs.
pub record CommandRun : Type 0 where
  pub prompts : List String
  pub calls : List ClientCall
  pub logged : Logged

-- What is asked on the terminal: `userInput` and `userPasswordInput`, by the text of the prompt.
pub record Terminal : Type 0 where
  pub answer : String → Result String
  pub error_text : Err → String
  pub status_from : Err → Option (Code × String)

-- What prompts give: a value, or a text for the log with which the command stops.
pub data Answers (A : Type 0) : Type 0 where
  answered : A → Answers A
  stopped : String → Answers A

-- With the prompts so far.
abbrev pub Prompted : Type 0 → Type 0
Prompted A = Answers A × List String

abbrev then_ask : {A : Type 0} {B : Type 0} → Prompted A → (A → Prompted B) → Prompted B
then_ask (stopped x, ps) f = (stopped x, ps)
then_ask (answered a, ps) f = ((f a).0, ps +++ (f a).1)

pub Answers-cases :
    (r : Prompted String)
    → ((x : String) × (ps : List String) × (r ≡ (stopped x, ps)))
      ⊎ ((p : String) × (ps : List String) × (r ≡ (answered p, ps)))
Answers-cases (stopped x, ps) = inl (x, ps, refl)
Answers-cases (answered p, ps) = inr (p, ps, refl)

module _ (t : Terminal) where
  -- The views, with no error or with one.
  unfoldable pub view : GrpcErrorMessages → String → Option Err → Logged
  view messages done none = logs_info done
  view messages done (some e) = logs_error (error_view messages (t.error_text e) (t.status_from e))

  abbrev pub login_view : Option Err → Logged
  login_view = view login_messages "Logged in."

  abbrev pub register_view : Option Err → Logged
  register_view = view register_messages "Registration complete. You may now login."

  abbrev pub change_password_view : Option Err → Logged
  change_password_view = view change_password_messages "Password has been changed. Please, log in."

  abbrev pub logout_view : Option Err → Logged
  logout_view = view no_messages "Logged out."

  abbrev read_answer : Result String → Answers String
  read_answer (ok value) = answered value
  read_answer (err e) = stopped (t.error_text e)

  -- A value of a flag, or the answer at a prompt if it is empty.
  abbrev pub value_or_ask : String → String → Prompted String
  value_or_ask value message =
      if same_text value ""
      then (read_answer (t.answer message), message ∷ [])
      else (answered value, [])

  abbrev error_of : {A : Type 0} → Result A → Option Err
  error_of (ok a) = none
  error_of (err e) = some e

  -- The end of a command: the controller with the inputs, or the error of a prompt in the log.
  abbrev run_with :
      {A : Type 0}
      → (A → Option Err × List ClientCall)
      → (Option Err → Logged)
      → Prompted A
      → CommandRun
  run_with controller shown (stopped x, ps) = record {
    prompts = ps;
    calls = [];
    logged = logs_error x;
  }
  run_with controller shown (answered a, ps) = record {
    prompts = ps;
    calls = (controller a).1;
    logged = shown (controller a).0;
  }

  unfoldable pub login_cmd : ClientEnv → (username password : String) → CommandRun
  login_cmd env username password =
      run_with
        (λ (name, secret). let run = login_controller env name secret in (error_of run.0, run.1))
        login_view
        (then_ask (value_or_ask username "Username") λ name.
          then_ask (value_or_ask password "Password") λ secret. (answered (name, secret), []))

  unfoldable pub logout_cmd : ClientEnv → CommandRun
  logout_cmd env =
      let (e, calls) = logout_controller env in
      record { prompts = []; calls = calls; logged = logout_view e }

  unfoldable pub register_cmd : ClientEnv → (username email password : String) → CommandRun
  register_cmd env username email password =
      run_with (λ (name, address, secret). register_controller env name address secret)
        register_view
        (then_ask (value_or_ask username "Username") λ name.
          then_ask (value_or_ask email "Email") λ address.
            then_ask (value_or_ask password "Password")
              λ secret. (answered (name, address, secret), []))

  -- The two answers, which are to be the same.
  abbrev both_answers : Result String → Result String → Prompted String
  both_answers (err e) again = (stopped (t.error_text e), "Password" ∷ [])
  both_answers (ok p) (err e) = (stopped (t.error_text e), "Password" ∷ "Same password again" ∷ [])
  both_answers (ok p) (ok q) = (
    (if same_text p q then answered p else stopped "Passwords do not match."),
    "Password" ∷ "Same password again" ∷ [],
  )

  abbrev pub confirmed_password : String → Prompted String
  confirmed_password password =
      if same_text password ""
      then both_answers (t.answer "Password") (t.answer "Same password again")
      else (answered password, [])

  unfoldable pub change_password_cmd : ClientEnv → Jwt → String → CommandRun
  change_password_cmd env jwt password =
      run_with (change_password_controller env jwt) change_password_view
        (confirmed_password password)

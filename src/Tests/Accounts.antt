-- ===== src/Tests/Accounts.antt =====
-- Users and sessions of the accounts service.
use Prim.Native.String.{String}
use scalemate.Prelude.{ℕ, ◌≡◌, refl, false, List, [], ◌∷◌, Option, none, some}
use scalemate.Proto.{by_username, AuthTokens, Event, EventType, Service, accounts_user}
use scalemate.World.{
  Err, ok, History, begin, commit, query, send, new_uuid, now, insert_user, update_password,
  select_user, text, number, bytes, UserRow, Code, ErrorLib, status, wrap, with_stack,
}
use scalemate.Shared.Auth.{
  Claims, TokenType, access, refresh, ContextClaims, has_claims, signed_string,
  new_claims_from_string_verified,
}
use scalemate.Shared.Utils.{commit_and_publish, publish}
use scalemate.Shared.Events.{new_event}
use scalemate.Accounts.Users.{
  generate_auth_tokens, set_password_hash, create_user, user_look_up, change_password,
}
use scalemate.Accounts.Server.{
  AccountsServer, RegisterRequest, PasswordAuthRequest, user_auth, ChangePasswordRequest, register,
  password_auth, token_auth, get, change_password_handler, check_node, claims_username_equal,
}
use scalemate.Accounts.Sessions.{Proven, password_auth-Proven, token_auth-refresh}
use scalemate.Accounts.Transactions.{Balanced, register-Balanced}
use scalemate.Accounts.Order.{register-order}
use scalemate.Tests.Fixture.{test_env, jwt, bcrypt, ann, claims_of}

abbrev key : List ℕ
key = 2 ∷ []

abbrev server : AccountsServer
server = record {
  bcrypt_cost = 0;
  access_token_ttl = 10;
  refresh_token_ttl = 20;
  jwt_secret_key = key;
}

abbrev tokens : AuthTokens
tokens = record { access_token = "access"; refresh_token = "refresh" }

abbrev token_calls : History → History
token_calls h = new_uuid ∷ new_uuid ∷ now ∷ h

generated : generate_auth_tokens test_env jwt ann 10 20 key "" [] ≡ (ok tokens, token_calls [])
unfolding generate_auth_tokens signed_string
generated = refl

abbrev login : PasswordAuthRequest
login = user_auth "ann" "correct horse"

abbrev look_up : History
look_up = query (select_user (by_username "ann")) ∷ []

logged_in : password_auth test_env jwt bcrypt server login [] ≡ (ok tokens, token_calls look_up)
unfolding password_auth user_look_up check_node generate_auth_tokens signed_string
logged_in = refl

password_auth-Proven_example : Proven test_env bcrypt login []
password_auth-Proven_example =
    password_auth-Proven test_env jwt bcrypt server login [] (token_calls look_up) tokens logged_in

abbrev expected : TokenType → String
expected t = "refresh token type is expected"

renewed :
    token_auth test_env jwt server expected 105 "refresh" [] ≡ (ok tokens, token_calls look_up)
unfolding token_auth user_look_up generate_auth_tokens signed_string new_claims_from_string_verified
renewed = refl

token_auth-refresh_example :
    (c : Claims) × (jwt.parse "refresh" key 105 ≡ ok c)
    × (c.token_type ≡ refresh)
    × (user : UserRow) × (test_env.get_user (select_user (by_username c.username)) [] ≡ ok user)
    × (user.user.banned ≡ false)
token_auth-refresh_example =
    token_auth-refresh test_env jwt server expected 105 "refresh" [] (token_calls look_up) tokens
      renewed

abbrev owner : ContextClaims
owner = has_claims (claims_of 10 access)

got : get test_env owner (by_username "ann") [] ≡ (ok ann.user, look_up)
unfolding get user_look_up claims_username_equal
got = refl

abbrev registration : RegisterRequest
registration = record { username = "ann"; email = "ann@example.com"; password = "correct horse" }

abbrev valid : RegisterRequest → Option Err
valid r = none

abbrev registered_event : Event
registered_event = record {
  uuid = 9 ∷ [];
  event_type = EventType.created;
  service = Service.accounts;
  payload = accounts_user ann.user;
  payload_mask = none;
  created_at = 100;
}

abbrev registered_calls : List ℕ → Event → History
registered_calls hash e =
    commit
    ∷ send (e ∷ [])
    ∷ now
    ∷ new_uuid
    ∷ query (
        insert_user (
          ("username", text "ann")
          ∷ ("email", text "ann@example.com")
          ∷ ("banned", number 0)
          ∷ ("password_hash", bytes hash)
          ∷ []))
    ∷ begin
    ∷ []

registered :
    register test_env bcrypt valid server registration []
    ≡ (ok ann.user, registered_calls (1 ∷ []) registered_event)
unfolding register create_user set_password_hash new_event commit_and_publish publish
registered = refl

register-order_example :
    (hash : List ℕ) × (e : Event) × (bcrypt.compare hash "correct horse" ≡ none)
    × (e.payload ≡ accounts_user ann.user)
    × (registered_calls (1 ∷ []) registered_event ≡ registered_calls hash e)
register-order_example =
    register-order test_env bcrypt server valid registration []
      (registered_calls (1 ∷ []) registered_event) ann.user registered

register-Balanced_example : Balanced [] (register test_env bcrypt valid server registration []).1
register-Balanced_example =
    register-Balanced test_env bcrypt (λ h. refl) server valid registration []

abbrev change : ChangePasswordRequest
change = record { username = "ann"; password = "battery staple" }

abbrev valid_change : ChangePasswordRequest → Option Err
valid_change r = none

abbrev changed_event : Event
changed_event = record registered_event {
  event_type = EventType.updated;
  payload_mask = some ("password_changed_at" ∷ "updated_at" ∷ []);
}

abbrev changed_calls : List ℕ → Event → UserRow → History
changed_calls hash e user =
    commit
    ∷ send (e ∷ [])
    ∷ now
    ∷ new_uuid
    ∷ query (update_password hash user.user.id)
    ∷ begin
    ∷ look_up

changed :
    change_password_handler test_env bcrypt valid_change server owner change []
    ≡ (ok tt, changed_calls (1 ∷ []) changed_event ann)
unfolding change_password_handler user_look_up claims_username_equal change_password
    set_password_hash new_event commit_and_publish publish
changed = refl

-- A library of errors by recursion on the error.
abbrev pub cause_of : Err → Err
cause_of (wrap e message) = cause_of e
cause_of (with_stack e) = cause_of e
cause_of e = e

abbrev pub code_of_status : Err → Option Code
code_of_status (status c message) = some c
code_of_status _ = none

abbrev pub errors : ErrorLib
errors = record {
  cause = cause_of;
  code_of = code_of_status;
  cause-wrap = λ e message. refl;
  cause-with_stack = λ e. refl;
  cause-status = λ c message. refl;
  code_of-status = λ c message. refl;
}

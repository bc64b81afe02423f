-- ===== src/Accounts/Server.antt =====
-- accounts/server/*.go and accounts/handlers/scheduler_node_created.go: the handlers of the
-- accounts service. The validation of a request is the work of ozzo-validation: an argument of the
-- definitions.
use Prim.Native.String.{String}
use scalemate.Prelude.{
  ℕ, Bool, true, false, List, [], ◌∷◌, Option, none, some, if◌then◌else◌, same_text, same_bytes,
}
use scalemate.Proto.{
  User, UserLookupRequest, by_username, AuthTokens, EventType, Payload, created, scheduler_node,
}
use scalemate.World.{
  guard, has_code, Code, Err, status, wrap, invalid_argument, permission_denied, unauthenticated,
  already_exists, Result, ok, err, UserRow, AccountNode, Env, Action, History, begin, commit,
  attempt, return, fail, lift, ◌>>=◌, ◌>>◌, ◌catch◌, ◌wrapped◌, ErrorLib,
}
use scalemate.Shared.Utils.{rolled_back, rollback_transaction, commit_and_publish}
use scalemate.Shared.Auth.{
  Jwt, TokenType, access, refresh, ContextClaims, no_claims, has_claims, other_type,
  new_claims_from_string_verified,
}
use scalemate.Accounts.Users.{
  Bcrypt, set_password_hash, compare_password, is_allowed_to_authenticate, generate_auth_tokens,
  create_user, user_look_up, change_password, new_node_from_scheduler_proto, create_node,
  node_look_up,
}

-- `AccountsServer`, less what the `Env` stands for.
pub record AccountsServer : Type 0 where
  pub bcrypt_cost : ℕ
  pub access_token_ttl : ℕ
  pub refresh_token_ttl : ℕ
  pub jwt_secret_key : List ℕ

pub record RegisterRequest : Type 0 where
  pub username : String
  pub email : String
  pub password : String

pub data PasswordAuthRequest : Type 0 where
  user_auth : (username password : String) → PasswordAuthRequest
  node_auth :
      (username password node_name : String) (node_fingerprint : List ℕ) → PasswordAuthRequest

pub record ChangePasswordRequest : Type 0 where
  pub username : String
  pub password : String

-- `req.UserAuth.Username` or `req.NodeAuth.Username`, and so on.
abbrev pub username_of : PasswordAuthRequest → String
username_of (user_auth u p) = u
username_of (node_auth u p n f) = u

abbrev pub password_of : PasswordAuthRequest → String
password_of (user_auth u p) = p
password_of (node_auth u p n f) = p

abbrev pub node_name_of : PasswordAuthRequest → String
node_name_of (user_auth u p) = ""
node_name_of (node_auth u p n f) = n

abbrev pub fingerprint_of : PasswordAuthRequest → List ℕ
fingerprint_of (user_auth u p) = []
fingerprint_of (node_auth u p n f) = f

-- The user that `Register` makes of a request.
abbrev pub new_user : RegisterRequest → UserRow
new_user r = record {
  user = record {
    id = 0;
    username = r.username;
    email = r.email;
    banned = false;
    created_at = 0;
    updated_at = none;
    password_changed_at = none;
  };
  password_hash = [];
}

-- `Register`
unfoldable pub register :
    Env → Bcrypt → (RegisterRequest → Option Err) → AccountsServer → RegisterRequest → Action User
register env bcrypt validate s r = do
  guard (validate r) catch λ e. fail (status invalid_argument (env.error_text e))
  hashed ← lift (set_password_hash bcrypt (new_user r) r.password s.bcrypt_cost)
  attempt begin env.on_begin wrapped "failed to start transaction"
  made ← create_user env hashed catch λ e. rolled_back env (wrap e "failed to create a new user")
  commit_and_publish env (made.1 ∷ []) wrapped "CommitAndPublish failed"
  return made.0.user

abbrev pub fingerprint_error : List ℕ → List ℕ → Option Err
fingerprint_error stored given =
    if same_bytes stored given
    then none
    else some (status invalid_argument "fingerprint is incorrect")

-- The check of a node's fingerprint, where a node authenticates.
unfoldable pub check_node : Env → PasswordAuthRequest → Action (Unit {0})
check_node env r =
    let check = do
      node ← node_look_up env (username_of r) (node_name_of r) wrapped "NodeLookUp failed"
      guard (fingerprint_error node.fingerprint (fingerprint_of r))
    in if same_text (node_name_of r) "" then return tt else check

-- `PasswordAuth`
unfoldable pub password_auth :
    Env → Jwt → Bcrypt → AccountsServer → PasswordAuthRequest → Action AuthTokens
password_auth env jwt bcrypt s r = do
  user ← user_look_up env (by_username (username_of r)) wrapped "UserLookUp failed"
  guard (compare_password bcrypt user (password_of r)) catch λ e.
      fail (status invalid_argument "incorrect password")
  guard (is_allowed_to_authenticate user)
  check_node env r
  generate_auth_tokens env jwt user s.access_token_ttl s.refresh_token_ttl s.jwt_secret_key
        (node_name_of r)
      wrapped "GenerateAuthTokens failed"

abbrev pub token_type_error : (TokenType → String) → TokenType → Option Err
token_type_error message refresh = none
token_type_error message access = some (status invalid_argument (message access))

-- `TokenAuth` at a time. The message is `%!(EXTRA …)` of a format with no verb: its text is an argument.
unfoldable pub token_auth :
    Env → Jwt → AccountsServer → (TokenType → String) → ℕ → String → Action AuthTokens
token_auth env jwt s expected_message time refresh_token = do
  claims ←
      lift (new_claims_from_string_verified jwt env.error_text refresh_token s.jwt_secret_key time)
      wrapped "failed to parse JWT"
  guard (token_type_error expected_message claims.token_type)
  user ← user_look_up env (by_username claims.username) wrapped "UserLookUp failed"
  guard (is_allowed_to_authenticate user)
  generate_auth_tokens env jwt user s.access_token_ttl s.refresh_token_ttl s.jwt_secret_key
        claims.node_name
      wrapped "GenerateAuthTokens failed"

-- `claimsUsernameEqual`
unfoldable pub claims_username_equal : ContextClaims → String → Option Err
claims_username_equal no_claims username = some (status unauthenticated "no JWT claims found")
claims_username_equal other_type username = some (status unauthenticated "unknown JWT claims type")
claims_username_equal (has_claims c) username =
    if same_text c.username username
    then none
    else some (status permission_denied "permission denied")

-- `Get`
unfoldable pub get : Env → ContextClaims → UserLookupRequest → Action User
get env ctx r = do
  user ← user_look_up env r wrapped "UserLookUp failed"
  guard (claims_username_equal ctx user.user.username)
  return user.user

-- `ChangePassword`
unfoldable pub change_password_handler :
    Env
    → Bcrypt
    → (ChangePasswordRequest → Option Err)
    → AccountsServer
    → ContextClaims
    → ChangePasswordRequest
    → Action (Unit {0})
change_password_handler env bcrypt validate s ctx r = do
  guard (validate r) catch λ e. fail (status invalid_argument (env.error_text e))
  user ← user_look_up env (by_username r.username) wrapped "UserLookUp failed"
  guard (claims_username_equal ctx user.user.username)
  attempt begin env.on_begin wrapped "failed to start transaction"
  made ← change_password env bcrypt user r.password s.bcrypt_cost catch λ e.
      rolled_back env (wrap e "user.ChangePassword failed")
  commit_and_publish env (made.1 ∷ []) wrapped "CommitAndPublish failed"

abbrev pub is_already_exists : Code → Bool
is_already_exists already_exists = true
is_already_exists _ = false

abbrev pub is_unauthenticated : Code → Bool
is_unauthenticated unauthenticated = true
is_unauthenticated _ = false

-- `AuthFuncOverride`: the context afterwards, and the error beside it. Without claims the context
-- is as it was.
unfoldable pub auth_func_override :
    ErrorLib → ContextClaims → Result ContextClaims → ContextClaims × Option Err
auth_func_override lib ctx (ok new_ctx) = (new_ctx, none)
auth_func_override lib ctx (err e) =
    if has_code is_unauthenticated (lib.code_of (lib.cause e)) then (ctx, none) else (ctx, some e)

-- The end of `Handle`: a commit, or a rollback if the node was not created. It is no error if the
-- node already exists.
unfoldable pub commit_or_undo :
    Env → ErrorLib → Result AccountNode × History → Result (Unit {0}) × History
unfolding rolled_back rollback_transaction
commit_or_undo env lib (ok node, h) = attempt commit env.on_commit h
commit_or_undo env lib (err e, h) =
    if has_code is_already_exists (lib.code_of (lib.cause e))
    then rollback_transaction env none h
    else rolled_back env (wrap e "node.Create failed") h

unfoldable pub store_node : Env → ErrorLib → AccountNode → Action (Unit {0})
unfolding commit_or_undo
store_node env lib node = attempt begin env.on_begin wrapped "failed to start transaction" >> λ h.
    commit_or_undo env lib (create_node env node h)

-- `SchedulerNodeCreatedHandler.Handle`
unfoldable pub handle_node_created : Env → ErrorLib → EventType → Payload → Action (Unit {0})
handle_node_created env lib created (scheduler_node p) =
    store_node env lib (new_node_from_scheduler_proto p)
handle_node_created env lib _ _ = return tt

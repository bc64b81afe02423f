-- ===== src/Accounts/Users.antt =====
-- accounts/models/user.go and accounts/models/node.go: the users and the nodes of the accounts
-- database, passwords, and the tokens of a user. Hashing is the work of bcrypt: a `Bcrypt` that the
-- definitions take.
use Prim.Native.String.{String}
use scalemate.Prelude.{
  ℕ, ◌+◌, ◌≡◌, List, [], ◌∷◌, Option, none, some, if◌then◌else◌, ◌==◌, same_text,
}
use scalemate.Proto.{
  UserLookupRequest, AuthTokens, Node, Event, accounts_user, created, updated, accounts,
}
use scalemate.World.{
  Err, status, wrap, invalid_argument, permission_denied, failed_precondition, Result, ok, err,
  text, number, bytes, UserRow, AccountNode, select_user, insert_user, update_password,
  select_account_node, insert_account_node, Env, Action, query, new_uuid, now, perform,
  perform_plain, return, fail, lift, ◌>>=◌, ◌wrapped◌,
}
use scalemate.Shared.Utils.{handled}
use scalemate.Shared.Events.{new_event}
use scalemate.Shared.Auth.{Jwt, Claims, TokenType, access, refresh, signed_string}

-- bcrypt: a password compares with each of its hashes.
pub record Bcrypt : Type 0 where
  pub default_cost : ℕ
  pub generate : String → ℕ → Result (List ℕ)
  pub compare : List ℕ → String → Option Err
  pub compare-generate :
      (password : String) (cost : ℕ) (hash : List ℕ)
      → generate password cost ≡ ok hash
      → compare hash password ≡ none

-- `User.SetPasswordHash`: the user with the new hash.
unfoldable pub set_password_hash : Bcrypt → UserRow → String → ℕ → Result UserRow
set_password_hash bcrypt u password cost =
    if same_text password ""
    then err (status invalid_argument "password can't be empty")
    else elim (bcrypt.generate password (if cost == 0 then bcrypt.default_cost else cost)) [
      | err e ↦ err (wrap e "bcrypt.GenerateFromPassword failed")
      | ok hash ↦ ok (record u { password_hash = hash })
    ]

-- `User.ComparePassword`
abbrev pub compare_password : Bcrypt → UserRow → String → Option Err
compare_password bcrypt u password = bcrypt.compare u.password_hash password

-- `User.IsAllowedToAuthenticate`
abbrev pub is_allowed_to_authenticate : UserRow → Option Err
is_allowed_to_authenticate u =
    if u.user.banned then some (status permission_denied "user is banned") else none

abbrev pub new_claims : ℕ → ℕ → List ℕ → String → String → TokenType → Claims
new_claims time ttl id username node_name token_type = record {
  expires_at = time + ttl;
  id = id;
  issued_at = time;
  username = username;
  node_name = node_name;
  token_type = token_type;
}

-- The string that Go has beside an error.
abbrev pub or_empty : Result String → String
or_empty (ok s) = s
or_empty (err e) = ""

-- `User.GenerateAuthTokens`. The error of signing the refresh token is not looked at.
unfoldable pub generate_auth_tokens :
    Env → Jwt → UserRow → ℕ → ℕ → List ℕ → String → Action AuthTokens
generate_auth_tokens env jwt u ttl_access ttl_refresh key node_name = do
  time ← perform_plain now env.time
  access_id ← perform_plain new_uuid env.uuid
  access_token ←
      lift (
        signed_string jwt env.error_text
          (new_claims time ttl_access access_id u.user.username node_name access) key)
      wrapped "claims.SignedString failed"
  refresh_id ← perform_plain new_uuid env.uuid
  return (record {
    access_token = access_token;
    refresh_token = or_empty (
        signed_string jwt env.error_text
          (new_claims time ttl_refresh refresh_id u.user.username node_name refresh) key);
  })

-- `User.Create`: the row as it is stored, and the event.
unfoldable pub create_user : Env → UserRow → Action (UserRow × Event)
create_user env u =
    let insert = insert_user (
      ("username", text u.user.username)
      ∷ ("email", text u.user.email)
      ∷ ("banned", number (if u.user.banned then 1 else 0))
      ∷ ("password_hash", bytes u.password_hash)
      ∷ []) in
    let store = do
      row ← handled env (perform (query insert) (env.get_user insert)) wrapped "db.Get failed"
      event ← new_event env (accounts_user row.user) created accounts none
      return (row, event)
    in if u.user.id == 0
      then store
      else fail (status failed_precondition "can't create existing user")

-- `UserLookUp` of a request with one of the three cases.
unfoldable pub user_look_up : Env → UserLookupRequest → Action UserRow
user_look_up env r =
    handled env (perform (query (select_user r)) (env.get_user (select_user r)))
    wrapped "failed to perform a select request"

-- `User.ChangePassword`
unfoldable pub change_password : Env → Bcrypt → UserRow → String → ℕ → Action (UserRow × Event)
unfolding set_password_hash
change_password env bcrypt u password cost =
    let store = do
      hashed ← lift (set_password_hash bcrypt u password cost) wrapped "failed to set password hash"
      let update = update_password hashed.password_hash hashed.user.id
      row ←
          handled env (perform (query update) (env.get_user update))
          wrapped "failed to update user's password"
      event ←
          new_event env (accounts_user row.user) updated accounts
            (some ("password_changed_at" ∷ "updated_at" ∷ []))
      return (row, event)
    in if u.user.id == 0 then fail (status failed_precondition "user not saved in DB") else store

-- `NewNodeFromSchedulerProto`
abbrev pub new_node_from_scheduler_proto : Node → AccountNode
new_node_from_scheduler_proto p = record {
  id = p.id;
  username = p.username;
  name = p.name;
  fingerprint = p.fingerprint;
}

-- `Node.Create`
unfoldable pub create_node : Env → AccountNode → Action AccountNode
create_node env n =
    handled env
      (perform (query (insert_account_node n)) (env.get_account_node (insert_account_node n)))

-- `NodeLookUp`
unfoldable pub node_look_up : Env → String → String → Action AccountNode
node_look_up env username name =
    let select = select_account_node username name in
    handled env (perform (query select) (env.get_account_node select))
    wrapped "failed to find Node in DB"

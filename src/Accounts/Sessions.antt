-- ===== src/Accounts/Sessions.antt =====
-- Who gets tokens from the accounts service, and who gets at a user.
use Prim.Native.String.{String}
use scalemate.Prelude.{
  ℕ, ◌+◌, ◌≤◌, ◌<◌, ◌≡◌, refl, ◌⊎◌, inl, inr, true, false, List, ◌∷◌, none, arith, same_text,
  same_bytes, same_text→eq, same_bytes→eq, Option-cases, Bool-cases,
}
use scalemate.Proto.{by_username, UserLookupRequest, User, AuthTokens}
use scalemate.World.{
  Env, History, query, select_user, select_account_node, Result, Result-cases, ok, UserRow,
  AccountNode, now,
}
use scalemate.Shared.Auth.{
  Jwt, Claims, TokenType, access, refresh, signed_string, new_claims_from_string_verified,
  ContextClaims, has_claims, no_claims, other_type,
}
use scalemate.Accounts.Users.{
  Bcrypt, compare_password, generate_auth_tokens, new_claims, user_look_up, node_look_up,
}
use scalemate.Accounts.Server.{
  AccountsServer, PasswordAuthRequest, password_auth, token_auth, get, username_of, password_of,
  node_name_of, fingerprint_of, check_node, claims_username_equal,
}

module _ (env : Env) (jwt : Jwt) where
  -- The access token is the one that was signed for the claims of the user.
  pub generate_auth_tokens-sign :
      (u : UserRow) (ttl_access ttl_refresh : ℕ) (key : List ℕ) (node_name : String)
      (h h' : History) (tokens : AuthTokens)
      → generate_auth_tokens env jwt u ttl_access ttl_refresh key node_name h ≡ (ok tokens, h')
      → jwt.sign
          (new_claims (env.time h) ttl_access (env.uuid (now ∷ h)) u.user.username node_name access)
          key
        ≡ ok tokens.access_token
  unfolding generate_auth_tokens signed_string
  generate_auth_tokens-sign u ttl_access ttl_refresh key node_name h h' tokens eq =
      let c =
        new_claims (env.time h) ttl_access (env.uuid (now ∷ h)) u.user.username node_name access in
      elim (Result-cases (jwt.sign c key)) [
        | inl (x, unsigned) ↦ absurd (ground (arith, eq, unsigned))
        | inr (token, signed) ↦ ground (arith, eq, signed)
      ]

  -- A token that `GenerateAuthTokens` returns as the access token is signed, and parses to the
  -- claims of an access token of the user until it expires.
  generate_auth_tokens-parse :
      (u : UserRow) (ttl_access ttl_refresh : ℕ) (key : List ℕ) (node_name : String)
      (h h' : History) (tokens : AuthTokens) (later : ℕ)
      → generate_auth_tokens env jwt u ttl_access ttl_refresh key node_name h ≡ (ok tokens, h')
      → env.time h ≤ later
      → later < env.time h + ttl_access
      → (c : Claims) × (jwt.parse tokens.access_token key later ≡ ok c)
        × (c.username ≡ u.user.username)
        × (c.node_name ≡ node_name)
        × (c.token_type ≡ access)
  unfolding generate_auth_tokens signed_string
  generate_auth_tokens-parse u ttl_access ttl_refresh key node_name h h' tokens later eq from_then
        before =
      let c =
        new_claims (env.time h) ttl_access (env.uuid (now ∷ h)) u.user.username node_name access in
      let signed =
        generate_auth_tokens-sign u ttl_access ttl_refresh key node_name h h' tokens eq in
      (c, jwt.parse-sign c key later signed from_then before, refl, refl, refl)

token_type-cases : (t : TokenType) → (t ≡ access) ⊎ (t ≡ refresh)
token_type-cases access = inl refl
token_type-cases refresh = inr refl

-- What `PasswordAuth` checks of the user and of the node that it finds.
pub record Proven (env : Env) (bcrypt : Bcrypt) (r : PasswordAuthRequest) (h : History)
    : Type 0 where
  pub user : UserRow
  pub found : env.get_user (select_user (by_username (username_of r))) h ≡ ok user
  pub password : compare_password bcrypt user (password_of r) ≡ none
  pub not_banned : user.user.banned ≡ false
  pub node :
      (same_text (node_name_of r) "" ≡ true)
      ⊎ ((n : AccountNode) × (env.get_account_node
              (select_account_node (username_of r) (node_name_of r))
              (query (select_user (by_username (username_of r))) ∷ h)
            ≡ ok n)
          × (n.fingerprint ≡ fingerprint_of r))

module _ (env : Env) where
  check_node-holds :
      (r : PasswordAuthRequest) (h : History)
      → (check_node env r h).0 ≡ ok tt
      → (same_text (node_name_of r) "" ≡ true)
        ⊎ ((n : AccountNode) × (env.get_account_node
                (select_account_node (username_of r) (node_name_of r))
                h
              ≡ ok n)
            × (n.fingerprint ≡ fingerprint_of r))
  unfolding check_node node_look_up
  check_node-holds r h eq = elim (Bool-cases (same_text (node_name_of r) "")) [
    | inl no_name ↦ inl no_name
    | inr named ↦
        elim (Result-cases
          (env.get_account_node (select_account_node (username_of r) (node_name_of r)) h)) [
            | inl (x, missing) ↦ absurd (ground (arith, eq, named, missing))
            | inr (n, found) ↦ elim (Bool-cases (same_bytes n.fingerprint (fingerprint_of r))) [
              | inr differs ↦ absurd (ground (arith, eq, named, found, differs))
              | inl same ↦ inr (n, found, same_bytes→eq n.fingerprint (fingerprint_of r) same)
            ]
          ]
  ]

module _ (env : Env) (jwt : Jwt) (bcrypt : Bcrypt) (s : AccountsServer) where
  -- `PasswordAuth` gives tokens only to a user who is found by the name, has the password, is not
  -- banned and, if a node's name is given, whose node is found and has the fingerprint.
  pub password_auth-Proven :
      (r : PasswordAuthRequest) (h h' : History) (tokens : AuthTokens)
      → password_auth env jwt bcrypt s r h ≡ (ok tokens, h')
      → Proven env bcrypt r h
  unfolding password_auth user_look_up
  password_auth-Proven r h h' tokens eq =
      elim (Result-cases (env.get_user (select_user (by_username (username_of r))) h)) [
        | inl (x, missing) ↦ absurd (ground (arith, eq, missing))
        | inr (user, found) ↦
            elim (Option-cases (bcrypt.compare user.password_hash (password_of r))) [
              | inr (x, wrong) ↦ absurd (ground (arith, eq, found, wrong))
              | inl password ↦ elim (Bool-cases user.user.banned) [
                | inl banned ↦ absurd (ground (arith, eq, found, password, banned))
                | inr not_banned ↦ elim (Result-cases (node_result user)) [
                  | inl (x, e) ↦ absurd (ground (arith, eq, found, password, not_banned, e))
                  | inr (u, e) ↦ record {
                    user = user;
                    found = found;
                    password = password;
                    not_banned = not_banned;
                    node = check_node-holds env r _ e;
                  }
                ]
              ]
            ]
      ]
    where
      node_result : UserRow → Result (Unit {0})
      node_result user =
          (check_node env r (query (select_user (by_username (username_of r))) ∷ h)).0

module _ (env : Env) (jwt : Jwt) (s : AccountsServer) where
  -- `TokenAuth` gives tokens only for a token that the key verifies, that is a refresh token, and
  -- whose user is found and is not banned.
  pub token_auth-refresh :
      (expected : TokenType → String) (time : ℕ) (token : String) (h h' : History)
      (tokens : AuthTokens)
      → token_auth env jwt s expected time token h ≡ (ok tokens, h')
      → (c : Claims) × (jwt.parse token s.jwt_secret_key time ≡ ok c)
        × (c.token_type ≡ refresh)
        × (user : UserRow) × (env.get_user (select_user (by_username c.username)) h ≡ ok user)
        × (user.user.banned ≡ false)
  unfolding token_auth user_look_up new_claims_from_string_verified
  token_auth-refresh expected time token h h' tokens eq =
      elim (Result-cases (jwt.parse token s.jwt_secret_key time)) [
        | inl (x, invalid) ↦ absurd (ground (arith, eq, invalid))
        | inr (c, parsed) ↦ elim (token_type-cases c.token_type) [
          | inl is_access ↦ absurd (ground (arith, eq, parsed, is_access))
          | inr is_refresh ↦
              elim (Result-cases (env.get_user (select_user (by_username c.username)) h)) [
                | inl (x, missing) ↦ absurd (ground (arith, eq, parsed, is_refresh, missing))
                | inr (user, found) ↦ elim (Bool-cases user.user.banned) [
                  | inl banned ↦ absurd (ground (arith, eq, parsed, is_refresh, found, banned))
                  | inr not_banned ↦ (c, parsed, is_refresh, user, found, not_banned)
                ]
              ]
        ]
      ]

module _ (env : Env) where
  -- `Get` returns a user only to the holder of claims with the user's name, and in one query.
  get-owner :
      (ctx : ContextClaims) (r : UserLookupRequest) (h h' : History) (u : User)
      → get env ctx r h ≡ (ok u, h')
      → (c : Claims) × (ctx ≡ has_claims c)
        × (c.username ≡ u.username)
        × (h' ≡ query (select_user r) ∷ h)
  unfolding get user_look_up claims_username_equal
  get-owner (has_claims c) r h h' u eq = elim (Result-cases (env.get_user (select_user r) h)) [
    | inl (x, missing) ↦ absurd (ground (arith, eq, missing))
    | inr (user, found) ↦ elim (Bool-cases (same_text c.username user.user.username)) [
      | inr other ↦ absurd (ground (arith, eq, found, other))
      | inl same ↦ (
        c,
        refl,
        ground (arith, eq, found, same, same_text→eq c.username user.user.username same),
        ground (arith, eq, found, same),
      )
    ]
  ]
  get-owner no_claims r h h' u eq = elim (Result-cases (env.get_user (select_user r) h)) [
    | inl (x, missing) ↦ absurd (ground (arith, eq, missing))
    | inr (user, found) ↦ absurd (ground (arith, eq, found))
  ]
  get-owner other_type r h h' u eq = elim (Result-cases (env.get_user (select_user r) h)) [
    | inl (x, missing) ↦ absurd (ground (arith, eq, missing))
    | inr (user, found) ↦ absurd (ground (arith, eq, found))
  ]

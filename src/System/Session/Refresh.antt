-- ===== src/System/Session/Refresh.antt =====
-- shared/auth/claims.go and accounts/models/user.go together: the type of a token at the scheduler, which
-- does not look at it.
use Prim.Native.String.{String}
use scalemate.Prelude.{ℕ, ◌+◌, ◌≤◌, ◌<◌, ◌≡◌, ◌≢◌, refl, false, List, ◌∷◌, arith, inl, inr}
use scalemate.Proto.{AuthTokens}
use scalemate.World.{Env, History, Result-cases, ok, now, new_uuid}
use scalemate.Shared.Auth.{
  Jwt, Claims, access, refresh, has_claims, no_claims, signed_string, inject_claims,
}
use scalemate.Accounts.Users.{generate_auth_tokens, new_claims}
use scalemate.World.{UserRow}
use scalemate.Client.Requests.{SchedulerCall}
use scalemate.Client.Requests.Own.{is_public}
use scalemate.Scheduler.Requests.{auth_func_override}
use scalemate.System.Session.{method_of, auth_func_override-private, verified_claims}

module _ (env : Env) (jwt : Jwt) (key : List ℕ) (time : ℕ) where
  -- The claims of the refresh token that `GenerateAuthTokens` makes.
  abbrev refresh_claims : UserRow → ℕ → String → History → Claims
  refresh_claims u ttl_refresh node_name h =
      new_claims (env.time h) ttl_refresh (env.uuid (new_uuid ∷ now ∷ h)) u.user.username node_name
        refresh

  -- A refresh token authenticates requests as an access token does: if `GenerateAuthTokens` made it, and
  -- could sign it, then until it expires the scheduler takes it as the bearer token of a call that is
  -- not public, and handles the call with its claims.
  pub refresh_token-accepted :
      (u : UserRow) (ttl_access ttl_refresh : ℕ) (node_name : String) (h h' : History)
      (tokens : AuthTokens) (call : SchedulerCall)
      → generate_auth_tokens env jwt u ttl_access ttl_refresh key node_name h ≡ (ok tokens, h')
      → tokens.refresh_token ≢ ""
      → env.time h ≤ time
      → time < env.time h + ttl_refresh
      → is_public call ≡ false
      → (c : Claims) × (auth_func_override no_claims
            (inject_claims jwt env.error_text key time (ok tokens.refresh_token))
            (method_of call)
          ≡ ok (has_claims c))
        × (c.token_type ≡ refresh)
        × (c.username ≡ u.user.username)
  unfolding generate_auth_tokens signed_string
  refresh_token-accepted u ttl_access ttl_refresh node_name h h' tokens call made given from_then
        before private =
      let c = refresh_claims u ttl_refresh node_name h in
      let a =
        new_claims (env.time h) ttl_access (env.uuid (now ∷ h)) u.user.username node_name access in
      elim (Result-cases (jwt.sign c key)) [
        | inl (x, p) ↦ absurd (given (ground (arith, made, p, Result-cases (jwt.sign a key))))
        | inr (token, p) ↦
            let held : tokens.refresh_token ≡ token =
              ground (arith, made, p, Result-cases (jwt.sign a key)) in
            (
              c,
              rw
                  (
                    held,
                    verified_claims env jwt key time token c
                        (jwt.parse-sign c key time p from_then before),
                  )
                  (auth_func_override-private call (has_claims c) private),
              refl,
              refl,
            )
      ]

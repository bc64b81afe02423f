-- ===== src/Shared/Auth.antt =====
-- shared/auth/claims.go and shared/auth/credentials.go: the claims of a JSON web token, and the
-- tokens that a client sends. Signing, parsing and checking of tokens is the work of jwt-go: a
-- `Jwt` that the definitions take.
use Prim.Native.String.{String, ◌++◌}
use scalemate.Prelude.{ℕ, ◌≤◌, ◌<◌, ◌≡◌, refl, Bool, List, arith}
use scalemate.World.{Err, status, wrap, invalid_argument, internal, Result, ok, err}

pub data TokenType : Type 0 where
  access refresh : TokenType

-- `Claims`, with the standard claims that the services set.
pub record Claims : Type 0 where
  pub expires_at : ℕ
  pub id : List ℕ
  pub issued_at : ℕ
  pub username : String
  pub node_name : String
  pub token_type : TokenType

-- jwt-go. A signed token is parsed with its key, until it expires, to the claims that were signed;
-- `parse_unverified` reads them with no key, and `valid` is the check of the times.
pub record Jwt : Type 0 where
  pub sign : Claims → List ℕ → Result String
  pub parse : String → List ℕ → ℕ → Result Claims
  pub parse_unverified : String → Result Claims
  pub valid : Claims → ℕ → Bool
  pub parse-sign :
      (c : Claims) (key : List ℕ) (time : ℕ) {token : String}
      → sign c key ≡ ok token
      → c.issued_at ≤ time
      → time < c.expires_at
      → parse token key time ≡ ok c

-- `NewClaimsFromStringVerified` at a time. The claims of the parsed token are the very struct that
-- was passed to the parser, so the type assertion on them cannot fail.
unfoldable pub new_claims_from_string_verified :
    Jwt → (Err → String) → String → List ℕ → ℕ → Result Claims
new_claims_from_string_verified jwt text token key time = elim (jwt.parse token key time) [
  | err e ↦ err (status invalid_argument ("JWT can't be parsed: " ++ text e))
  | ok c ↦ ok c
]

unfoldable pub signed_string : Jwt → (Err → String) → Claims → List ℕ → Result String
signed_string jwt text c key = elim (jwt.sign c key) [
  | err e ↦ err (status internal ("could not sign a JWT: " ++ text e))
  | ok token ↦ ok token
]

-- What `ctx.Value(ContextKeyClaims)` holds: nothing, claims, or a value of another type.
pub data ContextClaims : Type 0 where
  no_claims : ContextClaims
  has_claims : Claims → ContextClaims
  other_type : ContextClaims

-- `JWTClaimsInjector.InjectClaims`; `bearer` is what `grpc_auth.AuthFromMD` answers.
unfoldable pub inject_claims :
    Jwt → (Err → String) → List ℕ → ℕ → Result String → Result ContextClaims
unfolding new_claims_from_string_verified
inject_claims jwt text key time (err e) = err (wrap e "grpc_auth.AuthFromMD failed")
inject_claims jwt text key time (ok token) =
    elim (new_claims_from_string_verified jwt text token key time) [
      | err e ↦ err (status invalid_argument ("invalid auth token: " ++ text e))
      | ok c ↦ ok (has_claims c)
    ]

-- The context with claims comes only from a bearer token that the key verifies.
inject_claims-parse :
    (jwt : Jwt) (text : Err → String) (key : List ℕ) (time : ℕ) (bearer : Result String)
    (out : ContextClaims)
    → inject_claims jwt text key time bearer ≡ ok out
    → (token : String) × (c : Claims) × (bearer ≡ ok token)
      × (jwt.parse token key time ≡ ok c)
      × (out ≡ has_claims c)
unfolding inject_claims
inject_claims-parse jwt text key time (err e) out h = cc
inject_claims-parse jwt text key time (ok token) out h = go (jwt.parse token key time) refl
  where
    go :
        (r : Result Claims)
        → jwt.parse token key time ≡ r
        → (token' : String) × (c : Claims) × (ok token ≡ ok token')
          × (jwt.parse token' key time ≡ ok c)
          × (out ≡ has_claims c)
    go (err e) p = absurd (ground arith)
    go (ok c) p = (token, c, refl, p, ground arith)

-- ===== src/Shared/Fakes.antt =====
-- shared/auth/claims.go and shared/auth/credentials.go: the injector of given claims, which the tests of
-- the services use, and the credentials with a token that stays the same.
use Prim.Native.String.{String, ◌++◌}
use scalemate.Prelude.{◌≡◌, refl, Bool, true}
use scalemate.World.{Result, ok}
use scalemate.Shared.Auth.{Jwt, Claims, ContextClaims, has_claims}

-- `NewClaimsFromString`, which verifies nothing.
unfoldable pub new_claims_from_string : Jwt → String → Result Claims
new_claims_from_string jwt token = jwt.parse_unverified token

-- `FakeClaimsInjector`
pub record FakeClaimsInjector : Type 0 where
  pub claims : Claims

-- `FakeClaimsInjector.SetClaims`: the injector afterwards, and the function that restores the claims.
unfoldable pub set_claims :
    Claims → FakeClaimsInjector → FakeClaimsInjector × (FakeClaimsInjector → FakeClaimsInjector)
set_claims claims f = (record f { claims = claims }, λ later. record later { claims = f.claims })

-- `FakeClaimsInjector.InjectClaims`
unfoldable pub inject_fake_claims : FakeClaimsInjector → Result ContextClaims
inject_fake_claims f = ok (has_claims f.claims)

-- `SimpleJWTCredentials`, by its token, and its header.
unfoldable pub simple_request_metadata : String → Result String
simple_request_metadata access_token = ok ("Bearer " ++ access_token)

-- `RequireTransportSecurity` of both kinds of credentials.
unfoldable pub require_transport_security : Bool
require_transport_security = true

-- After the restoring function, whatever other claims were set before it, a call gets the claims that it
-- got before the first ones were set.
set_claims-inject_fake_claims :
    (first second : Claims) (f : FakeClaimsInjector)
    → inject_fake_claims ((set_claims first f).1 (set_claims second (set_claims first f).0).0)
      ≡ inject_fake_claims f
unfolding set_claims inject_fake_claims
set_claims-inject_fake_claims first second f = refl

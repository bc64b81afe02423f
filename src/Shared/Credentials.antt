-- ===== src/Shared/Credentials.antt =====
-- shared/auth/credentials.go: a client's tokens, refreshed when the access token has expired.
use Prim.Native.String.{String, ◌++◌}
use scalemate.Prelude.{ℕ, ◌≡◌, List, [], ◌∷◌, Option, none, some, arith, if◌then◌else◌}
use scalemate.Proto.{AuthTokens}
use scalemate.World.{Err, wrap, Result, ok, err}
use scalemate.Shared.Auth.{Jwt}

-- What a call does besides answering: it asks the server for tokens and saves tokens.
pub data Effect : Type 0 where
  ask_tokens : String → Effect
  save : AuthTokens → Effect

-- The answer, the tokens that `JWTCredentials` holds afterwards, and the effects in their order.
pub record Outcome : Type 0 where
  pub answer : Result String
  pub tokens : AuthTokens
  pub effects : List Effect

module _ (jwt : Jwt) (time : ℕ) (token_auth_answer : String → Result AuthTokens)
    (save_answer : AuthTokens → Option Err) where
  -- The branch with `j.save(tokens)`.
  unfoldable pub save_tokens : AuthTokens → AuthTokens → List Effect → Outcome
  save_tokens old new effects = elim (save_answer new) [
    | some e ↦ record {
      answer = err (wrap e "failed to save new auth tokens");
      tokens = old;
      effects = save new ∷ effects;
    }
    | none ↦ record {
      answer = ok ("Bearer " ++ new.access_token);
      tokens = new;
      effects = save new ∷ effects;
    }
  ]

  -- The branch for an access token that is no longer valid.
  unfoldable pub refresh_tokens : AuthTokens → Outcome
  unfolding save_tokens
  refresh_tokens tokens =
      let asked = ask_tokens tokens.refresh_token ∷ [] in
      elim (jwt.parse_unverified tokens.refresh_token) [
        | err e ↦ record {
          answer = err (wrap e "failed to parse refresh token");
          tokens = tokens;
          effects = [];
        }
        | ok c ↦ elim (token_auth_answer tokens.refresh_token) [
          | err e ↦ record {
            answer = err (wrap e "failed to authenticate using refresh token. Please, login.");
            tokens = tokens;
            effects = asked;
          }
          | ok new ↦ save_tokens tokens new asked
        ]
      ]

  -- `GetRequestMetadata`; the answer is the value of the header `authorization`.
  unfoldable pub get_request_metadata : AuthTokens → Outcome
  unfolding refresh_tokens
  get_request_metadata tokens = elim (jwt.parse_unverified tokens.access_token) [
    | err e ↦ record {
      answer = err (wrap e "failed to parse access token");
      tokens = tokens;
      effects = [];
    }
    | ok c ↦
        if jwt.valid c time
        then record {
          answer = ok ("Bearer " ++ tokens.access_token);
          tokens = tokens;
          effects = [];
        }
        else refresh_tokens tokens
  ]

  -- Whatever happens, the header that is returned carries the access token that the credentials
  -- hold afterwards; if it fails they hold the tokens that they held before; and new tokens are
  -- held only after they were saved.
  get_request_metadata-holds :
      (tokens : AuthTokens)
      → let out = get_request_metadata tokens in
        ((header : String) → out.answer ≡ ok header → header ≡ "Bearer " ++ out.tokens.access_token)
        × ((e : Err) → out.answer ≡ err e → out.tokens ≡ tokens)
        × ((out.effects ≡ []) → out.tokens ≡ tokens)
  unfolding get_request_metadata
  get_request_metadata-holds tokens =
      (λ header h. ground arith, λ e h. ground arith, λ h. ground arith)

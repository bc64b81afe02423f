-- ===== src/Client/Commands/Accounts/Login.antt =====
-- client/cmd/login.go: what `scalemate login` has done when it logs success.
use Prim.Native.String.{String}
use scalemate.Prelude.{
  ◌≡◌, ◌≢◌, ◌⊎◌, List, [], ◌∷◌, none, same_text, same_text→eq, arith, inl, inr, Bool-cases,
}
use scalemate.Proto.{AuthTokens}
use scalemate.World.{Result-cases, ok}
use scalemate.Client.Controllers.{
  ClientEnv, ask_password_auth, store_tokens, login_controller, login_controller-saves,
}
use scalemate.Client.Commands.Accounts.{
  Answers-cases, Terminal, login_cmd, value_or_ask, view, logs_info, answered,
}

module _ (t : Terminal) where
  -- A value is the one of the flag, or the answer to the prompt if the flag is empty.
  abbrev pub IsGiven : String → String → String → Type 0
  IsGiven value message used = (used ≡ value) ⊎ ((value ≡ "") × (t.answer message ≡ ok used))

  -- What the terminal or the flag gave, if there is no error.
  value_or_ask-IsGiven :
      (value message used : String) (ps : List String)
      → value_or_ask t value message ≡ (answered used, ps)
      → IsGiven value message used
  value_or_ask-IsGiven value message used ps e = elim (Bool-cases (same_text value "")) [
    | inr p ↦ inl (ground (arith, e, p))
    | inl p ↦ elim (Result-cases (t.answer message)) [
      | inl (x, q) ↦ absurd (ground (arith, e, p, q))
      | inr (a, q) ↦ inr (same_text→eq value "" p, ground (arith, e, p, q))
    ]
  ]

  -- A login that logs success used a name and a password that the flags or the prompts gave, none of
  -- them empty, asked the service once with them, and saved the tokens that the service answered.
  pub login_cmd-saves :
      (env : ClientEnv) (username password text : String)
      → (login_cmd t env username password).logged ≡ logs_info text
      → (name : String) × (secret : String) × (tokens : AuthTokens) × IsGiven username "Username"
          name
        × IsGiven password "Password" secret
        × (name ≢ "")
        × (secret ≢ "")
        × (env.on_password_auth name secret ≡ ok tokens)
        × (env.on_save tokens ≡ none)
        × ((login_cmd t env username password).calls
            ≡ ask_password_auth name secret ∷ store_tokens tokens ∷ [])
  unfolding login_cmd view
  login_cmd-saves env username password text e =
      elim (Answers-cases (value_or_ask t username "Username")) [
        | inl (x, ps, p) ↦ absurd (ground (arith, e, p))
        | inr (name, ps, p) ↦ elim (Answers-cases (value_or_ask t password "Password")) [
          | inl (x, qs, q) ↦ absurd (ground (arith, e, p, q))
          | inr (secret, qs, q) ↦ elim (Result-cases (login_controller env name secret).0) [
            | inl (x, r) ↦ absurd (ground (arith, e, p, q, r))
            | inr (tokens, r) ↦
                let (a, b, c, d, f) =
                  login_controller-saves env name secret tokens (login_controller env name secret).1
                    (ground (arith, r)) in
                (
                  name,
                  secret,
                  tokens,
                  value_or_ask-IsGiven username "Username" name ps p,
                  value_or_ask-IsGiven password "Password" secret qs q,
                  a,
                  b,
                  c,
                  d,
                  ground (arith, p, q, r, f),
                )
          ]
        ]
      ]

-- ===== src/Client/Commands/Accounts/Password.antt =====
-- client/cmd/change_password.go: which password is set.
use Prim.Native.String.{String}
use scalemate.Prelude.{
  ◌≡◌, ◌≢◌, ◌⊎◌, Bool, true, false, List, [], same_text, arith, inl, inr, Bool-cases, eq→same_text,
  same_text→eq, sym, ap, ◌∙◌,
}
use scalemate.World.{Result-cases, ok}
use scalemate.Shared.Auth.{Jwt}
use scalemate.Client.Controllers.{ClientEnv, change_password_controller}
use scalemate.Client.Commands.Accounts.{
  Terminal, answered, Answers-cases, confirmed_password, change_password_cmd,
}

module _ (t : Terminal) (env : ClientEnv) (jwt : Jwt) where
  -- The password is the one of the flag, or was answered twice.
  abbrev pub IsConfirmed : String → String → Type 0
  IsConfirmed password p =
      ((password ≢ "") × (p ≡ password))
      ⊎ ((password ≡ "") × (t.answer "Password" ≡ ok p) × (t.answer "Same password again" ≡ ok p))

  confirmed_password-IsConfirmed :
      (password p : String) (ps : List String)
      → confirmed_password t password ≡ (answered p, ps)
      → IsConfirmed password p
  confirmed_password-IsConfirmed password p ps e = elim (Bool-cases (same_text password "")) [
    | inr q ↦ inl ((λ given. differs q (eq→same_text password "" given)), ground (arith, e, q))
    | inl q ↦ elim (Result-cases (t.answer "Password")) [
      | inl (x, r) ↦ absurd (ground (arith, e, q, r))
      | inr (first, r) ↦ elim (Result-cases (t.answer "Same password again")) [
        | inl (x, s) ↦ absurd (ground (arith, e, q, r, s))
        | inr (second, s) ↦ elim (Bool-cases (same_text first second)) [
          | inr u ↦ absurd (ground (arith, e, q, r, s, u))
          | inl u ↦
              let same : first ≡ second = same_text→eq first second u in
              let mine : p ≡ first = ground (arith, e, q, r, s, u) in
              inr
                (same_text→eq password "" q, r ∙ ap ok (sym mine), s ∙ ap ok (sym same ∙ sym mine))
        ]
      ]
    ]
  ]
    where
      differs : {b : Bool} → b ≡ false → b ≡ true → ⊥
      differs f g = cc

  -- If the command to change the password makes any call, then the password is the one of the flag, or
  -- was answered at both prompts, and the calls are those of the controller with this password.
  change_password_cmd-IsConfirmed :
      (password : String)
      → (change_password_cmd t env jwt password).calls ≢ []
      → (p : String) × IsConfirmed password p
        × ((change_password_cmd t env jwt password).calls
            ≡ (change_password_controller env jwt p).1)
  unfolding change_password_cmd
  change_password_cmd-IsConfirmed password called =
      elim (Answers-cases (confirmed_password t password)) [
        | inl (x, ps, e) ↦ absurd (called (ground (arith, e)))
        | inr (p, ps, e) ↦ (p, confirmed_password-IsConfirmed password p ps e, ground (arith, e))
      ]

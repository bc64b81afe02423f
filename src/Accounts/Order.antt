-- ===== src/Accounts/Order.antt =====
-- What the handlers of the accounts service did when they succeed.
use Prim.Native.String.{String}
use scalemate.Prelude.{
  ℕ, ◌≡◌, inl, inr, List, [], ◌∷◌, Option, none, arith, Option-cases, ◌==◌, if◌then◌else◌,
}
use scalemate.Proto.{User, Event, accounts_user, by_username}
use scalemate.World.{
  Env, History, Call, begin, commit, query, send, new_uuid, now, Err, Result-cases, run-cases, ok,
  UserRow, update_password, insert_user, text, number, bytes, select_user,
}
use scalemate.Shared.Utils.{rolled_back, publish, commit_and_publish}
use scalemate.Shared.Auth.{ContextClaims}
use scalemate.Shared.Events.{new_event}
use scalemate.Accounts.Users.{Bcrypt, set_password_hash, create_user, change_password, user_look_up}
use scalemate.Accounts.Server.{
  AccountsServer, RegisterRequest, ChangePasswordRequest, new_user, register,
  change_password_handler, claims_username_equal,
}

set_password_hash-ok :
    (bcrypt : Bcrypt) (u : UserRow) (password : String) (cost : ℕ) {v : UserRow}
    → set_password_hash bcrypt u password cost ≡ ok v
    → (bcrypt.compare v.password_hash password ≡ none) × (v.user ≡ u.user)
unfolding set_password_hash
set_password_hash-ok bcrypt u password cost eq =
    elim (Result-cases
      (bcrypt.generate password (if cost == 0 then bcrypt.default_cost else cost))) [
        | inl (x, none_made) ↦ absurd (ground (arith, eq, none_made))
        | inr (hash, made) ↦ (
          ground (
            arith,
            eq,
            made,
            bcrypt.compare-generate password (if cost == 0 then bcrypt.default_cost else cost) hash
                made,
          ),
          ground (arith, eq, made),
        )
      ]

create_user-ok :
    (env : Env) (u row : UserRow) (e : Event) {h h' : History}
    → create_user env u h ≡ (ok (row, e), h')
    → (e.payload ≡ accounts_user row.user)
      × (h'
          ≡ now
            ∷ new_uuid
            ∷ query (
                insert_user (
                  ("username", text u.user.username)
                  ∷ ("email", text u.user.email)
                  ∷ ("banned", number (if u.user.banned then 1 else 0))
                  ∷ ("password_hash", bytes u.password_hash)
                  ∷ []))
            ∷ h)
unfolding create_user new_event
create_user-ok env u row e eq = ground (arith, eq)

change_password-ok :
    (env : Env) (bcrypt : Bcrypt) (u row : UserRow) (password : String) (cost : ℕ) (e : Event)
    {h h' : History}
    → change_password env bcrypt u password cost h ≡ (ok (row, e), h')
    → (hash : List ℕ) × (bcrypt.compare hash password ≡ none)
      × (h' ≡ now ∷ new_uuid ∷ query (update_password hash u.user.id) ∷ h)
unfolding change_password new_event
change_password-ok env bcrypt u row password cost e eq =
    elim (Result-cases (set_password_hash bcrypt u password cost)) [
      | inl (x, none_made) ↦ absurd (ground (arith, eq, none_made))
      | inr (v, made) ↦
          let inverted = set_password_hash-ok bcrypt u password cost made in
          (v.password_hash, inverted.0, ground (arith, eq, made, inverted.1))
    ]

commit_and_publish-ok :
    (env : Env) (e : Event) {h h' : History}
    → commit_and_publish env (e ∷ []) h ≡ (ok tt, h')
    → h' ≡ commit ∷ send (e ∷ []) ∷ h
unfolding commit_and_publish rolled_back publish
commit_and_publish-ok env e eq = ground (arith, eq)

module _ (env : Env) (bcrypt : Bcrypt) (s : AccountsServer) where
  -- If `Register` returns a user then, in this order, it began a transaction, inserted a user with a
  -- hash of the password, sent one event whose payload is the user returned, and committed, and the
  -- password compares with the hash.
  pub register-order :
      (validate : RegisterRequest → Option Err) (r : RegisterRequest) (h h' : History) (u : User)
      → register env bcrypt validate s r h ≡ (ok u, h')
      → (hash : List ℕ) × (e : Event) × (bcrypt.compare hash r.password ≡ none)
        × (e.payload ≡ accounts_user u)
        × (h'
            ≡ commit
              ∷ send (e ∷ [])
              ∷ now
              ∷ new_uuid
              ∷ query (
                  insert_user (
                    ("username", text r.username)
                    ∷ ("email", text r.email)
                    ∷ ("banned", number 0)
                    ∷ ("password_hash", bytes hash)
                    ∷ []))
              ∷ begin
              ∷ h)
  unfolding register rolled_back
  register-order validate r h h' u eq = elim (Option-cases (validate r)) [
    | inr (x, invalid) ↦ absurd (ground (arith, eq, invalid))
    | inl valid ↦
        elim (Result-cases (set_password_hash bcrypt (new_user r) r.password s.bcrypt_cost)) [
          | inl (x, unhashed) ↦ absurd (ground (arith, eq, valid, unhashed))
          | inr (v, hashed) ↦ elim (Option-cases (env.on_begin h)) [
            | inr (x, unbegun) ↦ absurd (ground (arith, eq, valid, hashed, unbegun))
            | inl begun ↦ elim (run-cases (create_user env v (begin ∷ h))) [
              | inl (x, h₁, failed) ↦ absurd (ground (arith, eq, valid, hashed, begun, failed))
              | inr ((row, e), h₁, made) ↦ elim (run-cases (commit_and_publish env (e ∷ []) h₁)) [
                | inl (x, h₂, failed) ↦
                    absurd (ground (arith, eq, valid, hashed, begun, made, failed))
                | inr (done, h₂, committed) ↦
                    let inverted =
                      set_password_hash-ok bcrypt (new_user r) r.password s.bcrypt_cost hashed in
                    let created = create_user-ok env v row e made in
                    let published = commit_and_publish-ok env e committed in
                    (
                      v.password_hash,
                      e,
                      inverted.0,
                      ground (arith, eq, valid, hashed, begun, made, committed, created.0),
                      ground (
                        arith, eq, valid, hashed, begun, made, committed, inverted.1, created.1,
                        published,
                      ),
                    )
              ]
            ]
          ]
        ]
  ]

  -- If `ChangePassword` succeeds then, in this order, it looked the user up, began a transaction,
  -- updated the hash of that user to one with which the new password compares, sent one event and
  -- committed.
  change_password_handler-order :
      (validate : ChangePasswordRequest → Option Err) (ctx : ContextClaims)
      (r : ChangePasswordRequest) (h h' : History)
      → change_password_handler env bcrypt validate s ctx r h ≡ (ok tt, h')
      → (hash : List ℕ) × (e : Event) × (user : UserRow) × (bcrypt.compare hash r.password ≡ none)
        × (env.get_user (select_user (by_username r.username)) h ≡ ok user)
        × (h'
            ≡ commit
              ∷ send (e ∷ [])
              ∷ now
              ∷ new_uuid
              ∷ query (update_password hash user.user.id)
              ∷ begin
              ∷ query (select_user (by_username r.username))
              ∷ h)
  unfolding change_password_handler rolled_back user_look_up
  change_password_handler-order validate ctx r h h' eq = elim (Option-cases (validate r)) [
    | inr (x, invalid) ↦ absurd (ground (arith, eq, invalid))
    | inl valid ↦ elim (Result-cases (env.get_user (select_user (by_username r.username)) h)) [
      | inl (x, missing) ↦ absurd (ground (arith, eq, valid, missing))
      | inr (user, found) ↦ elim (Option-cases (claims_username_equal ctx user.user.username)) [
        | inr (x, denied) ↦ absurd (ground (arith, eq, valid, found, denied))
        | inl owner ↦ elim (Option-cases (env.on_begin (select r.username ∷ h))) [
          | inr (x, unbegun) ↦ absurd (ground (arith, eq, valid, found, owner, unbegun))
          | inl begun ↦
              elim (run-cases (
                change_password env bcrypt user r.password s.bcrypt_cost
                  (begin ∷ select r.username ∷ h))) [
                    | inl (x, h₁, failed) ↦
                        absurd (ground (arith, eq, valid, found, owner, begun, failed))
                    | inr ((row, e), h₁, made) ↦
                        elim (run-cases (commit_and_publish env (e ∷ []) h₁)) [
                          | inl (x, h₂, failed) ↦
                              absurd (ground (arith, eq, valid, found, owner, begun, made, failed))
                          | inr (done, h₂, committed) ↦
                              let changed =
                                change_password-ok env bcrypt user row r.password s.bcrypt_cost e
                                  made in
                              let published = commit_and_publish-ok env e committed in
                              (
                                changed.0,
                                e,
                                user,
                                changed.1,
                                found,
                                ground (
                                  arith, eq, valid, found, owner, begun, made, committed, changed.2,
                                  published,
                                ),
                              )
                        ]
                  ]
        ]
      ]
    ]
  ]
    where
      select : String → Call
      select name = query (select_user (by_username name))

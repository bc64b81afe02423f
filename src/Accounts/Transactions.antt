-- ===== src/Accounts/Transactions.antt =====
-- The transactions of the accounts service.
use Prim.Native.String.{String}
use scalemate.Prelude.{
  ◌⊎◌, inl, inr, ◌+◌, ◌≡◌, ap, ◌∙◌, not, ◌&&◌, inl, inr, Bool, true, false, ◌∷◌, Option, none, some,
  arith, Bool-cases,
}
use scalemate.Proto.{by_username}
use scalemate.World.{
  has_code, Env, History, begin, rollback, query, begun, ended, Err, wrap, with_stack, status, Code,
  not_found, already_exists, internal, ErrorLib, ok, err, AccountNode, select_user,
  insert_account_node,
}
use scalemate.Shared.Utils.{
  is_no_rows, contains, rollback_error, rolled_back, publish, commit_and_publish, handle_db_error,
  rollback_transaction,
}
use scalemate.Shared.Auth.{ContextClaims}
use scalemate.Shared.Events.{new_event}
use scalemate.Accounts.Users.{Bcrypt, create_user, change_password, user_look_up, create_node}
use scalemate.Accounts.Server.{
  AccountsServer, RegisterRequest, ChangePasswordRequest, register, change_password_handler,
  store_node, is_already_exists,
}

-- As many transactions are begun as are ended between the histories.
abbrev pub Balanced : History → History → Type 0
Balanced h h' = begun h' + ended h ≡ ended h' + begun h

abbrev pub Begins : Env → Type 0
Begins env = (h : History) → env.on_begin h ≡ none

module _ (env : Env) (bcrypt : Bcrypt) (begins : Begins env) (s : AccountsServer) where
  -- If transactions can be begun, `Register` ends each that it begins, whatever fails.
  pub register-Balanced :
      (validate : RegisterRequest → Option Err) (r : RegisterRequest) (h : History)
      → Balanced h (register env bcrypt validate s r h).1
  unfolding register rolled_back publish commit_and_publish create_user new_event
  register-Balanced validate r h = ground (arith, begins h)

  change_password_handler-Balanced :
      (validate : ChangePasswordRequest → Option Err) (ctx : ContextClaims)
      (r : ChangePasswordRequest) (h : History)
      → Balanced h (change_password_handler env bcrypt validate s ctx r h).1
  unfolding change_password_handler user_look_up rolled_back publish commit_and_publish
      change_password new_event
  change_password_handler-Balanced validate ctx r h =
      ground (arith, begins (query (select_user (by_username r.username)) ∷ h))

-- The database's answer says that a row exists already.
abbrev pub is_duplicate : Env → Err → Bool
is_duplicate env e = not (is_no_rows e) && contains (env.error_text e) "duplicate"

module _ (env : Env) (lib : ErrorLib) where
  with_stack-code :
      (c : Code) (message : String)
      → lib.code_of (lib.cause (with_stack (status c message))) ≡ some c
  with_stack-code c message =
      ap lib.code_of (lib.cause-with_stack (status c message) ∙ lib.cause-status c message)
      ∙ lib.code_of-status c message

  already_exists_iff :
      (e : Err)
      → has_code is_already_exists (lib.code_of (lib.cause (handle_db_error env e)))
        ≡ is_duplicate env e
  unfolding handle_db_error
  already_exists_iff e = elim (Bool-cases (is_no_rows e)) [
    | inl p ↦ ground (arith, p, with_stack-code not_found (env.error_text e))
    | inr p ↦ elim (Bool-cases (contains (env.error_text e) "duplicate")) [
      | inl q ↦ ground (arith, p, q, with_stack-code already_exists (env.error_text e))
      | inr q ↦ ground (arith, p, q, with_stack-code internal (env.error_text e))
    ]
  ]

  -- If transactions can be begun, and the database refuses a created node, the handler ends the
  -- transaction that it begins; if the node is refused because it exists, the handler rolls back and
  -- succeeds, and else it fails.
  store_node-refused :
      Begins env
      → (n : AccountNode) (h : History) (e : Err)
      → env.get_account_node (insert_account_node n) (begin ∷ h) ≡ err e
      → Balanced h (store_node env lib n h).1
        × (((is_duplicate env e ≡ true)
              × (store_node env lib n h
                  ≡ (ok tt, rollback ∷ query (insert_account_node n) ∷ begin ∷ h)))
            ⊎ ((is_duplicate env e ≡ false) × ((x : Err) × ((store_node env lib n h).0 ≡ err x))))
  unfolding store_node create_node rolled_back rollback_transaction
  store_node-refused begins n h e refused = (
    ground (arith, begins h),
    elim (Bool-cases (is_duplicate env e)) [
      | inl exists ↦ inl (exists, ground (arith, begins h, refused, already_exists_iff e ∙ exists))
      | inr other ↦
          inr (other, (failure, ground (arith, begins h, refused, already_exists_iff e ∙ other)))
    ],
  )
    where
      failure : Err
      failure =
          rollback_error env (wrap (handle_db_error env e) "node.Create failed")
            (env.on_rollback (query (insert_account_node n) ∷ begin ∷ h))

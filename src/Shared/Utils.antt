-- ===== src/Shared/Utils.antt =====
-- shared/utils/utils.go: errors of the database, and the end of a transaction.
use Prim.Native.String.{String, ◌++◌}
use text.Mathlib.Text.{find?}
use scalemate.Prelude.{
  ◌⊎◌, inl, inr, suc, ◌≡◌, Bool, true, false, List, [], ◌∷◌, Option, none, some, arith,
  if◌then◌else◌,
}
use scalemate.Proto.{Event}
use scalemate.World.{
  Result-cases, Err, status, wrap, with_stack, no_rows, not_found, already_exists, internal, Result,
  ok, err, Env, Action, History, commit, rollback, send, attempt, ◌wrapped◌, ◌catch◌, ◌>>◌, return,
  fail, begun, ended,
}

-- `strings.Contains`
abbrev pub contains : String → String → Bool
contains s part = elim (find? s part) [ none ↦ false | some _ ↦ true ]

abbrev pub is_no_rows : Err → Bool
is_no_rows no_rows = true
is_no_rows _ = false

-- `HandleDBError` of an error that is not nil.
unfoldable pub handle_db_error : Env → Err → Err
handle_db_error env e =
    let text = env.error_text e in
    if is_no_rows e
    then with_stack (status not_found text)
    else if contains text "duplicate"
    then with_stack (status already_exists text)
    else with_stack (status internal text)

-- `HandleDBError` round a call.
abbrev pub handled {ℓ} : {A : Type ℓ} → Env → Action A → Action A
handled env m = m catch λ e. fail (handle_db_error env e)

-- The error that is returned with a preceding error, when the rollback answers so.
abbrev pub rollback_error : Env → Err → Option Err → Err
rollback_error env preceding none = preceding
rollback_error env preceding (some e) =
    wrap preceding ("failed to rollback transaction: " ++ env.error_text (handle_db_error env e))

-- `RollbackTransaction`. `errors.Wrapf` of a nil error is nil.
unfoldable pub rollback_transaction : Env → Option Err → Action (Unit {0})
rollback_transaction env none h = (ok tt, rollback ∷ h)
rollback_transaction env (some preceding) h =
    (err (rollback_error env preceding (env.on_rollback h)), rollback ∷ h)

-- `return nil, RollbackTransaction(tx, err)` for an error that is not nil.
unfoldable pub rolled_back {ℓ} : {A : Type ℓ} → Env → Err → Action A
rolled_back env preceding h = (err (rollback_error env preceding (env.on_rollback h)), rollback ∷ h)

-- The first half of `CommitAndPublish`.
unfoldable pub publish : Env → List Event → Action (Unit {0})
unfolding rolled_back
publish env [] = return tt
publish env (e ∷ es) = attempt (send (e ∷ es)) (env.on_send (e ∷ es)) catch λ x.
    rolled_back env (wrap x "producer.Send failed")

unfoldable pub commit_and_publish : Env → List Event → Action (Unit {0})
unfolding publish
commit_and_publish env events =
    publish env events
    >> handled env (attempt commit env.on_commit) wrapped "failed to commit transaction"

abbrev pub is_ok {ℓ} : {A : Type ℓ} → Result A → Bool
is_ok (ok a) = true
is_ok (err e) = false

-- The events as one call, if there are any.
abbrev pub sent : List Event → History → History
sent [] h = h
sent (e ∷ es) h = send (e ∷ es) ∷ h

module _ (env : Env) where
  -- In every environment `CommitAndPublish` ends the transaction exactly once and begins none. If it
  -- returns no error then the events, if any, were sent and the commit followed.
  commit_and_publish-ends :
      (events : List Event) (h : History)
      → (ended (commit_and_publish env events h).1 ≡ suc (ended h))
        × (begun (commit_and_publish env events h).1 ≡ begun h)
        × (((e : Err) × ((commit_and_publish env events h).0 ≡ err e))
            ⊎ ((commit_and_publish env events h).1 ≡ commit ∷ sent events h))
  unfolding commit_and_publish rolled_back
  commit_and_publish-ends [] h = (
    ground arith,
    ground arith,
    elim (Result-cases (commit_and_publish env [] h).0) [
      | inl (e, eq) ↦ inl (e, eq)
      | inr (done, eq) ↦ inr (ground (arith, eq))
    ],
  )
  commit_and_publish-ends (e ∷ es) h = (
    ground arith,
    ground arith,
    elim (Result-cases (commit_and_publish env (e ∷ es) h).0) [
      | inl (x, eq) ↦ inl (x, eq)
      | inr (done, eq) ↦ inr (ground (arith, eq))
    ],
  )

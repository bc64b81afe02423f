-- ===== src/Shared/Middleware.antt =====
-- shared/middleware/errors.go: what becomes of the error of a request, and when it is logged.
use Prim.Native.String.{String}
use scalemate.Prelude.{
  ℕ, ◌≡◌, refl, Bool, true, false, List, [], ◌∷◌, Option, none, some, if◌then◌else◌, ltb,
}
use scalemate.World.{
  Err, status, Code, ok_code, unknown_code, internal, deadline_exceeded, data_loss,
  failed_precondition, aborted, out_of_range, resource_exhausted, unavailable, unimplemented,
  permission_denied,
}

-- An error as a chain: a root that has no `Cause`, and the errors round it that have one. Each may
-- have a stack trace, of some number of frames.
pub data ErrorChain : Type 0 where
  root : Err → Option ℕ → ErrorChain
  wrapper : Option ℕ → ErrorChain → ErrorChain

-- The loop of `wrapperAndCause` and its answer: the stack of the innermost wrapper, if there is a
-- wrapper with one, and the root with its stack.
unfoldable pub wrapper_and_cause : Option ℕ → ErrorChain → Option ℕ × Err × Option ℕ
wrapper_and_cause outer (root e stack) = (outer, e, stack)
wrapper_and_cause outer (wrapper stack inner) = wrapper_and_cause stack inner

-- `firstErrorWithStack` of the root and its wrapper.
abbrev pub first_error_with_stack : Option ℕ → Option ℕ → Option ℕ
first_error_with_stack (some frames) other = some frames
first_error_with_stack none other = other

-- `status.FromError` of grpc: an error that is no status is an unknown one with its text.
abbrev pub status_from_error : (Err → String) → Err → Code × String
status_from_error text (status c message) = (c, message)
status_from_error text e = (unknown_code, text e)

abbrev pub is_ok_code : Code → Bool
is_ok_code ok_code = true
is_ok_code _ = false

-- `Status.Err`: nil for the code OK.
abbrev pub status_error : Code × String → Option Err
status_error (c, message) = if is_ok_code c then none else some (status c message)

-- What the interceptor logs: nothing, one entry, or it panics, as the stack has fewer than the five
-- frames that it takes.
pub data Logging : Type 0 where
  logs_nothing logs_entry panics : Logging

abbrev pub log_stack : Bool → Option ℕ → Logging
log_stack log_all (some frames) = if ltb frames 5 then panics else logs_entry
log_stack log_all none = if log_all then logs_entry else logs_nothing

-- The loop over the codes that are logged; `same_code` compares codes. It stops at the first that is
-- the code of the error.
unfoldable pub log_error : (Code → Code → Bool) → Bool → List Code → Code → Option ℕ → Logging
log_error same_code log_all [] code stack = logs_nothing
log_error same_code log_all (c ∷ codes) code stack =
    let rest = log_error same_code log_all codes code stack in
    if same_code code c then log_stack log_all stack else rest

-- The codes of `LoggedErrorCodes`, for the accounts service and for the scheduler.
abbrev accounts_logged_codes : List Code
accounts_logged_codes =
    unknown_code ∷ internal ∷ deadline_exceeded ∷ data_loss ∷ failed_precondition ∷ aborted
    ∷ out_of_range ∷ resource_exhausted ∷ unavailable ∷ unimplemented ∷ permission_denied ∷ []

abbrev scheduler_logged_codes : List Code
scheduler_logged_codes =
    unknown_code ∷ internal ∷ deadline_exceeded ∷ data_loss ∷ failed_precondition ∷ aborted
    ∷ out_of_range ∷ resource_exhausted ∷ unavailable ∷ unimplemented ∷ permission_denied ∷ []

-- `StackTraceErrorInterceptor` round a handler that has answered: what it logs and the error that it
-- returns.
unfoldable pub intercept :
    (Err → String)
    → (Code → Code → Bool)
    → Bool
    → List Code
    → Option ErrorChain
    → Logging × Option Err
intercept text same_code log_all codes none = (logs_nothing, none)
intercept text same_code log_all codes (some e) =
    let (outer, cause, stack) = wrapper_and_cause none e in
    let found = status_from_error text cause in
    (
      log_error same_code log_all codes found.0 (first_error_with_stack stack outer),
      status_error found,
    )

-- The root of a chain, and the stacks of the root and of its wrapper.
root_of : ErrorChain → Err
root_of (root e stack) = e
root_of (wrapper stack inner) = root_of inner

wrapper_and_cause-root_of :
    (outer : Option ℕ) (e : ErrorChain) → (wrapper_and_cause outer e).1 ≡ root_of e
unfolding wrapper_and_cause root_of
wrapper_and_cause-root_of outer (root e stack) = refl
wrapper_and_cause-root_of outer (wrapper stack inner) = wrapper_and_cause-root_of stack inner

-- The error of a request is the status of the root of the chain, however it was wrapped on the way,
-- and whatever is logged: the texts of the wrappers are not sent to the client.
intercept-root_of :
    (text : Err → String) (same_code : Code → Code → Bool) (log_all : Bool) (codes : List Code)
    (e : ErrorChain)
    → (intercept text same_code log_all codes (some e)).1
      ≡ status_error (status_from_error text (root_of e))
unfolding intercept
intercept-root_of text same_code log_all codes e = rw (wrapper_and_cause-root_of none e) refl

-- ===== src/Client/Commands/Iterating.antt =====
-- client/cmd/tasks.go and client/scheduler/views.go: what the client shows of an answer, and the loop
-- of `scalemate tasks iter` over what its stream gives.
use Prim.Native.String.{String, ◌++◌}
use scalemate.Prelude.{
  suc, ◌≡◌, refl, Bool, true, false, List, [], ◌∷◌, none, some, Option, length, ap,
}
use scalemate.World.{Err, Result, ok, err}
use scalemate.Client.Controllers.{GrpcErrorMessages, error_view}
use scalemate.Client.Commands.Accounts.{Terminal, no_messages, invalid_parameters, denied}

-- The messages of `JSONPbView`.
abbrev pub scheduler_messages : GrpcErrorMessages
scheduler_messages = record no_messages {
  on_invalid_argument = some invalid_parameters;
  on_permission_denied = some denied;
  on_unauthenticated = some (λ message. "unauthenticated: " ++ message);
}

-- What the standard output and the log get.
pub data Shown (A : Type 0) : Type 0 where
  shows_json : A → Shown A
  shows_error : String → Shown A

-- What `Recv` returns.
pub data Received (A : Type 0) : Type 0 where
  received : A → Received A
  end_of_stream : Received A
  receive_error : Err → Received A

module _ {A : Type 0} (t : Terminal) (marshal : A → Option Err) where
  abbrev marshalled : A → Option Err → Shown A
  marshalled a none = shows_json a
  marshalled a (some e) = shows_error "failed to marshal protobuf message to JSON"

  -- `JSONPbView`
  unfoldable pub json_pb_view : Result A → Shown A
  json_pb_view (ok a) = marshalled a (marshal a)
  json_pb_view (err e) =
      shows_error (error_view scheduler_messages (t.error_text e) (t.status_from e))

  -- The loop of `tasksIterateCmd`: what it shows, and whether it ended.
  unfoldable pub show_received : List (Received A) → List (Shown A) × Bool
  show_received [] = ([], false)
  show_received (end_of_stream ∷ rest) = ([], true)
  show_received (received a ∷ rest) =
      (json_pb_view (ok a) ∷ (show_received rest).0, (show_received rest).1)
  show_received (receive_error e ∷ rest) =
      (json_pb_view (err e) ∷ (show_received rest).0, (show_received rest).1)

  -- The end of the command: a controller that fails gives no client, whose method `Recv` panics.
  unfoldable pub iterate_result : Result (List (Received A)) → Option (List (Shown A) × Bool)
  iterate_result (err e) = none
  iterate_result (ok stream) = some (show_received stream)

  -- No item of the stream is its end.
  abbrev pub HasNoEnd : List (Received A) → Type 0
  HasNoEnd [] = Unit
  HasNoEnd (end_of_stream ∷ rest) = ⊥
  HasNoEnd (received _ ∷ rest) = HasNoEnd rest
  HasNoEnd (receive_error _ ∷ rest) = HasNoEnd rest

  -- The loop of `tasks iter` goes on as long as the stream does not end: it then shows one line for
  -- each thing that it receives, also for each error, and has not ended.
  pub show_received-unended :
      (stream : List (Received A))
      → HasNoEnd stream
      → ((show_received stream).1 ≡ false) × (length (show_received stream).0 ≡ length stream)
  unfolding show_received
  show_received-unended [] no_end = (refl, refl)
  show_received-unended (end_of_stream ∷ rest) no_end = absurd no_end
  show_received-unended (received a ∷ rest) no_end =
      let (p, q) = show_received-unended rest no_end in (p, ap suc q)
  show_received-unended (receive_error e ∷ rest) no_end =
      let (p, q) = show_received-unended rest no_end in (p, ap suc q)

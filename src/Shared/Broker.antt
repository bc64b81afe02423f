-- ===== src/Shared/Broker.antt =====
-- shared/events/producer.go and shared/events/consumer.go: publishing events to NATS Streaming and
-- handling the messages that it delivers. Serialisation is protobuf's and the connection is stan's:
-- the definitions take both.
use Prim.Native.String.{String, ◌++◌}
use scalemate.Prelude.{ℕ, Bool, true, false, List, [], ◌∷◌, ◌++◌ as ◌+++◌, Option, none, some}
use scalemate.Proto.{Event}
use scalemate.World.{Err, fundamental, wrap, Result, ok, err}

abbrev pub Message : Type 0
Message = List ℕ

-- `ErrNoEvents`
abbrev pub no_events : Err
no_events = fundamental "no events"

-- `FakeProducer.Send` appends to the events that were sent.
unfoldable pub fake_send : List Event → List Event → List Event
fake_send sent events = sent +++ events

-- The error of a publication and the messages that were published, in their order.
abbrev pub Published : Type 0
Published = Option Err × List Message

-- `publish` is `conn.Publish`, which may go by what was published before.
module _ (publish : List Message → Message → Option Err) where
  -- The second loop of `Send`; `sent` are the messages published before.
  unfoldable pub publish_all : List Message → List Message → Published
  publish_all sent [] = (none, sent)
  publish_all sent (m ∷ ms) =
      let rest = publish_all (sent +++ m ∷ []) ms in
      elim (publish sent m) [
        | some e ↦ (some (wrap e "NatsProducer.conn.Publish failed"), sent)
        | none ↦ rest
      ]

  unfoldable pub send_messages : Result (List Message) → Published
  send_messages (err e) = (some e, [])
  send_messages (ok messages) = publish_all [] messages

-- `event_text` is `event.String()`.
module _ (event_text : Event → String) (marshal : Event → Result Message) where
  -- The first loop of `Send`.
  unfoldable pub marshal_all : List Event → Result (List Message)
  marshal_all [] = ok []
  marshal_all (e ∷ es) = elim (marshal e) [
    | err x ↦ err (wrap x ("proto.Marshal failed for event " ++ event_text e))
    | ok m ↦ elim (marshal_all es) [ err x ↦ err x | ok ms ↦ ok (m ∷ ms) ]
  ]

  -- `NatsProducer.Send`
  unfoldable pub nats_send : (List Message → Message → Option Err) → List Event → Published
  unfolding send_messages
  nats_send publish [] = (some no_events, [])
  nats_send publish (e ∷ es) = send_messages publish (marshal_all (e ∷ es))

-- A handler may change what it works on.
abbrev pub Handler : Type 0 → Type 0
Handler W = Event → W → Option Err × W

-- What a message does: the errors sent to the channel, whether `msg.Ack()` is called, and the world
-- afterwards.
pub record Handled (W : Type 0) : Type 0 where
  pub errors : List Err
  pub acknowledged : Bool
  pub world : W

module _ {W : Type 0} where
  -- The loop over the handlers, up to the first that fails.
  unfoldable pub run_handlers : List (Handler W) → Event → W → Option Err × W
  run_handlers [] event w = (none, w)
  run_handlers (handler ∷ handlers) event w =
      let (error, w') = handler event w in
      let rest = run_handlers handlers event w' in
      elim error [ some e ↦ (some (wrap e "handler.Handle failed"), w') | none ↦ rest ]

module _ {W : Type 0} (unmarshal : Message → Result Event) (ack : Option Err) where
  -- `msg.Ack()`, whose error goes to the channel.
  unfoldable pub acknowledge : W → Handled W
  acknowledge w = elim ack [
    | none ↦ record { errors = []; acknowledged = true; world = w }
    | some e ↦ record {
      errors = wrap e "failed to acknowledge a message" ∷ [];
      acknowledged = true;
      world = w;
    }
  ]

  -- What follows the loop over the handlers.
  unfoldable pub finish_message : Option Err × W → Handled W
  unfolding acknowledge
  finish_message (some e, w) = record { errors = e ∷ []; acknowledged = false; world = w }
  finish_message (none, w) = acknowledge w

  -- The function that `createStanMsgHandler` returns.
  unfoldable pub handle_message : List (Handler W) → Message → W → Handled W
  handle_message handlers message w = elim (unmarshal message) [
    | err e ↦ record {
      errors = wrap e "proto.Unmarshal failed" ∷ [];
      acknowledged = false;
      world = w;
    }
    | ok event ↦ finish_message (run_handlers handlers event w)
  ]

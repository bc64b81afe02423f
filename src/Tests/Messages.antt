-- ===== src/Tests/Messages.antt =====
-- Messages, transactions and tokens of the shared code.
use Prim.Native.String.{String}
use scalemate.Prelude.{
  ℕ, suc, ◌≡◌, refl, ◌↔◌, true, List, [], ◌∷◌, ◌++◌ as ◌+++◌, Option, none, some,
}
use scalemate.Proto.{Event, EventType, Service, accounts_user}
use scalemate.World.{Err, fundamental, Result, ok}
use scalemate.Shared.Broker.{Message, Handler, handle_message}
use scalemate.Shared.Delivery.{Succeed, handle_message-acknowledged}
use scalemate.Shared.Auth.{access, has_claims, inject_claims}
use scalemate.Tests.Fixture.{jwt, ann, claims_of}

abbrev test_event : Event
test_event = record {
  uuid = 1 ∷ [];
  event_type = EventType.created;
  service = Service.accounts;
  payload = accounts_user ann.user;
  payload_mask = none;
  created_at = 0;
}

abbrev text : Event → String
text e = "event"

abbrev marshal : Event → Result Message
marshal e = ok e.uuid

-- The connection breaks after the first message.
abbrev publish_once : List Message → Message → Option Err
publish_once [] m = none
publish_once (_ ∷ _) m = some (fundamental "broken")

-- A handler that counts.
abbrev count_event : Handler ℕ
count_event e n = (none, suc n)

abbrev unmarshal : Message → Result Event
unmarshal m = ok test_event

handle_message-acknowledged_example :
    (handle_message unmarshal none (count_event ∷ count_event ∷ []) (1 ∷ []) 0).acknowledged ≡ true
    ↔ ((event : Event) × (unmarshal (1 ∷ []) ≡ ok event)
        × Succeed event
            (count_event ∷ count_event ∷ [])
            0
            (handle_message unmarshal none (count_event ∷ count_event ∷ []) (1 ∷ []) 0).world)
handle_message-acknowledged_example =
    handle_message-acknowledged unmarshal none (count_event ∷ count_event ∷ []) (1 ∷ []) 0

abbrev key : List ℕ
key = 2 ∷ []

abbrev error_text : Err → String
error_text e = "error"

injected :
    inject_claims jwt error_text key 105 (ok "access") ≡ ok (has_claims (claims_of 10 access))
unfolding inject_claims
injected = refl

-- ===== src/Shared/Events.antt =====
-- shared/events/utils.go: the events that the services publish and the keys that name them.
use Prim.Native.String.{String, ◌++◌}
use scalemate.Prelude.{ℕ, zero, suc, ◌/◌, ◌%◌, List, ◌∷◌, Option, if◌then◌else◌, ◌==◌}
use scalemate.Proto.{
  Event, EventType, created, updated, deleted, Service, Payload, accounts_user, scheduler_container,
  scheduler_node,
}
use scalemate.World.{Env, Action, new_uuid, now, ok}

-- `NewEvent`: a fresh UUID, the time, and the payload. A payload of another type, on which the
-- source panics, is no `Payload`.
unfoldable pub new_event : Env → Payload → EventType → Service → Option (List String) → Action Event
new_event env payload event_type service field_mask h =
    let uuid = env.uuid h in
    let time = env.time (new_uuid ∷ h) in
    (
      ok (record {
        uuid = uuid;
        event_type = event_type;
        service = service;
        payload = payload;
        payload_mask = field_mask;
        created_at = time;
      }),
      now ∷ new_uuid ∷ h,
    )

-- `Event_Type.String()`
abbrev pub event_type_name : EventType → String
event_type_name EventType.unknown = "UNKNOWN"
event_type_name created = "CREATED"
event_type_name updated = "UPDATED"
event_type_name deleted = "DELETED"

abbrev digit : ℕ → String
digit zero = "0"
digit (suc zero) = "1"
digit (suc (suc zero)) = "2"
digit (suc (suc (suc zero))) = "3"
digit (suc (suc (suc (suc zero)))) = "4"
digit (suc (suc (suc (suc (suc zero))))) = "5"
digit (suc (suc (suc (suc (suc (suc zero)))))) = "6"
digit (suc (suc (suc (suc (suc (suc (suc zero))))))) = "7"
digit (suc (suc (suc (suc (suc (suc (suc (suc zero)))))))) = "8"
digit (suc (suc (suc (suc (suc (suc (suc (suc (suc _))))))))) = "9"

-- `%d`, on fuel: a number has fewer digits than its value and one.
unfoldable pub decimal_from : ℕ → ℕ → String
decimal_from zero n = ""
decimal_from (suc fuel) n =
    let more = decimal_from fuel (n / 10) in if n / 10 == 0 then digit n else more ++ digit (n % 10)

abbrev pub decimal : ℕ → String
decimal n = decimal_from (suc n) n

-- `key`, with the identifier behind a dot where there is one.
abbrev pub with_id : String → ℕ → String
with_id key id = if id == 0 then key else key ++ "." ++ decimal id

unfoldable pub key_for_payload : EventType → Payload → String
unfolding decimal_from
key_for_payload t (scheduler_node n) = with_id ("scheduler.node." ++ event_type_name t) n.id
key_for_payload t (scheduler_container c) =
    with_id ("scheduler.container." ++ event_type_name t) c.id
key_for_payload t (accounts_user u) = with_id ("accounts.user." ++ event_type_name t) u.id

-- `KeyForEvent`
unfoldable pub key_for_event : Event → String
unfolding key_for_payload
key_for_event event = key_for_payload event.event_type event.payload

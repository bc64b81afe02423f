-- ===== src/Tests/Saved.antt =====
-- Nodes and containers that are saved with their labels.
use scalemate.Prelude.{◌≡◌, refl, [], ◌∷◌, none}
use scalemate.Proto.{
  Node, Container, Event, EventType, Payload, Service, scheduler_node, scheduler_container, pending,
}
use scalemate.World.{History, query, new_uuid, now, ok, insert_node, insert_container}
use scalemate.Shared.Events.{new_event}
use scalemate.Scheduler.Container.{
  zero_container, to_proto, insert_columns, create_label, create_labels, create,
}
use scalemate.Scheduler.Nodes.{
  zero_node, node_to_proto, insert_node_columns, create_node_label, create_node_labels, create_node,
}
use scalemate.Scheduler.Saved.{node_label_calls, container_label_calls}
use scalemate.Tests.Fixture.{test_env, masks, node_masks}

abbrev event_of : Payload → Event
event_of payload = record {
  uuid = 9 ∷ [];
  event_type = EventType.created;
  service = Service.scheduler;
  payload = payload;
  payload_mask = none;
  created_at = 100;
}

abbrev box : Node
box = record zero_node { username = "ann"; name = "box"; labels = "fast" ∷ "quiet" ∷ [] }

abbrev saved_box : Node
saved_box = record zero_node { id = 4; labels = "fast" ∷ "quiet" ∷ [] }

abbrev box_calls : History
box_calls =
    now
    ∷ new_uuid
    ∷ node_label_calls 4 ("fast" ∷ "quiet" ∷ [])
        (query (insert_node (insert_node_columns box)) ∷ [])

box_created :
    create_node test_env node_masks box []
    ≡ (ok (saved_box, event_of (scheduler_node saved_box)), box_calls)
unfolding create_node node_to_proto new_event create_node_labels create_node_label
box_created = refl

abbrev job : Container
job = record zero_container { username = "ann"; labels = "fast" ∷ [] }

abbrev saved_job : Container
saved_job = record zero_container { id = 7; status = pending; labels = "fast" ∷ [] }

abbrev job_calls : History
job_calls =
    now
    ∷ new_uuid
    ∷ container_label_calls 7 ("fast" ∷ []) (query (insert_container (insert_columns job)) ∷ [])

job_created :
    create test_env masks job []
    ≡ (ok (saved_job, event_of (scheduler_container saved_job)), job_calls)
unfolding create to_proto new_event create_labels create_label
job_created = refl

-- ===== src/Scheduler/Nodes.antt =====
-- scheduler/models/node.go and scheduler/models/processed_event.go: nodes in the database, their
-- labels, and the events that a handler has processed.
use Prim.Native.String.{String}
use scalemate.Prelude.{
  ℕ, Bool, List, [], ◌∷◌, ◌++◌ as ◌+++◌, Option, none, some, ◌==◌, if◌then◌else◌, ltb,
}
use scalemate.Proto.{
  Node, NodeStatus, offline, online, shutting_down, Event, created, scheduler, scheduler_node,
}
use scalemate.World.{
  Err, status, with_stack, wrap, failed_precondition, Result, ok, err, Value, text, number, bytes,
  Env, Action, query, select_node, insert_node, select_node_labels, insert_node_label,
  insert_processed_event, count_processed_events, perform, attempt, return, fail, lift, ◌>>=◌, ◌>>◌,
  ◌catch◌, ◌wrapped◌,
}
use scalemate.Shared.Utils.{handled}
use scalemate.Shared.Events.{new_event}
use scalemate.Scheduler.Container.{scan_labels}

abbrev pub node_status_number : NodeStatus → ℕ
node_status_number offline = 0
node_status_number online = 1
node_status_number shutting_down = 2

abbrev pub zero_node : Node
zero_node = record {
  id = 0;
  username = "";
  name = "";
  status = offline;
  cpu_capacity = 0;
  cpu_available = 0;
  cpu_class = 0;
  memory_capacity = 0;
  memory_available = 0;
  gpu_capacity = 0;
  gpu_available = 0;
  gpu_class = 0;
  disk_capacity = 0;
  disk_available = 0;
  disk_class = 0;
  network_ingress_capacity = 0;
  network_egress_capacity = 0;
  labels = [];
  containers_finished = 0;
  containers_failed = 0;
  connected_at = none;
  disconnected_at = none;
  last_scheduled_at = none;
  created_at = 0;
  updated_at = none;
  ip = none;
  fingerprint = [];
}

-- fieldmask-utils for nodes.
pub record NodeMasks : Type 0 where
  pub mask_from_paths : List String → Option Err
  pub struct_to_struct : List String → Node → Node → Result Node

-- `Node.ToProto`; a nil mask is no paths.
unfoldable pub node_to_proto : NodeMasks → Node → List String → Result Node
node_to_proto masks n [] = ok n
node_to_proto masks n (path ∷ paths) = elim (masks.mask_from_paths (path ∷ paths)) [
  | some e ↦ err (wrap e "fieldmask_utils.MaskFromProtoFieldMask failed")
  | none ↦ elim (masks.struct_to_struct (path ∷ paths) n (record zero_node { id = n.id })) [
    | err e ↦ err (wrap e "fieldmask_utils.StructToStruct failed")
    | ok filtered ↦ ok filtered
  ]
]

-- `NodeLabel.Create`
unfoldable pub create_node_label : Env → ℕ → String → Action (Unit {0})
create_node_label env node_id label =
    handled env (
      attempt (query (insert_node_label node_id label))
        (env.exec (insert_node_label node_id label)))

unfoldable pub create_node_labels : Env → ℕ → List String → Action (Unit {0})
create_node_labels env node_id [] = return tt
create_node_labels env node_id (label ∷ labels) =
    (create_node_label env node_id label wrapped "nodeLabel.Create failed")
    >> create_node_labels env node_id labels

abbrev pub optional_column : String → Option ℕ → List (String × Value)
optional_column name none = []
optional_column name (some n) = (name, number n) ∷ []

-- The columns of the INSERT. The nullable ones are given only where they have a value.
unfoldable pub insert_node_columns : Node → List (String × Value)
insert_node_columns n =
    ("username", text n.username)
      ∷ ("name", text n.name)
      ∷ ("status", number (node_status_number n.status))
      ∷ ("cpu_capacity", number n.cpu_capacity)
      ∷ ("cpu_available", number n.cpu_available)
      ∷ ("cpu_class", number n.cpu_class)
      ∷ ("memory_capacity", number n.memory_capacity)
      ∷ ("memory_available", number n.memory_available)
      ∷ ("gpu_capacity", number n.gpu_capacity)
      ∷ ("gpu_available", number n.gpu_available)
      ∷ ("gpu_class", number n.gpu_class)
      ∷ ("disk_capacity", number n.disk_capacity)
      ∷ ("disk_available", number n.disk_available)
      ∷ ("disk_class", number n.disk_class)
      ∷ ("network_ingress_capacity", number n.network_ingress_capacity)
      ∷ ("network_egress_capacity", number n.network_egress_capacity)
      ∷ ("containers_finished", number n.containers_finished)
      ∷ ("containers_failed", number n.containers_failed)
      ∷ ("fingerprint", bytes n.fingerprint)
      ∷ optional_column "connected_at" n.connected_at
    +++ optional_column "disconnected_at" n.disconnected_at
    +++ optional_column "last_scheduled_at" n.last_scheduled_at
    +++ elim n.ip [ none ↦ [] | some address ↦ ("ip", bytes address) ∷ [] ]

-- `Node.Create`: the node as the database returns it, with the labels of the struct, and the event.
unfoldable pub create_node : Env → NodeMasks → Node → Action (Node × Event)
create_node env masks n = do
  let q = insert_node (insert_node_columns n)
  row ← handled env (perform (query q) (env.get_node q))
  let saved = record row { labels = n.labels }
  create_node_labels env saved.id saved.labels
  proto ← lift (node_to_proto masks saved []) wrapped "node.ToProto failed"
  event ← new_event env (scheduler_node proto) created scheduler none
  return (saved, event)

unfoldable pub load_node_labels_from_db : Env → Node → Action Node
load_node_labels_from_db env n =
    let load = do
      rows ←
          handled env
            (perform (query (select_node_labels n.id)) (env.get_labels (select_node_labels n.id)))
      labels ← lift (scan_labels rows)
      return (record n { labels = labels })
    in if n.id == 0
      then fail (with_stack (status failed_precondition "Node is not saved in DB"))
      else load

-- `NewNodeFromDB`
unfoldable pub new_node_from_db : Env → ℕ → Bool → Action Node
new_node_from_db env node_id for_update = do
  let q = select_node node_id for_update
  node ← handled env (perform (query q) (env.get_node q))
  load_node_labels_from_db env node catch λ e. fail (with_stack e)

pub record ProcessedEvent : Type 0 where
  pub handler_name : String
  pub uuid : List ℕ

-- `NewProcessedEvent`
abbrev pub new_processed_event : String → Event → ProcessedEvent
new_processed_event handler_name event = record { handler_name = handler_name; uuid = event.uuid }

-- `ProcessedEvent.Create`
unfoldable pub create_processed_event : Env → ProcessedEvent → Action (Unit {0})
create_processed_event env e =
    let q = insert_processed_event e.handler_name e.uuid in
    handled env (attempt (query q) (env.exec q))

-- `ProcessedEvent.Exists`
unfoldable pub processed_event_exists : Env → ProcessedEvent → Action Bool
processed_event_exists env e =
    let q = count_processed_events e.handler_name e.uuid in
    handled env (perform (query q) (env.get_count q)) >>= λ count. return (ltb 0 count)

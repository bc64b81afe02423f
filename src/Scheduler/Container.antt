-- ===== src/Scheduler/Container.antt =====
-- scheduler/models/container.go: containers in the database, their statuses, and the events of
-- their changes. Copying the fields of a mask is the work of fieldmask-utils: a `Masks` that the
-- definitions take.
use Prim.Native.String.{String, ◌++◌}
use scalemate.Prelude.{
  ℕ, Bool, false, ◌||◌, List, [], ◌∷◌, ◌++◌ as ◌+++◌, map, Option, none, some, ◌==◌, if◌then◌else◌,
}
use scalemate.Proto.{
  Container, ContainerStatus, new, declined, pending, cancelled, scheduled, running, stopped,
  failed, Event, created, updated, scheduler, scheduler_container,
}
use scalemate.World.{
  Err, status, with_stack, wrap, failed_precondition, Result, ok, err, Value, text, number, bytes,
  Env, Action, query, select_container, insert_container, update_container, select_container_labels,
  insert_container_label, perform, attempt, return, fail, lift, ◌>>=◌, ◌>>◌, ◌catch◌, ◌wrapped◌,
}
use scalemate.Shared.Utils.{handled}
use scalemate.Shared.Events.{new_event}

-- The number of the status in the enum.
abbrev pub status_number : ContainerStatus → ℕ
status_number new = 0
status_number declined = 1
status_number pending = 2
status_number cancelled = 3
status_number scheduled = 4
status_number running = 5
status_number stopped = 6
status_number failed = 7

abbrev pub status_name : ContainerStatus → String
status_name new = "NEW"
status_name declined = "DECLINED"
status_name pending = "PENDING"
status_name cancelled = "CANCELLED"
status_name scheduled = "SCHEDULED"
status_name running = "RUNNING"
status_name stopped = "STOPPED"
status_name failed = "FAILED"

abbrev pub same_status : ContainerStatus → ContainerStatus → Bool
same_status s t = status_number s == status_number t

-- The message with every field at its zero value.
abbrev pub zero_container : Container
zero_container = record {
  id = 0;
  node_id = none;
  username = "";
  status = new;
  status_message = "";
  image = "";
  network_ingress_min = 0;
  network_egress_min = 0;
  cpu_class_min = 0;
  cpu_class_max = 0;
  gpu_class_min = 0;
  gpu_class_max = 0;
  disk_class_min = 0;
  disk_class_max = 0;
  created_at = 0;
  updated_at = none;
  labels = [];
  agent_auth_token = [];
}

-- `MaskFromPaths`, whose mask is its paths, and `StructToStruct` from one message to another.
pub record Masks : Type 0 where
  pub mask_from_paths : List String → Option Err
  pub struct_to_struct : List String → Container → Container → Result Container

-- `Container.ToProto`; a nil mask is no paths.
unfoldable pub to_proto : Masks → Container → List String → Result Container
to_proto masks c [] = ok c
to_proto masks c (path ∷ paths) = elim (masks.mask_from_paths (path ∷ paths)) [
  | some e ↦ err (wrap e "fieldmask_utils.MaskFromProtoFieldMask failed")
  | none ↦ elim (masks.struct_to_struct (path ∷ paths) c (record zero_container { id = c.id })) [
    | err e ↦ err (wrap e "fieldmask_utils.StructToStruct failed")
    | ok filtered ↦ ok filtered
  ]
]

-- The loop over the rows of labels.
unfoldable pub scan_labels : List (Result String) → Result (List String)
scan_labels [] = ok []
scan_labels (err e ∷ rows) = err (wrap e "rows.Scan failed")
scan_labels (ok label ∷ rows) = elim (scan_labels rows) [
  | err e ↦ err e
  | ok labels ↦ ok (label ∷ labels)
]

unfoldable pub load_labels_from_db : Env → Container → Action Container
unfolding scan_labels
load_labels_from_db env c =
    let load = do
      rows ← handled env (
          perform (query (select_container_labels c.id))
            (env.get_labels (select_container_labels c.id)))
      labels ← lift (scan_labels rows)
      return (record c { labels = labels })
    in if c.id == 0
      then fail (with_stack (status failed_precondition "Container is not saved in DB"))
      else load

unfoldable pub new_container_from_db : Env → ℕ → Bool → Action Container
unfolding load_labels_from_db
new_container_from_db env container_id for_update = do
  let q = select_container container_id for_update
  container ← handled env (perform (query q) (env.get_container q))
  load_labels_from_db env container catch λ e. fail (with_stack e)

abbrev pub class_column : String → ℕ → String × Value
class_column name class = (name, number class)

-- The columns of the INSERT. `id` and `node_id` are given only where they are set.
unfoldable pub insert_columns : Container → List (String × Value)
insert_columns c =
    ("username", text c.username)
      ∷ ("status", number (status_number c.status))
      ∷ ("status_message", text c.status_message)
      ∷ ("image", text c.image)
      ∷ ("agent_auth_token", bytes c.agent_auth_token)
      ∷ class_column "cpu_class_min" c.cpu_class_min
      ∷ class_column "cpu_class_max" c.cpu_class_max
      ∷ class_column "gpu_class_min" c.gpu_class_min
      ∷ class_column "gpu_class_max" c.gpu_class_max
      ∷ class_column "disk_class_min" c.disk_class_min
      ∷ class_column "disk_class_max" c.disk_class_max
      ∷ ("network_ingress_min", number c.network_ingress_min)
      ∷ ("network_egress_min", number c.network_egress_min)
      ∷ (if c.id == 0 then [] else ("id", number c.id) ∷ [])
    +++ elim c.node_id [ none ↦ [] | some n ↦ ("node_id", number n) ∷ [] ]

-- `ContainerLabel.Create`
unfoldable pub create_label : Env → ℕ → String → Action (Unit {0})
create_label env container_id label = handled env (
    attempt (query (insert_container_label container_id label))
      (env.exec (insert_container_label container_id label)))

unfoldable pub create_labels : Env → ℕ → List String → Action (Unit {0})
create_labels env container_id [] = return tt
create_labels env container_id (label ∷ labels) =
    (create_label env container_id label wrapped "containerLabel.Create failed")
    >> create_labels env container_id labels

-- `Container.Create`: the container as the database returns it, and the event. Labels are no column:
-- the row leaves those of the struct.
unfoldable pub create : Env → Masks → Container → Action (Container × Event)
unfolding to_proto new_event
create env masks c = do
  let q = insert_container (insert_columns c)
  row ← handled env (perform (query q) (env.get_container q))
  let saved = record row { labels = c.labels }
  create_labels env saved.id saved.labels
  proto ← lift (to_proto masks saved []) wrapped "container.ToProto failed"
  event ← new_event env (scheduler_container proto) created scheduler none
  return (saved, event)

-- `ContainerStatusTransitions`
unfoldable pub status_transitions : ContainerStatus → List ContainerStatus
status_transitions new = declined ∷ pending ∷ cancelled ∷ []
status_transitions declined = []
status_transitions pending = cancelled ∷ scheduled ∷ []
status_transitions cancelled = []
status_transitions scheduled = running ∷ failed ∷ []
status_transitions running = stopped ∷ []
status_transitions stopped = []
status_transitions failed = []

-- `Container.Update`. The keys of the updates are the paths of the event's mask,
-- here in their order, in the source in any order.
unfoldable pub update : Env → Masks → Container → List (String × Value) → Action (Container × Event)
update env masks c updates =
    let paths = map (λ u. u.0) updates in
    let store = do
      let q = update_container updates c.id
      row ← handled env (perform (query q) (env.get_container q))
      let saved = record row { labels = c.labels }
      proto ← lift (to_proto masks saved paths) wrapped "job.ToProto failed"
      event ← new_event env (scheduler_container proto) updated scheduler (some paths)
      return (saved, event)
    in if c.id == 0
      then fail (with_stack (status failed_precondition "can't update unsaved Container"))
      else store

abbrev pub one_of : ContainerStatus → List ContainerStatus → Bool
one_of s [] = false
one_of s (t ∷ ts) = same_status t s || one_of s ts

-- `Container.UpdateStatus`
unfoldable pub update_status :
    Env → Masks → Container → ContainerStatus → Action (Container × Event)
unfolding status_transitions
update_status env masks c new_status =
    if c.id == 0
    then fail (status failed_precondition "can't update status for an unsaved Container")
    else if one_of new_status (status_transitions c.status)
    then update env masks c (("status", number (status_number new_status)) ∷ [])
    else fail (
        status failed_precondition (
          "container with status "
          ++ status_name c.status
          ++ " can't be updated to "
          ++ status_name new_status))

unfoldable pub is_terminated : Container → Bool
is_terminated c =
    same_status c.status stopped
    || same_status c.status failed
    || same_status c.status cancelled
    || same_status c.status declined

-- ===== src/Scheduler/Handlers.antt =====
-- scheduler/handlers/*.go: what the scheduler does with the events of jobs, tasks and nodes. Each
-- handler goes on only if it has not processed the event before, and records the event in the
-- transaction in which it changes the database.
pub mod Balanced
pub mod Processed
pub mod Again
use Prim.Native.String.{String}
use scalemate.Prelude.{
  ℕ, Bool, true, false, ◌||◌, ◌&&◌, List, [], ◌∷◌, Option, none, some, if◌then◌else◌, same_text,
}
use scalemate.Proto.{Node, NodeStatus, online, offline, shutting_down, Event, EventType, updated}
use scalemate.World.{
  has_code, Env, Err, wrap, Result, ok, err, Action, Code, not_found, ErrorLib, begin,
  perform_plain, return, lift, ◌>>=◌, ◌>>◌, ◌catch◌, ◌wrapped◌, next, recover, History,
}
use scalemate.Shared.Utils.{rolled_back, rollback_transaction}
use scalemate.Scheduler.Nodes.{ProcessedEvent, create_processed_event, processed_event_exists}
use scalemate.Scheduler.Models.{
  Models, JobStatus, pending, finished, TaskStatus, node_failed, NodeValue, expression,
}

-- `in`
unfoldable pub in_list : String → List String → Bool
in_list what [] = false
in_list what (s ∷ where_) = same_text what s || in_list what where_

-- The nil mask has no paths.
abbrev pub in_mask : String → Option (List String) → Bool
in_mask what none = false
in_mask what (some paths) = in_list what paths

abbrev pub is_updated : EventType → Bool
is_updated updated = true
is_updated _ = false

abbrev pub is_online : NodeStatus → Bool
is_online online = true
is_online _ = false

abbrev pub is_offline : NodeStatus → Bool
is_offline offline = true
is_offline _ = false

abbrev pub is_pending : JobStatus → Bool
is_pending pending = true
is_pending _ = false

abbrev pub is_node_failed : TaskStatus → Bool
is_node_failed node_failed = true
is_node_failed _ = false

abbrev pub is_not_found : Code → Bool
is_not_found not_found = true
is_not_found _ = false

-- A map entry that is set.
unfoldable pub set_update :
    String → NodeValue → List (String × NodeValue) → List (String × NodeValue)
set_update key v [] = (key, v) ∷ []
set_update key v ((k, w) ∷ updates) =
    let rest = set_update key v updates in
    if same_text k key then (key, v) ∷ updates else (k, w) ∷ rest

-- An error in a transaction: a rollback, which returns the wrapped error.
abbrev pub or_rollback {ℓ} : {A : Type ℓ} → Env → Action A → String → Action A
or_rollback env m message = m catch λ e. rolled_back env (wrap e message)

-- gorm's `Begin` returns no error.
abbrev pub begin_transaction : Action (Unit {0})
begin_transaction = perform_plain begin (λ h. tt)

module _ (env : Env) (lib : ErrorLib) (models : Models) (handler_name : String) where
  open models use {JobProto, TaskProto, Job, Task, NodeModel}

  -- The rest of a handler, unless the event is processed already.
  unfoldable pub unless_processed : ProcessedEvent → Action (Unit {0}) → Action (Unit {0})
  unless_processed e rest = do
    exists ← processed_event_exists env e wrapped "processedEvent.Exists failed"
    if exists then return tt else rest

  -- The end of a handler: the event is recorded, then the changes are committed and published.
  unfoldable pub record_and_commit : ProcessedEvent → String → List Event → Action (Unit {0})
  record_and_commit e message events =
      or_rollback env (create_processed_event env e) "processedEvent.Create failed"
      >> models.commit_and_publish events wrapped message

  -- What `JobUpdatedHandler` does with the nodes for the job.
  unfoldable pub no_node : Err → Action (Unit {0})
  no_node e =
      if has_code is_not_found (lib.code_of (lib.cause e))
      then rollback_transaction env none
      else rolled_back env (wrap e "job.NodesAvailable failed")

  unfoldable pub schedule_on :
      ProcessedEvent → Job → Result NodeModel × History → Result (Unit {0}) × History
  schedule_on e job (err x, h) = no_node x h
  schedule_on e job (ok node, h) =
      (or_rollback env (models.schedule_job job node) "job.Schedule failed" >>= λ events.
      record_and_commit e "events.CommitAndPublish failed" events)
        h

  unfoldable pub schedule_job_of : ProcessedEvent → JobProto → Action (Unit {0})
  schedule_job_of e proto = do
    job ← lift (models.job_from_proto proto) wrapped "job.FromProto failed"
    begin_transaction
    loaded ← or_rollback env (models.load_job_for_update job) "job.LoadFromDB failed"
    λ h. schedule_on e loaded (models.nodes_available loaded h)

  -- `JobUpdatedHandler.Handle` of the payload of a job.
  unfoldable pub handle_job_updated : List ℕ → EventType → JobProto → Action (Unit {0})
  handle_job_updated uuid event_type proto =
      let e : ProcessedEvent = record { handler_name = handler_name; uuid = uuid } in
      if is_updated event_type
      then (if is_pending (models.job_proto_status proto)
          then unless_processed e (schedule_job_of e proto)
          else return tt)
      else return tt

  -- What `NodeUpdatedHandler` does for the jobs that wait.
  unfoldable pub schedule_jobs_on : ProcessedEvent → Node → Action (Unit {0})
  schedule_jobs_on e proto = do
    node ← lift (models.node_from_proto proto) wrapped "node.FromProto failed"
    begin_transaction
    loaded ← or_rollback env (models.load_node_for_update node) "node.LoadFromDBForUpdate failed"
    events ← or_rollback env (models.schedule_pending_jobs loaded) "node.SchedulePendingJobs failed"
    record_and_commit e "failed to send and commit events" events

  -- `NodeUpdatedHandler.Handle` of the payload of a node.
  unfoldable pub handle_node_updated :
      List ℕ → EventType → Option (List String) → Node → Action (Unit {0})
  handle_node_updated uuid event_type mask node =
      let e : ProcessedEvent = record { handler_name = handler_name; uuid = uuid } in
      if is_updated event_type && in_mask "status" mask && is_online node.status
      then unless_processed e (schedule_jobs_on e node)
      else return tt

  unfoldable pub fail_tasks : ProcessedEvent → ℕ → Action (Unit {0})
  fail_tasks e node_id = do
    begin_transaction
    events ←
        or_rollback env (models.fail_tasks_of_node node_id)
          "tasks.UpdateStatusForDisconnectedNode failed"
    record_and_commit e "events.CommitAndPublish failed" events

  -- `NodeDisconnectedHandler.Handle` of the payload of a node.
  unfoldable pub handle_node_disconnected :
      List ℕ → EventType → Option (List String) → Node → Action (Unit {0})
  handle_node_disconnected uuid event_type mask node =
      let e : ProcessedEvent = record { handler_name = handler_name; uuid = uuid } in
      if is_updated event_type && in_mask "status" mask && is_offline node.status
      then unless_processed e (fail_tasks e node.id)
      else return tt

  -- The status of the job of a terminated task: the job is pending again, or it has finished.
  abbrev pub next_job_status : Job → TaskStatus → JobStatus
  next_job_status job s = if models.needs_rescheduling job s then pending else finished

  abbrev pub counted_column : TaskStatus → String
  counted_column s = if is_node_failed s then "tasks_failed" else "tasks_finished"

  abbrev pub counted_expression : TaskStatus → String
  counted_expression s = if is_node_failed s then "tasks_failed + 1" else "tasks_finished + 1"

  -- The updates of the node of a terminated task: its resources, and one of two counters.
  unfoldable pub node_updates : Task → Job → List (String × NodeValue)
  node_updates task job =
      set_update (counted_column (models.task_status task))
        (expression (counted_expression (models.task_status task)))
        (models.deallocate_limit (models.task_node_id task) job)

  unfoldable pub free_resources : ProcessedEvent → Task → Action (Unit {0})
  unfolding node_updates
  free_resources e task = do
    loaded ← models.reload_task task wrapped "task.LoadFromDB failed"
    begin_transaction
    job ←
        or_rollback env (models.load_job_of_task_for_update loaded)
          "task.LoadJobFromDBForUpdate failed"
    changed ←
        or_rollback env
          (models.update_job_status job (next_job_status job (models.task_status loaded)))
          "failed to update Container status"
    node_event ←
        or_rollback env
          (models.update_node (models.task_node_id loaded) (node_updates loaded changed.0))
          "failed to update Node statistics"
    record_and_commit e "failed to send and commit events" (changed.1 ∷ node_event ∷ [])

  unfoldable pub when_terminated : ProcessedEvent → Task → Action (Unit {0})
  when_terminated e task =
      if models.task_is_terminated task
      then unless_processed e (free_resources e task)
      else return tt

  -- `TaskTerminatedHandler.Handle` of the payload of a task.
  unfoldable pub handle_task_terminated :
      List ℕ → EventType → Option (List String) → TaskProto → Action (Unit {0})
  handle_task_terminated uuid event_type mask proto =
      let e : ProcessedEvent = record { handler_name = handler_name; uuid = uuid } in
      let handle = do
        task ← lift (models.task_from_proto proto) wrapped "task.FromProto failed"
        when_terminated e task
      in if is_updated event_type && in_mask "status" mask then handle else return tt

-- The payloads that the handlers look at.
pub data SchedulerPayload (models : Models) : Type 0 where
  job : models.JobProto → SchedulerPayload models
  task : models.TaskProto → SchedulerPayload models
  node : Node → SchedulerPayload models
  other : SchedulerPayload models

pub record SchedulerEvent (models : Models) : Type 0 where
  pub uuid : List ℕ
  pub event_type : EventType
  pub payload : SchedulerPayload models
  pub payload_mask : Option (List String)

-- The types of the handlers.
pub data HandlerKind : Type 0 where
  job_updated node_updated node_disconnected task_terminated : HandlerKind

module _ (env : Env) (lib : ErrorLib) (models : Models) (handler_name : String) where
  -- `Handle` of a handler: a payload of another type is skipped.
  unfoldable pub handle_payload :
      HandlerKind
      → List ℕ
      → EventType
      → Option (List String)
      → SchedulerPayload models
      → Action (Unit {0})
  handle_payload job_updated uuid event_type mask (job p) =
      handle_job_updated env lib models handler_name uuid event_type p
  handle_payload node_updated uuid event_type mask (node n) =
      handle_node_updated env lib models handler_name uuid event_type mask n
  handle_payload node_disconnected uuid event_type mask (node n) =
      handle_node_disconnected env lib models handler_name uuid event_type mask n
  handle_payload task_terminated uuid event_type mask (task p) =
      handle_task_terminated env lib models handler_name uuid event_type mask p
  handle_payload _ uuid event_type mask _ = return tt

  abbrev pub handle : HandlerKind → SchedulerEvent models → Action (Unit {0})
  handle kind e = handle_payload kind e.uuid e.event_type e.payload_mask e.payload

-- ===== src/Scheduler/Requests.antt =====
-- scheduler/server/*.go: the requests for jobs, tasks and nodes, and who may make them.
pub mod Rights
pub mod Cancelling
use Prim.Native.String.{String, ◌++◌}
use scalemate.Prelude.{
  ℕ, Bool, true, false, ◌||◌, List, [], ◌∷◌, Option, none, some, if◌then◌else◌, same_text,
}
use scalemate.Proto.{Node, Event, ListJobsRequest, ListTasksRequest, ListNodesRequest}
use scalemate.World.{
  Env, Err, status, wrap, fundamental, Result, ok, err, Action, unauthenticated, permission_denied,
  return, lift, guard, ◌>>=◌, ◌>>◌, ◌wrapped◌, ◌catch◌, fail,
}
use scalemate.Shared.Auth.{Claims, ContextClaims, no_claims, has_claims, other_type}
use scalemate.Scheduler.Models.{Models, JobStatus, TaskStatus}
use scalemate.Scheduler.Handlers.{or_rollback, begin_transaction, in_list}

-- The methods that `AuthFuncOverride` injects claims for.
abbrev pub methods_with_claims : List String
methods_with_claims =
    "/scheduler.scheduler_proto.Scheduler/RunJob" ∷ "/scheduler.scheduler_proto.Scheduler/CreateJob"
    ∷ "/scheduler.scheduler_proto.Scheduler/GetJob"
    ∷ "/scheduler.scheduler_proto.Scheduler/CancelJob"
    ∷ "/scheduler.scheduler_proto.Scheduler/ListJobs"
    ∷ "/scheduler.scheduler_proto.Scheduler/IterateTasks"
    ∷ "/scheduler.scheduler_proto.Scheduler/IterateTasksForNode"
    ∷ "/scheduler.scheduler_proto.Scheduler/ListTasks"
    ∷ "/scheduler.scheduler_proto.Scheduler/GetTask"
    ∷ "/scheduler.scheduler_proto.Scheduler/CancelTask" ∷ []

abbrev wrap_error : {A : Type 0} → Result A → String → Result A
wrap_error (ok a) message = ok a
wrap_error (err e) message = err (wrap e message)

-- `AuthFuncOverride`: the context of the request; `injected` is the answer of the claims injector.
unfoldable pub auth_func_override :
    ContextClaims → Result ContextClaims → String → Result ContextClaims
auth_func_override ctx injected full_method_name =
    if in_list full_method_name methods_with_claims
    then wrap_error injected "failed to parse JWT"
    else ok ctx

-- The type assertion on the value in the context.
abbrev pub known_claims : ContextClaims → Result Claims
known_claims (has_claims c) = ok c
known_claims no_claims = err (status unauthenticated "unknown JWT claims type")
known_claims other_type = err (status unauthenticated "unknown JWT claims type")

-- A message that could not be made is only logged, and the answer is nil with no error.
abbrev pub or_nil : {A : Type 0} → Result A → Option A
or_nil (ok a) = some a
or_nil (err e) = none

-- The loop that makes the messages of a list; the first error is returned.
unfoldable pub all_to_proto : {A B : Type 0} → (A → Result B) → String → List A → Action (List B)
all_to_proto convert message [] = return []
all_to_proto convert message (a ∷ as_) =
    let rest = all_to_proto convert message as_ in
    do b ← lift (convert a) wrapped message; bs ← rest; return (b ∷ bs)

module _ (env : Env) (models : Models) where
  open models use {JobProto, TaskProto, Job, Task, NodeModel}

  -- The owner, or an admin.
  abbrev pub may_access : Claims → String → Bool
  may_access c username = same_text username c.username || models.is_admin c

  abbrev pub access_error : Claims → String → String → Option Err
  access_error c username message =
      if may_access c username then none else some (status permission_denied message)

  -- `GetJob`
  unfoldable pub get_job : ContextClaims → ℕ → Action (Option JobProto)
  get_job ctx job_id = do
    claims ← lift (known_claims ctx)
    job ← models.load_job job_id
    guard (
        access_error claims (models.job_username job)
          "Container username does not match currently authenticated user")
    return (or_nil (models.job_to_proto job))

  -- The loop of `CancelJob` over the tasks: the events of those that are not terminated.
  unfoldable pub cancel_tasks : List Task → Action (List Event)
  cancel_tasks [] = return []
  cancel_tasks (t ∷ ts) =
      let rest = cancel_tasks ts in
      let cancel = do
        changed ←
            or_rollback env (models.update_task_status t TaskStatus.cancelled)
              "task.UpdateStatus failed"
        events ← rest
        return (changed.1 ∷ events)
      in if models.task_is_terminated t then rest else cancel

  -- `CancelJob` of a job that the user may access.
  unfoldable pub cancel_loaded_job : Job → Action (Option JobProto)
  cancel_loaded_job job = do
    begin_transaction
    changed ←
        or_rollback env (models.update_job_status job JobStatus.cancelled) "job.UpdateStatus failed"
    tasks ← models.load_tasks changed.0 wrapped "job.LoadTasksFromDB failed"
    events ← cancel_tasks tasks
    models.publish_changes (changed.1 ∷ events) wrapped "failed to send and commit events"
    return (or_nil (models.job_to_proto changed.0))

  unfoldable pub cancel_job : ContextClaims → ℕ → Action (Option JobProto)
  cancel_job ctx job_id = do
    claims ← lift (known_claims ctx)
    job ← models.load_job job_id
    guard (
        access_error claims (models.job_username job)
          "Container username does not match currently authenticated user")
    cancel_loaded_job job

  -- `GetTask`
  unfoldable pub get_task : ContextClaims → ℕ → Action (Option TaskProto)
  get_task ctx task_id = do
    claims ← lift (known_claims ctx)
    task ← models.load_task task_id
    job ← models.load_job_of_task task
    guard (access_error claims (models.job_username job) "the Task requested is not owned by you")
    return (or_nil (models.task_to_proto task))

  -- `CancelTask` of a task that the user may access.
  unfoldable pub cancel_loaded_task : Task → Action (Option TaskProto)
  cancel_loaded_task task = do
    begin_transaction
    changed ←
        or_rollback env (models.update_task_status task TaskStatus.cancelled)
          "task.UpdateStatus failed"
    models.publish_changes (changed.1 ∷ []) wrapped "failed to send and commit events"
    return (or_nil (models.task_to_proto changed.0))

  unfoldable pub cancel_task : ContextClaims → ℕ → Action (Option TaskProto)
  cancel_task ctx task_id = do
    claims ← lift (known_claims ctx)
    task ← models.load_task task_id
    job ← models.load_job_of_task task wrapped "task.LoadJobFromDB failed"
    guard (
        access_error claims (models.job_username job)
          "corresponding Container username does not match currently authenticated user")
    cancel_loaded_task task

  -- `GetNode`: of all users.
  unfoldable pub get_node : ℕ → Action (Option Node)
  get_node node_id = do node ← models.load_node node_id; return (or_nil (models.node_to_proto node))

  -- `ListJobs`: the messages and the total count.
  unfoldable pub list_jobs : ContextClaims → ListJobsRequest → Action (List JobProto × ℕ)
  list_jobs ctx r = do
    claims ← lift (known_claims ctx)
    guard (
        access_error claims r.username
          ("you can only view Containers for user '" ++ claims.username ++ "'"))
    listed ← models.list_jobs r
    protos ← all_to_proto models.job_to_proto "job.ToProto failed" listed.0
    return (protos, listed.1)

  -- `ListTasks`
  unfoldable pub list_tasks : ContextClaims → ListTasksRequest → Action (List TaskProto × ℕ)
  list_tasks ctx r = do
    claims ← lift (known_claims ctx)
    guard (
        access_error claims r.username
          ("you can only view Tasks for user '" ++ claims.username ++ "'"))
    listed ← models.list_tasks r
    protos ← all_to_proto models.task_to_proto "task.ToProto failed" listed.0
    return (protos, listed.1)

  -- `ListNodes`: of all users.
  unfoldable pub list_nodes : ListNodesRequest → Action (List Node × ℕ)
  list_nodes r = do
    listed ← models.list_nodes r
    protos ← all_to_proto models.node_to_proto "node.ToProto failed" listed.0
    return (protos, listed.1)

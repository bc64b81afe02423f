-- ===== src/Scheduler/Models.antt =====
-- What scheduler/handlers and scheduler/server call of models that the repository does not hold:
-- jobs, tasks, the queries on them, and the `CommitAndPublish` of accounts/utils. Each is a field.
-- Roles of users are the same: the claims of the repository have none.
use Prim.Native.String.{String}
use scalemate.Prelude.{ℕ, ◌+◌, ◌≡◌, suc, Bool, List, Option}
use scalemate.Proto.{Node, Event, ListJobsRequest, ListTasksRequest, ListNodesRequest}
use scalemate.World.{Result, Value, History, Action, begun, ended}
use scalemate.Shared.Auth.{Claims}

-- `Job.Status` and `Task.Status`, as far as the code names them.
pub data JobStatus : Type 0 where
  pending finished cancelled : JobStatus
  other : ℕ → JobStatus

pub data TaskStatus : Type 0 where
  cancelled node_failed : TaskStatus
  other : ℕ → TaskStatus

-- A value in the updates of a node: a plain one, or an SQL expression.
pub data NodeValue : Type 0 where
  value : Value → NodeValue
  expression : String → NodeValue

-- The run configuration of a new job, as far as `CreateJob` looks at it.
pub record NewRunConfig : Type 0 where
  pub ports : List (ℕ × ℕ)
  pub volumes : List (String × String)
  pub download_paths : List (String × String)
  pub upload_paths : List (String × String)

-- What `CreateJob` reads of the message; the status is a number, and no time is nil.
pub record NewJob : Type 0 where
  pub username : String
  pub id : ℕ
  pub status : ℕ
  pub created_at : Option ℕ
  pub updated_at : Option ℕ
  pub run_config : Option NewRunConfig

pub record Models : Type 1 where
  pub Job : Type 0
  pub Task : Type 0
  pub NodeModel : Type 0
  pub JobProto : Type 0
  pub TaskProto : Type 0
  pub job_proto_status : JobProto → JobStatus
  pub new_job_of : JobProto → NewJob
  pub job_from_proto : JobProto → Result Job
  pub job_to_proto : Job → Result JobProto
  pub job_username : Job → String
  pub job_is_terminated : Job → Bool
  pub needs_rescheduling : Job → TaskStatus → Bool
  pub load_job : ℕ → Action Job
  pub load_job_for_update : Job → Action Job
  pub create_job : Job → Action (Job × Event)
  pub list_jobs : ListJobsRequest → Action (List Job × ℕ)
  pub nodes_available : Job → Action NodeModel
  pub schedule_job : Job → NodeModel → Action (List Event)
  pub update_job_status : Job → JobStatus → Action (Job × Event)
  pub load_tasks : Job → Action (List Task)
  pub task_from_proto : TaskProto → Result Task
  pub task_to_proto : Task → Result TaskProto
  pub task_status : Task → TaskStatus
  pub task_is_terminated : Task → Bool
  pub task_node_id : Task → ℕ
  pub load_task : ℕ → Action Task
  pub list_tasks : ListTasksRequest → Action (List Task × ℕ)
  pub reload_task : Task → Action Task
  pub load_job_of_task : Task → Action Job
  pub load_job_of_task_for_update : Task → Action Job
  pub update_task_status : Task → TaskStatus → Action (Task × Event)
  pub fail_tasks_of_node : ℕ → Action (List Event)
  pub node_from_proto : Node → Result NodeModel
  pub node_to_proto : NodeModel → Result Node
  pub node_id : NodeModel → ℕ
  pub node_is_online : NodeModel → Bool
  pub get_node : String → String → Action NodeModel
  pub load_node : ℕ → Action NodeModel
  pub list_nodes : ListNodesRequest → Action (List NodeModel × ℕ)
  pub load_node_for_update : NodeModel → Action NodeModel
  pub schedule_pending_jobs : NodeModel → Action (List Event)
  pub deallocate_limit : ℕ → Job → List (String × NodeValue)
  pub update_node : ℕ → List (String × NodeValue) → Action Event
  -- `CommitAndPublish` as the handlers call it, with the transaction, and as the requests do, without.
  pub commit_and_publish : List Event → Action (Unit {0})
  pub publish_changes : List Event → Action (Unit {0})
  pub is_admin : Claims → Bool

-- The action neither begins nor ends a transaction.
pub record IsQuiet {ℓ} {A : Type ℓ} (m : Action A) : Type 0 where
  pub begins_none : (h : History) → begun (m h).1 ≡ begun h
  pub ends_none : (h : History) → ended (m h).1 ≡ ended h

-- It ends one transaction, and begins none.
pub record EndsOne {ℓ} {A : Type ℓ} (m : Action A) : Type 0 where
  pub begins_none : (h : History) → begun (m h).1 ≡ begun h
  pub ends_one : (h : History) → ended (m h).1 ≡ suc (ended h)

-- It ends each transaction that it begins.
pub record IsBalanced {ℓ} {A : Type ℓ} (m : Action A) : Type 0 where
  pub balance : (h : History) → begun (m h).1 + ended h ≡ ended (m h).1 + begun h

-- The queries run inside a transaction that their caller began and will end.
pub record AreQuiet (models : Models) : Type 0 where
  pub load_job : (id : ℕ) → IsQuiet (models.load_job id)
  pub load_job_for_update : (job : models.Job) → IsQuiet (models.load_job_for_update job)
  pub nodes_available : (job : models.Job) → IsQuiet (models.nodes_available job)
  pub schedule_job :
      (job : models.Job) (node : models.NodeModel) → IsQuiet (models.schedule_job job node)
  pub update_job_status :
      (job : models.Job) (s : JobStatus) → IsQuiet (models.update_job_status job s)
  pub load_tasks : (job : models.Job) → IsQuiet (models.load_tasks job)
  pub create_job : (job : models.Job) → IsQuiet (models.create_job job)
  pub load_task : (id : ℕ) → IsQuiet (models.load_task id)
  pub load_job_of_task : (task : models.Task) → IsQuiet (models.load_job_of_task task)
  pub reload_task : (task : models.Task) → IsQuiet (models.reload_task task)
  pub load_job_of_task_for_update :
      (task : models.Task) → IsQuiet (models.load_job_of_task_for_update task)
  pub update_task_status :
      (task : models.Task) (s : TaskStatus) → IsQuiet (models.update_task_status task s)
  pub fail_tasks_of_node : (id : ℕ) → IsQuiet (models.fail_tasks_of_node id)
  pub load_node_for_update : (node : models.NodeModel) → IsQuiet (models.load_node_for_update node)
  pub schedule_pending_jobs :
      (node : models.NodeModel) → IsQuiet (models.schedule_pending_jobs node)
  pub update_node :
      (id : ℕ) (updates : List (String × NodeValue)) → IsQuiet (models.update_node id updates)
  pub commit_and_publish : (events : List Event) → EndsOne (models.commit_and_publish events)

-- ===== src/Client/Lists.antt =====
-- client/scheduler/flags.go: the requests for lists of jobs, of tasks and of nodes that the flags
-- describe. Numbers of enums are converted with no check. A float32 is its bits.
use Prim.Native.String.{String}
use scalemate.Prelude.{ℕ, List, []}
use scalemate.Proto.{ListJobsRequest, ListTasksRequest, ListNodesRequest}

-- The flags of `scalemate jobs list`.
pub record ListJobsCmdFlags : Type 0 where
  pub status : List ℕ
  pub ordering : ℕ
  pub limit : ℕ
  pub offset : ℕ

-- `ListJobsCmdFlags.ToProto`
unfoldable pub list_jobs_to_proto : ListJobsCmdFlags → ListJobsRequest
list_jobs_to_proto f = record {
  username = "";
  ordering = f.ordering;
  limit = f.limit;
  offset = f.offset;
  status = f.status;
}

-- The flags of `scalemate tasks list`.
pub record ListTasksCmdFlags : Type 0 where
  pub status : List ℕ
  pub ordering : ℕ
  pub limit : ℕ
  pub offset : ℕ

-- `ListTasksCmdFlags.ToProto`
unfoldable pub list_tasks_to_proto : ListTasksCmdFlags → ListTasksRequest
list_tasks_to_proto f = record {
  username = "";
  job_id = [];
  ordering = f.ordering;
  limit = f.limit;
  offset = f.offset;
  status = f.status;
}

-- The flags of `scalemate nodes list`.
pub record ListNodesCmdFlags : Type 0 where
  pub status : List ℕ
  pub ordering : ℕ
  pub limit : ℕ
  pub offset : ℕ
  pub cpu_available : ℕ
  pub cpu_class : ℕ
  pub memory_available : ℕ
  pub gpu_available : ℕ
  pub gpu_class : ℕ
  pub disk_available : ℕ
  pub disk_class : ℕ
  pub cpu_labels : List String
  pub gpu_labels : List String
  pub disk_labels : List String
  pub memory_labels : List String
  pub username_labels : List String
  pub name_labels : List String
  pub other_labels : List String
  pub tasks_finished : ℕ
  pub tasks_failed : ℕ

-- `ListNodesCmdFlags.ToProto`
unfoldable pub list_nodes_to_proto : ListNodesCmdFlags → ListNodesRequest
list_nodes_to_proto f = record {
  ordering = f.ordering;
  limit = f.limit;
  offset = f.offset;
  cpu_available = f.cpu_available;
  cpu_class = f.cpu_class;
  memory_available = f.memory_available;
  gpu_available = f.gpu_available;
  gpu_class = f.gpu_class;
  disk_available = f.disk_available;
  disk_class = f.disk_class;
  cpu_labels = f.cpu_labels;
  gpu_labels = f.gpu_labels;
  disk_labels = f.disk_labels;
  memory_labels = f.memory_labels;
  username_labels = f.username_labels;
  name_labels = f.name_labels;
  other_labels = f.other_labels;
  tasks_finished = f.tasks_finished;
  tasks_failed = f.tasks_failed;
  status = f.status;
}

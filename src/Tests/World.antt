-- ===== src/Tests/World.antt =====
-- The models that the scheduler's requests and handlers use in the tests: jobs, tasks and nodes are
-- numbers, each belongs to ann, and the tasks of job 2 cannot be read.

use scalemate.Prelude.{ℕ, ◌==◌, refl, false, List, [], ◌∷◌, none, some, if◌then◌else◌, arith}
use scalemate.Proto.{Event, EventType, Service, accounts_user}
use scalemate.World.{foreign, ok, err, Action, commit, rollback, number}
use scalemate.Scheduler.Nodes.{zero_node}
use scalemate.Scheduler.Models.{Models, JobStatus, TaskStatus, NewJob, value, AreQuiet, IsQuiet}
use scalemate.Tests.Fixture.{ann}

abbrev pub update_event : Event
update_event = record {
  uuid = 6 ∷ [];
  event_type = EventType.updated;
  service = Service.scheduler;
  payload = accounts_user ann.user;
  payload_mask = none;
  created_at = 0;
}

-- An answer without a call.
abbrev answer : {A : Type 0} → A → Action A
answer a h = (ok a, h)

abbrev tasks_of : ℕ → Action (List ℕ)
tasks_of j h = if j == 2 then (err (foreign "no connection"), h) else (ok (1 ∷ 4 ∷ []), h)

abbrev pub new_job : NewJob
new_job = record {
  username = "ann";
  id = 0;
  status = 0;
  created_at = none;
  updated_at = none;
  run_config = some (record {
    ports = (80, 8080) ∷ [];
    volumes = ("data", "/data") ∷ [];
    download_paths = [];
    upload_paths = ("/tmp", "in/put") ∷ [];
  });
}

abbrev pub models : Models
models = record {
  Job = ℕ;
  Task = ℕ;
  NodeModel = ℕ;
  JobProto = ℕ;
  TaskProto = ℕ;
  job_proto_status = λ p. JobStatus.pending;
  new_job_of = λ p. new_job;
  job_from_proto = λ p. ok p;
  job_to_proto = λ j. ok j;
  job_username = λ j. "ann";
  job_is_terminated = λ j. false;
  needs_rescheduling = λ j s. false;
  load_job = answer;
  load_job_for_update = answer;
  create_job = λ j. answer (j, update_event);
  list_jobs = λ r. answer ([], 0);
  nodes_available = λ j. answer 3;
  schedule_job = λ j n. answer (update_event ∷ []);
  update_job_status = λ j s. answer (j, update_event);
  load_tasks = tasks_of;
  task_from_proto = λ p. ok p;
  task_to_proto = λ t. ok t;
  task_status = λ t. TaskStatus.other 0;
  task_is_terminated = λ t. t == 1;
  task_node_id = λ t. 3;
  load_task = answer;
  list_tasks = λ r. answer ([], 0);
  reload_task = answer;
  load_job_of_task = λ t. answer 1;
  load_job_of_task_for_update = λ t. answer 1;
  update_task_status = λ t s. answer (t, update_event);
  fail_tasks_of_node = λ id. answer (update_event ∷ []);
  node_from_proto = λ n. ok n.id;
  node_to_proto = λ n. ok zero_node;
  node_id = λ n. n;
  node_is_online = λ n. false;
  get_node = λ username name. answer 3;
  load_node = answer;
  list_nodes = λ r. answer ([], 0);
  load_node_for_update = answer;
  schedule_pending_jobs = λ n. answer [];
  deallocate_limit = λ id j. ("cpu_available", value (number 4)) ∷ [];
  update_node = λ id updates. answer update_event;
  commit_and_publish = λ events h. (ok tt, commit ∷ h);
  publish_changes = λ events h. (ok tt, commit ∷ h);
  is_admin = λ c. false;
}

abbrev quiet_answer : {A : Type 0} (a : A) → IsQuiet (answer a)
quiet_answer a = record { begins_none = λ h. refl; ends_none = λ h. refl }

tasks_of-IsQuiet : (j : ℕ) → IsQuiet (tasks_of j)
tasks_of-IsQuiet j = record { begins_none = λ h. ground arith; ends_none = λ h. ground arith }

pub models-AreQuiet : AreQuiet models
models-AreQuiet = record {
  load_job = quiet_answer;
  load_job_for_update = quiet_answer;
  nodes_available = λ j. quiet_answer 3;
  schedule_job = λ j n. quiet_answer _;
  update_job_status = λ j s. quiet_answer _;
  load_tasks = tasks_of-IsQuiet;
  create_job = λ j. quiet_answer _;
  load_task = quiet_answer;
  load_job_of_task = λ t. quiet_answer _;
  reload_task = quiet_answer;
  load_job_of_task_for_update = λ t. quiet_answer _;
  update_task_status = λ t s. quiet_answer _;
  fail_tasks_of_node = λ id. quiet_answer _;
  load_node_for_update = quiet_answer;
  schedule_pending_jobs = λ n. quiet_answer _;
  update_node = λ id updates. quiet_answer _;
  commit_and_publish = λ events. record { begins_none = λ h. refl; ends_one = λ h. refl };
}

-- No event can be published.
abbrev pub broken_models : Models
broken_models = record models {
  publish_changes = λ events h. (err (foreign "no connection"), rollback ∷ h);
}

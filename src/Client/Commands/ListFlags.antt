-- ===== src/Client/Commands/ListFlags.antt =====
-- client/cmd/jobs.go, tasks.go and nodes.go: the flags that the lists of jobs, tasks and nodes
-- register, each with the field that it sets. What the library for flags makes of one more value of an
-- array, and of more numbers of a slice, is an argument. A float32 is its bits.
pub mod Given
use Prim.Native.String.{String}
use scalemate.Prelude.{ℕ, ◌≡◌, ◌∙◌, refl, Bool, false, List, [], ◌∷◌, ◌++◌, map}
use scalemate.Client.Lists.{ListJobsCmdFlags, ListTasksCmdFlags, ListNodesCmdFlags}

-- The flags that the three lists share. A slice of numbers has one at least.
pub data PageFlag : Type 0 where
  status_flag : ℕ → List ℕ → PageFlag
  order_flag limit_flag offset_flag : ℕ → PageFlag

-- Those of `tasks list`.
pub data TasksListFlag : Type 0 where
  page_flag : PageFlag → TasksListFlag
  existing_flag : Bool → TasksListFlag

-- Those of `nodes list`.
pub data NodesListFlag : Type 0 where
  nodes_page_flag : PageFlag → NodesListFlag
  cpu_flag cpu_class_flag memory_flag gpu_flag gpu_class_flag disk_flag : ℕ → NodesListFlag
  disk_class_flag tasks_finished_flag tasks_failed_flag : ℕ → NodesListFlag
  cpu_label_flag gpu_label_flag disk_label_flag memory_label_flag : String → NodesListFlag
  username_label_flag name_label_flag other_label_flag : String → NodesListFlag

-- The values before any flag is given.
abbrev pub default_list_jobs : ListJobsCmdFlags
default_list_jobs = record { status = []; ordering = 0; limit = 10; offset = 0 }

abbrev pub default_list_tasks : ListTasksCmdFlags × Bool
default_list_tasks = (record { status = []; ordering = 0; limit = 10; offset = 0 }, false)

abbrev pub default_list_nodes : ListNodesCmdFlags
default_list_nodes = record {
  status = [];
  ordering = 0;
  limit = 10;
  offset = 0;
  cpu_available = 0;
  cpu_class = 0;
  memory_available = 0;
  gpu_available = 0;
  gpu_class = 0;
  disk_available = 0;
  disk_class = 0;
  cpu_labels = [];
  gpu_labels = [];
  disk_labels = [];
  memory_labels = [];
  username_labels = [];
  name_labels = [];
  other_labels = [];
  tasks_finished = 0;
  tasks_failed = 0;
}

module _ (add_text : List String → String → List String)
    (add_numbers : List ℕ → List ℕ → List ℕ) where
  unfoldable pub set_jobs_flag : PageFlag → ListJobsCmdFlags → ListJobsCmdFlags
  set_jobs_flag (status_flag v vs) f = record f { status = add_numbers f.status (v ∷ vs) }
  set_jobs_flag (order_flag n) f = record f { ordering = n }
  set_jobs_flag (limit_flag n) f = record f { limit = n }
  set_jobs_flag (offset_flag n) f = record f { offset = n }

  -- `--existing` sets a variable of its own.
  unfoldable pub set_tasks_flag :
      TasksListFlag → ListTasksCmdFlags × Bool → ListTasksCmdFlags × Bool
  set_tasks_flag (page_flag (status_flag v vs)) (f, b) =
      (record f { status = add_numbers f.status (v ∷ vs) }, b)
  set_tasks_flag (page_flag (order_flag n)) (f, b) = (record f { ordering = n }, b)
  set_tasks_flag (page_flag (limit_flag n)) (f, b) = (record f { limit = n }, b)
  set_tasks_flag (page_flag (offset_flag n)) (f, b) = (record f { offset = n }, b)
  set_tasks_flag (existing_flag e) (f, b) = (f, e)

  unfoldable pub set_nodes_flag : NodesListFlag → ListNodesCmdFlags → ListNodesCmdFlags
  set_nodes_flag (nodes_page_flag (status_flag v vs)) f = record f {
    status = add_numbers f.status (v ∷ vs);
  }
  set_nodes_flag (nodes_page_flag (order_flag n)) f = record f { ordering = n }
  set_nodes_flag (nodes_page_flag (limit_flag n)) f = record f { limit = n }
  set_nodes_flag (nodes_page_flag (offset_flag n)) f = record f { offset = n }
  set_nodes_flag (cpu_flag n) f = record f { cpu_available = n }
  set_nodes_flag (cpu_class_flag n) f = record f { cpu_class = n }
  set_nodes_flag (memory_flag n) f = record f { memory_available = n }
  set_nodes_flag (gpu_flag n) f = record f { gpu_available = n }
  set_nodes_flag (gpu_class_flag n) f = record f { gpu_class = n }
  set_nodes_flag (disk_flag n) f = record f { disk_available = n }
  set_nodes_flag (disk_class_flag n) f = record f { disk_class = n }
  set_nodes_flag (cpu_label_flag v) f = record f { cpu_labels = add_text f.cpu_labels v }
  set_nodes_flag (gpu_label_flag v) f = record f { gpu_labels = add_text f.gpu_labels v }
  set_nodes_flag (disk_label_flag v) f = record f { disk_labels = add_text f.disk_labels v }
  set_nodes_flag (memory_label_flag v) f = record f { memory_labels = add_text f.memory_labels v }
  set_nodes_flag (username_label_flag v) f = record f {
    username_labels = add_text f.username_labels v;
  }
  set_nodes_flag (name_label_flag v) f = record f { name_labels = add_text f.name_labels v }
  set_nodes_flag (other_label_flag v) f = record f { other_labels = add_text f.other_labels v }
  set_nodes_flag (tasks_finished_flag n) f = record f { tasks_finished = n }
  set_nodes_flag (tasks_failed_flag n) f = record f { tasks_failed = n }

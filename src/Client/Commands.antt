-- ===== src/Client/Commands.antt =====
-- client/cmd/jobs.go, tasks.go, nodes.go and models.go: what the commands of the client make of their
-- arguments. The check of the number of arguments is of the library for commands, and the listing of
-- an enum's values is a text; both are arguments here. The flags are the values that were parsed.
pub mod Arguments
pub mod Accepted
pub mod InRange
pub mod Iterating
pub mod FlagSets
pub mod JobFlags
pub mod ListFlags
pub mod Accounts
use Prim.Native.String.{String, ◌++◌}
use scalemate.Prelude.{
  ℕ, ◌≡◌, ◌↔◌, ◌%◌, ◌^◌, ◌&&◌, Bool, true, false, List, [], ◌∷◌, Option, none, some, ltb, leb, ◌==◌,
  if◌then◌else◌, length,
}
use scalemate.Client.Flags.{atoi_positive}
use scalemate.Client.Jobs.{CreateJobCmdFlags}
use scalemate.Client.Lists.{ListJobsCmdFlags, ListTasksCmdFlags, ListNodesCmdFlags}
use scalemate.Client.Requests.Own.{
  SchedulerCommand, creates_job, gets_job, cancels_job, gets_task, cancels_task, gets_node,
  lists_jobs, lists_tasks, iterates_tasks, lists_nodes, lists_cpu_models, lists_gpu_models,
  lists_disk_models, lists_memory_models,
}

-- The commands, with the flags that each one registers. `--existing` is one of `tasks list`.
pub data CommandLine : Type 0 where
  jobs_create : CreateJobCmdFlags → CommandLine
  jobs_list : ListJobsCmdFlags → CommandLine
  tasks_list : ListTasksCmdFlags → (existing : Bool) → CommandLine
  nodes_list : ListNodesCmdFlags → CommandLine
  jobs_get jobs_cancel tasks_get tasks_cancel tasks_iter nodes_get : CommandLine
  models_cpu models_gpu models_disk models_memory : CommandLine

-- `cobra.PositionalArgs`, by the function that makes it; `any_args` is the field left out.
pub data PositionalArgs : Type 0 where
  any_args : PositionalArgs
  exact_args minimum_n_args maximum_n_args : ℕ → PositionalArgs
  range_args : ℕ → ℕ → PositionalArgs

-- The field `Args` of each command.
unfoldable pub args_of : CommandLine → PositionalArgs
args_of (jobs_create _) = range_args 1 2
args_of (jobs_list _) = any_args
args_of (tasks_list _ _) = minimum_n_args 1
args_of (nodes_list _) = any_args
args_of jobs_get = exact_args 1
args_of jobs_cancel = exact_args 1
args_of tasks_get = exact_args 1
args_of tasks_cancel = exact_args 1
args_of tasks_iter = exact_args 1
args_of nodes_get = exact_args 1
args_of models_cpu = maximum_n_args 1
args_of models_gpu = maximum_n_args 1
args_of models_disk = maximum_n_args 1
args_of models_memory = maximum_n_args 0

-- The numbers of arguments that these functions are documented to accept.
abbrev pub accepts : PositionalArgs → ℕ → Bool
accepts any_args n = true
accepts (exact_args m) n = n == m
accepts (minimum_n_args m) n = leb m n
accepts (maximum_n_args m) n = leb n m
accepts (range_args l m) n = leb l n && leb n m

-- The kinds of hardware that have classes.
pub data ClassKind : Type 0 where
  cpu gpu disk : ClassKind

pub record Cobra : Type 0 where
  pub check_args : PositionalArgs → List String → Option String  -- the error's text
  pub enum_options : ClassKind → String

-- The check of the number of arguments is as documented.
abbrev pub IsDocumented : Cobra → Type 0
IsDocumented cobra =
    (p : PositionalArgs) (args : List String)
    → (cobra.check_args p args ≡ none) ↔ (accepts p (length args) ≡ true)

-- How a command ends: with the controller that it calls, with a text printed, with the error of the
-- check, or with an index out of range.
pub data Outcome : Type 0 where
  runs : SchedulerCommand → Outcome
  prints refused : String → Outcome
  out_of_range : Outcome

abbrev pub run_with_id : String → (ℕ → SchedulerCommand) → String → Option ℕ → Outcome
run_with_id what to a none = prints ("invalid " ++ what ++ " ID: " ++ a ++ "\n")
run_with_id what to a (some id) = runs (to id)

-- The identifier `args[0]` and what is done with it.
unfoldable pub with_id : String → (ℕ → SchedulerCommand) → List String → Outcome
with_id what to [] = out_of_range
with_id what to (a ∷ args) = run_with_id what to a (atoi_positive a)

-- The keys of the map of an enum's names.
abbrev pub has_name : ClassKind → ℕ → Bool
has_name disk n = if n == 0 then true else if n == 10 then true else n == 20
has_name kind n =
    if n == 0
    then true
    else if n == 10
    then true
    else if n == 20
    then true
    else if n == 30
    then true
    else n == 40

-- The key is looked up as an int32, of which only the numbers from 0 on are keys.
abbrev pub is_class : ClassKind → Option ℕ → Bool
is_class kind none = false
is_class kind (some n) = has_name kind (n % 2 ^ 32)

abbrev pub kind_text : ClassKind → String
kind_text cpu = "CPU"
kind_text gpu = "GPU"
kind_text disk = "disk"

module _ (cobra : Cobra) where
  -- The class that the argument gives is a variable of the inner block, so that the outer one, which
  -- the request gets, stays 0.
  unfoldable pub with_class : ClassKind → (ℕ → SchedulerCommand) → List String → Outcome
  with_class kind to [] = runs (to 0)
  with_class kind to (a ∷ args) =
      if is_class kind (atoi_positive a)
      then runs (to 0)
      else prints (
          "invalid "
          ++ kind_text kind
          ++ " class: "
          ++ a
          ++ ", possible values: "
          ++ cobra.enum_options kind
          ++ "\n")

-- The identifiers of jobs among the arguments, up to the first that is none.
pub data JobIds : Type 0 where
  invalid_id : String → JobIds
  valid_ids : List ℕ → JobIds

abbrev pub cons_id : ℕ → JobIds → JobIds
cons_id id (invalid_id a) = invalid_id a
cons_id id (valid_ids ids) = valid_ids (id ∷ ids)

abbrev pub add_id : String → Option ℕ → JobIds → JobIds
add_id a none rest = invalid_id a
add_id a (some id) rest = cons_id id rest

unfoldable pub parse_ids : List String → JobIds
parse_ids [] = valid_ids []
parse_ids (a ∷ args) = add_id a (atoi_positive a) (parse_ids args)

abbrev pub list_of_ids : ListTasksCmdFlags → JobIds → Outcome
list_of_ids flags (invalid_id a) = prints ("invalid Job ID: " ++ a ++ "\n")
list_of_ids flags (valid_ids ids) = runs (lists_tasks ids flags)

unfoldable pub create_job_cmd : CreateJobCmdFlags → List String → Outcome
create_job_cmd flags [] = out_of_range
create_job_cmd flags (image ∷ command ∷ []) = runs (creates_job image command flags)
create_job_cmd flags (image ∷ args) = runs (creates_job image "" flags)

-- `tasksIterateCmdIncludeExisting`, a variable that the flag of `tasks list` sets.
abbrev pub include_existing_of : CommandLine → Bool
include_existing_of (tasks_list _ existing) = existing
include_existing_of _ = false

-- The functions `Run` of the other commands on jobs.
abbrev pub get_job_cmd : List String → Outcome
get_job_cmd args = with_id "Job" gets_job args

abbrev pub list_jobs_cmd : ListJobsCmdFlags → List String → Outcome
list_jobs_cmd flags args = runs (lists_jobs flags)

abbrev pub cancel_job_cmd : List String → Outcome
cancel_job_cmd args = with_id "Job" cancels_job args

-- Those of the commands on tasks.
abbrev pub tasks_get_cmd : List String → Outcome
tasks_get_cmd args = with_id "Task" gets_task args

abbrev pub tasks_list_cmd : ListTasksCmdFlags → List String → Outcome
tasks_list_cmd flags args = list_of_ids flags (parse_ids args)

abbrev pub tasks_cancel_cmd : List String → Outcome
tasks_cancel_cmd args = with_id "Task" cancels_task args

abbrev pub tasks_iterate_cmd : Bool → List String → Outcome
tasks_iterate_cmd existing args = with_id "Job" (λ id. iterates_tasks id existing) args

-- Those of the commands on nodes.
abbrev pub get_node_cmd : List String → Outcome
get_node_cmd args = with_id "Node" gets_node args

abbrev pub list_nodes_cmd : ListNodesCmdFlags → List String → Outcome
list_nodes_cmd flags args = runs (lists_nodes flags)

module _ (cobra : Cobra) where
  -- Those of the commands on models of hardware.
  abbrev pub list_cpu_models_cmd : List String → Outcome
  list_cpu_models_cmd args = with_class cobra cpu lists_cpu_models args

  abbrev pub list_gpu_models_cmd : List String → Outcome
  list_gpu_models_cmd args = with_class cobra gpu lists_gpu_models args

  abbrev pub list_disk_models_cmd : List String → Outcome
  list_disk_models_cmd args = with_class cobra disk lists_disk_models args

abbrev pub list_memory_models_cmd : List String → Outcome
list_memory_models_cmd args = runs lists_memory_models

module _ (cobra : Cobra) where
  -- The function `Run` of each command.
  unfoldable pub run_line : CommandLine → List String → Outcome
  run_line (jobs_create flags) args = create_job_cmd flags args
  run_line (jobs_list flags) args = list_jobs_cmd flags args
  run_line (tasks_list flags existing) args = tasks_list_cmd flags args
  run_line (nodes_list flags) args = list_nodes_cmd flags args
  run_line jobs_get args = get_job_cmd args
  run_line jobs_cancel args = cancel_job_cmd args
  run_line tasks_get args = tasks_get_cmd args
  run_line tasks_cancel args = tasks_cancel_cmd args
  run_line tasks_iter args = tasks_iterate_cmd (include_existing_of tasks_iter) args
  run_line nodes_get args = get_node_cmd args
  run_line models_cpu args = list_cpu_models_cmd cobra args
  run_line models_gpu args = list_gpu_models_cmd cobra args
  run_line models_disk args = list_disk_models_cmd cobra args
  run_line models_memory args = list_memory_models_cmd args

  abbrev pub after_check : Option String → Outcome → Outcome
  after_check (some e) o = refused e
  after_check none o = o

  -- A command with its arguments: the check, then `Run`.
  unfoldable pub execute : CommandLine → List String → Outcome
  execute line args = after_check (cobra.check_args (args_of line) args) (run_line line args)

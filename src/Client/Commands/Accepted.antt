-- ===== src/Client/Commands/Accepted.antt =====
-- Which arguments the commands of client/cmd accept, and what they run then.
use Prim.Native.String.{String}
use scalemate.Prelude.{
  ℕ, ◌≡◌, ◌≢◌, ◌↔◌, refl, true, false, List, [], ◌∷◌, length, arith, inl, inr, Option-cases,
}
use scalemate.Client.Requests.Own.{
  SchedulerCommand, gets_job, cancels_job, gets_task, cancels_task, gets_node, lists_jobs,
  lists_tasks, iterates_tasks, lists_nodes, lists_cpu_models, lists_gpu_models, lists_disk_models,
  lists_memory_models,
}
use scalemate.Client.Commands.InRange.{execute-in_range}
use scalemate.Client.Commands.{
  CommandLine, jobs_create, jobs_get, jobs_list, jobs_cancel, tasks_get, tasks_list, tasks_cancel,
  tasks_iter, nodes_get, nodes_list, models_cpu, models_gpu, models_disk, models_memory, accepts,
  maximum_n_args, args_of, cpu, gpu, disk, Cobra, IsDocumented, runs, out_of_range, run_line,
  execute,
}
use scalemate.Client.Commands.Arguments.{
  NamesId, NamesClass, AreIds, NamesImage, with_id-NamesId, with_class-NamesClass,
  list_of_ids-AreIds, create_job_cmd-NamesImage,
}

-- What a command with these arguments is to run.
abbrev pub Accepts : CommandLine → List String → SchedulerCommand → Type 0
Accepts (jobs_create flags) args c = NamesImage flags args c
Accepts (jobs_list flags) args c = c ≡ lists_jobs flags
Accepts (tasks_list flags existing) args c =
    (ids : List ℕ) × AreIds args ids × (args ≢ []) × (c ≡ lists_tasks ids flags)
Accepts (nodes_list flags) args c = c ≡ lists_nodes flags
Accepts jobs_get args c = NamesId gets_job args c
Accepts jobs_cancel args c = NamesId cancels_job args c
Accepts tasks_get args c = NamesId gets_task args c
Accepts tasks_cancel args c = NamesId cancels_task args c
Accepts tasks_iter args c = NamesId (λ id. iterates_tasks id false) args c
Accepts nodes_get args c = NamesId gets_node args c
Accepts models_cpu args c = NamesClass cpu lists_cpu_models args c
Accepts models_gpu args c = NamesClass gpu lists_gpu_models args c
Accepts models_disk args c = NamesClass disk lists_disk_models args c
Accepts models_memory args c = (args ≡ []) × (c ≡ lists_memory_models)

no_args :
    (c c' : SchedulerCommand) (args : List String)
    → ((accepts (maximum_n_args 0) (length args) ≡ true) × (runs c' ≡ runs c))
      ↔ ((args ≡ []) × (c ≡ c'))
no_args c c' [] =
    ((λ (n, e). (refl, ground (arith, e))), λ (n, e). (ground arith, ground (arith, e)))
no_args c c' (a ∷ args) = ((λ (n, e). absurd (ground (arith, n))), λ (n, e). absurd cc)

listed : (c c' : SchedulerCommand) → ((true ≡ true) × (runs c' ≡ runs c)) ↔ (c ≡ c')
listed c c' = ((λ (n, e). ground (arith, e)), λ e. (refl, ground (arith, e)))

run_line-Accepts :
    (cobra : Cobra) (line : CommandLine) (args : List String) (c : SchedulerCommand)
    → ((accepts (args_of line) (length args) ≡ true) × (run_line cobra line args ≡ runs c))
      ↔ Accepts line args c
unfolding args_of run_line
run_line-Accepts cobra (jobs_create flags) args c = create_job_cmd-NamesImage flags args c
run_line-Accepts cobra (jobs_list flags) args c = listed c (lists_jobs flags)
run_line-Accepts cobra (tasks_list flags existing) args c = list_of_ids-AreIds flags args c
run_line-Accepts cobra (nodes_list flags) args c = listed c (lists_nodes flags)
run_line-Accepts cobra jobs_get args c = with_id-NamesId "Job" gets_job c args
run_line-Accepts cobra jobs_cancel args c = with_id-NamesId "Job" cancels_job c args
run_line-Accepts cobra tasks_get args c = with_id-NamesId "Task" gets_task c args
run_line-Accepts cobra tasks_cancel args c = with_id-NamesId "Task" cancels_task c args
run_line-Accepts cobra tasks_iter args c =
    with_id-NamesId "Job" (λ id. iterates_tasks id false) c args
run_line-Accepts cobra nodes_get args c = with_id-NamesId "Node" gets_node c args
run_line-Accepts cobra models_cpu args c = with_class-NamesClass cobra cpu lists_cpu_models c args
run_line-Accepts cobra models_gpu args c = with_class-NamesClass cobra gpu lists_gpu_models c args
run_line-Accepts cobra models_disk args c =
    with_class-NamesClass cobra disk lists_disk_models c args
run_line-Accepts cobra models_memory args c = no_args c lists_memory_models args

-- A command with arguments never reads an argument that is not there, and it calls a controller exactly
-- when the arguments are those that it is for: one positive number for a command on one job, task or
-- node; such numbers only, and one at least, to list tasks; an image and perhaps a command to create a
-- job. The models of hardware are asked for with the class 0, whatever class the argument names, and
-- tasks are always iterated without the existing ones. The condition is that the check of the number of
-- arguments is as documented.
pub execute-Accepts :
    (cobra : Cobra) (line : CommandLine) (args : List String) (c : SchedulerCommand)
    → IsDocumented cobra
    → (execute cobra line args ≢ out_of_range)
      × ((execute cobra line args ≡ runs c) ↔ Accepts line args c)
unfolding execute
execute-Accepts cobra line args c doc =
    let (to, from) = run_line-Accepts cobra line args c in
    let (counted, counts) = doc (args_of line) args in
    elim (Option-cases (cobra.check_args (args_of line) args)) [
      | inl p ↦ (
        execute-in_range cobra line args doc,
        ((λ e. to (counted p, ground (arith, e, p))), λ a. ground (arith, p, (from a).1)),
      )
      | inr (x, p) ↦ (
        execute-in_range cobra line args doc,
        ((λ e. absurd (ground (arith, e, p))), λ a. absurd (ground (arith, p, counts (from a).0))),
      )
    ]

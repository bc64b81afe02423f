-- ===== src/Client/Commands/InRange.antt =====
-- The accesses to `args` in the commands of client/cmd.
use Prim.Native.String.{String}
use scalemate.Prelude.{
  ℕ, ◌≡◌, ◌≢◌, true, List, [], ◌∷◌, length, arith, inl, inr, Bool-cases, Option-cases,
}
use scalemate.Client.Flags.{atoi_positive}
use scalemate.Client.Lists.{ListTasksCmdFlags}
use scalemate.Client.Requests.Own.{SchedulerCommand}
use scalemate.Client.Commands.{
  CommandLine, jobs_create, jobs_get, jobs_list, jobs_cancel, tasks_get, tasks_list, tasks_cancel,
  tasks_iter, nodes_get, nodes_list, models_cpu, models_gpu, models_disk, models_memory, accepts,
  exact_args, args_of, ClassKind, Cobra, IsDocumented, out_of_range, with_id, is_class, with_class,
  JobIds, valid_ids, invalid_id, list_of_ids, parse_ids, create_job_cmd, run_line, execute,
}

with_id-in_range :
    (what : String) (to : ℕ → SchedulerCommand) (args : List String)
    → accepts (exact_args 1) (length args) ≡ true
    → with_id what to args ≢ out_of_range
unfolding with_id
with_id-in_range what to [] n e = absurd (ground (arith, n))
with_id-in_range what to (a ∷ args) n e = elim (Option-cases (atoi_positive a)) [
  | inl p ↦ ground (arith, e, p)
  | inr (i, p) ↦ ground (arith, e, p)
]

with_class-in_range :
    (cobra : Cobra) (kind : ClassKind) (to : ℕ → SchedulerCommand) (args : List String)
    → with_class cobra kind to args ≢ out_of_range
unfolding with_class
with_class-in_range cobra kind to [] e = ground (arith, e)
with_class-in_range cobra kind to (a ∷ args) e =
    elim (Bool-cases (is_class kind (atoi_positive a))) [
      | inl p ↦ ground (arith, e, p)
      | inr p ↦ ground (arith, e, p)
    ]

list_of_ids-in_range : (flags : ListTasksCmdFlags) (r : JobIds) → list_of_ids flags r ≢ out_of_range
list_of_ids-in_range flags (invalid_id a) e = ground (arith, e)
list_of_ids-in_range flags (valid_ids ids) e = ground (arith, e)

run_line-in_range :
    (cobra : Cobra) (line : CommandLine) (args : List String)
    → accepts (args_of line) (length args) ≡ true
    → run_line cobra line args ≢ out_of_range
unfolding args_of run_line create_job_cmd
run_line-in_range cobra (jobs_create flags) [] n e = absurd (ground (arith, n))
run_line-in_range cobra (jobs_create flags) (a ∷ []) n e = ground (arith, e)
run_line-in_range cobra (jobs_create flags) (a ∷ b ∷ []) n e = ground (arith, e)
run_line-in_range cobra (jobs_create flags) (a ∷ b ∷ c ∷ args) n e = ground (arith, e)
run_line-in_range cobra (jobs_list flags) args n e = ground (arith, e)
run_line-in_range cobra (tasks_list flags existing) args n e =
    list_of_ids-in_range flags (parse_ids args) e
run_line-in_range cobra (nodes_list flags) args n e = ground (arith, e)
run_line-in_range cobra jobs_get args n e = with_id-in_range _ _ args n e
run_line-in_range cobra jobs_cancel args n e = with_id-in_range _ _ args n e
run_line-in_range cobra tasks_get args n e = with_id-in_range _ _ args n e
run_line-in_range cobra tasks_cancel args n e = with_id-in_range _ _ args n e
run_line-in_range cobra tasks_iter args n e = with_id-in_range _ _ args n e
run_line-in_range cobra nodes_get args n e = with_id-in_range _ _ args n e
run_line-in_range cobra models_cpu args n e = with_class-in_range cobra _ _ args e
run_line-in_range cobra models_gpu args n e = with_class-in_range cobra _ _ args e
run_line-in_range cobra models_disk args n e = with_class-in_range cobra _ _ args e
run_line-in_range cobra models_memory args n e = ground (arith, e)

-- No command reads an argument that is not there, if the check of the number of arguments is as
-- documented.
pub execute-in_range :
    (cobra : Cobra) (line : CommandLine) (args : List String)
    → IsDocumented cobra
    → execute cobra line args ≢ out_of_range
unfolding execute
execute-in_range cobra line args doc e =
    elim (Option-cases (cobra.check_args (args_of line) args)) [
      | inl p ↦
          run_line-in_range cobra line args ((doc (args_of line) args).0 p) (ground (arith, e, p))
      | inr (x, p) ↦ ground (arith, e, p)
    ]

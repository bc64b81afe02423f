-- ===== src/Client/Requests/Own.antt =====
-- Which credentials and which user the requests of client/scheduler/controllers.go carry.
use Prim.Native.String.{String}
use scalemate.Prelude.{
  ℕ, ◌≡◌, refl, Bool, true, false, List, [], ◌∷◌, Option, none, some, same_text, Bool-cases, inl,
  inr,
}
use scalemate.Proto.{AuthTokens}
use scalemate.World.{Err, fundamental, wrap, Result, Result-cases, ok, err}
use scalemate.Shared.Auth.{Claims}
use scalemate.Client.Jobs.{Job, CreateJobCmdFlags, to_proto}
use scalemate.Client.Lists.{ListJobsCmdFlags, ListTasksCmdFlags, ListNodesCmdFlags}
use scalemate.Client.Requests.{
  SchedulerCall, ask_create_job, ask_get_job, ask_cancel_job, ask_get_task, ask_cancel_task,
  ask_get_node, ask_list_jobs, ask_list_tasks, ask_iterate_tasks, ask_list_nodes,
  ask_list_cpu_models, ask_list_gpu_models, ask_list_disk_models, ask_list_memory_models, Sent,
  SchedulerClient, send_as_user, send_named, send_public, send_job, create_job_controller,
  get_job_controller, list_jobs_controller, cancel_job_controller, get_task_controller,
  list_tasks_controller, cancel_task_controller, iterate_tasks_controller, get_node_controller,
  list_nodes_controller, list_cpu_models_controller, list_gpu_models_controller,
  list_disk_models_controller, list_memory_models_controller,
}

-- The commands, with their arguments and flags.
pub data SchedulerCommand : Type 0 where
  creates_job : String → String → CreateJobCmdFlags → SchedulerCommand
  gets_job cancels_job gets_task cancels_task gets_node : ℕ → SchedulerCommand
  lists_jobs : ListJobsCmdFlags → SchedulerCommand
  lists_tasks : List ℕ → ListTasksCmdFlags → SchedulerCommand
  iterates_tasks : ℕ → Bool → SchedulerCommand
  lists_nodes : ListNodesCmdFlags → SchedulerCommand
  lists_cpu_models lists_gpu_models lists_disk_models : ℕ → SchedulerCommand
  lists_memory_models : SchedulerCommand

-- The user that a call names.
abbrev pub user_of : SchedulerCall → Option String
user_of (ask_create_job j) = some j.username
user_of (ask_list_jobs r) = some r.username
user_of (ask_list_tasks r) = some r.username
user_of _ = none

-- The calls on nodes and on models of hardware, which the service answers to everybody.
abbrev pub is_public : SchedulerCall → Bool
is_public (ask_get_node _) = true
is_public (ask_list_nodes _) = true
is_public (ask_list_cpu_models _) = true
is_public (ask_list_gpu_models _) = true
is_public (ask_list_disk_models _) = true
is_public ask_list_memory_models = true
is_public _ = false

module _ {A : Type 0} (c : SchedulerClient A) where
  unfoldable pub run_command : SchedulerCommand → Result A × List Sent
  run_command (creates_job image command flags) = create_job_controller c image command flags
  run_command (gets_job id) = get_job_controller c id
  run_command (cancels_job id) = cancel_job_controller c id
  run_command (gets_task id) = get_task_controller c id
  run_command (cancels_task id) = cancel_task_controller c id
  run_command (gets_node id) = get_node_controller c id
  run_command (lists_jobs flags) = list_jobs_controller c flags
  run_command (lists_tasks ids flags) = list_tasks_controller c ids flags
  run_command (iterates_tasks id existing) = iterate_tasks_controller c id existing
  run_command (lists_nodes flags) = list_nodes_controller c flags
  run_command (lists_cpu_models class) = list_cpu_models_controller c class
  run_command (lists_gpu_models class) = list_gpu_models_controller c class
  run_command (lists_disk_models class) = list_disk_models_controller c class
  run_command lists_memory_models = list_memory_models_controller c

  -- If the call names a user, it is the user of the tokens.
  abbrev pub NamesOwner : AuthTokens → Option String → Type 0
  NamesOwner t none = Unit
  NamesOwner t (some username) =
      (claims : Claims) × (c.parse_token t.access_token ≡ ok claims) × (username ≡ claims.username)

  -- The credentials and the user of a call: the saved tokens and their user, or no tokens.
  pub data IsOwn (s : Sent) : Type 0 where
    as_user :
        (t : AuthTokens)
        → s.tokens ≡ some t
        → c.on_load ≡ ok t
        → is_public s.call ≡ false
        → NamesOwner t (user_of s.call)
        → IsOwn s
    as_nobody : s.tokens ≡ none → is_public s.call ≡ true → user_of s.call ≡ none → IsOwn s

  -- Nothing was sent and there is an error, or one call was sent and its answer returned.
  pub data Sends (run : Result A × List Sent) : Type 0 where
    sends_nothing : (e : Err) → run ≡ (err e, []) → Sends run
    sends_one : (s : Sent) → run ≡ (c.service s, s ∷ []) → IsOwn s → Sends run

  send_public-Sends :
      (call : SchedulerCall)
      → is_public call ≡ true
      → user_of call ≡ none
      → Sends (send_public c call)
  send_public-Sends call p q =
      sends_one (record { tokens = none; call = call }) refl (as_nobody refl p q)

  send_as_user-Sends :
      (call : SchedulerCall)
      → is_public call ≡ false
      → user_of call ≡ none
      → Sends (send_as_user c call)
  send_as_user-Sends call p q = elim (Result-cases c.on_load) [
    | inl (e, l) ↦
        sends_nothing (wrap e "failed to load authentication tokens. Are you logged in?")
          (rw l refl)
    | inr (t, l) ↦
        sends_one (record { tokens = some t; call = call }) (rw l refl)
          (as_user t refl l p (rw q tt))
  ]

  send_named-Sends :
      (call : String → SchedulerCall)
      → ((username : String) → is_public (call username) ≡ false)
      → ((username : String) → user_of (call username) ≡ some username)
      → Sends (send_named c call)
  send_named-Sends call p q = elim (Result-cases c.on_load) [
    | inl (e, l) ↦
        sends_nothing (wrap e "failed to load authentication tokens. Are you logged in?")
          (rw l refl)
    | inr (t, l) ↦ elim (Result-cases (c.parse_token t.access_token)) [
      | inl (e, m) ↦
          sends_nothing (wrap e "failed to parse authentication tokens. Try re-login")
            (rw (l, m) refl)
      | inr (claims, m) ↦
          sends_one (record { tokens = some t; call = call claims.username }) (rw (l, m) refl)
            (as_user t refl l (p claims.username) (rw (q claims.username) (claims, m, refl)))
    ]
  ]

  send_job-Sends :
      (image command : String) (parsed : Result Job) → Sends (send_job c image command parsed)
  send_job-Sends image command (err e) = sends_nothing (wrap e "failed to parse flags") refl
  send_job-Sends image command (ok j) = elim (Bool-cases (same_text image "")) [
    | inl q ↦ sends_nothing (fundamental "image is an empty string") (rw q refl)
    | inr q ↦ rw q (send_named-Sends _ (λ username. refl) (λ username. refl))
  ]

  -- Each command on jobs, tasks and nodes sends one call at most and returns its answer; if it sends
  -- none it returns an error. The call carries the saved tokens, and where it names a user that is the
  -- user of their claims; only the calls that everybody may make carry no tokens, and name nobody.
  pub run_command-Sends : (command : SchedulerCommand) → Sends (run_command command)
  unfolding run_command create_job_controller get_job_controller cancel_job_controller
      get_task_controller cancel_task_controller get_node_controller list_jobs_controller
      list_tasks_controller iterate_tasks_controller list_nodes_controller
      list_cpu_models_controller list_gpu_models_controller list_disk_models_controller
      list_memory_models_controller
  run_command-Sends (creates_job image command flags) =
      send_job-Sends image command (to_proto flags)
  run_command-Sends (gets_job id) = send_as_user-Sends (ask_get_job id) refl refl
  run_command-Sends (cancels_job id) = send_as_user-Sends (ask_cancel_job id) refl refl
  run_command-Sends (gets_task id) = send_as_user-Sends (ask_get_task id) refl refl
  run_command-Sends (cancels_task id) = send_as_user-Sends (ask_cancel_task id) refl refl
  run_command-Sends (gets_node id) = send_public-Sends (ask_get_node id) refl refl
  run_command-Sends (lists_jobs flags) = send_named-Sends _ (λ username. refl) (λ username. refl)
  run_command-Sends (lists_tasks ids flags) =
      send_named-Sends _ (λ username. refl) (λ username. refl)
  run_command-Sends (iterates_tasks id existing) =
      send_as_user-Sends (ask_iterate_tasks id existing) refl refl
  run_command-Sends (lists_nodes flags) = send_public-Sends _ refl refl
  run_command-Sends (lists_cpu_models class) =
      send_public-Sends (ask_list_cpu_models class) refl refl
  run_command-Sends (lists_gpu_models class) =
      send_public-Sends (ask_list_gpu_models class) refl refl
  run_command-Sends (lists_disk_models class) =
      send_public-Sends (ask_list_disk_models class) refl refl
  run_command-Sends lists_memory_models = send_public-Sends ask_list_memory_models refl refl

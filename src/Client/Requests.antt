-- ===== src/Client/Requests.antt =====
-- client/scheduler/controllers.go: the requests that the client's commands make of the scheduler. The
-- answers of the service, the file of tokens and the parsing of tokens are arguments. The credentials
-- of a request are made from the tokens that it carries here.
pub mod Own
use Prim.Native.String.{String}
use scalemate.Prelude.{
  ℕ, Bool, true, false, List, [], ◌∷◌, Option, none, some, if◌then◌else◌, same_text,
}
use scalemate.Proto.{AuthTokens, ListJobsRequest, ListTasksRequest, ListNodesRequest}
use scalemate.World.{fundamental, wrap, Result, ok, err}
use scalemate.Shared.Auth.{Claims, Jwt}
use scalemate.Client.Jobs.{CreateJobCmdFlags, RunConfig, Job, to_proto}
use scalemate.Client.Lists.{
  ListJobsCmdFlags, ListTasksCmdFlags, ListNodesCmdFlags, list_jobs_to_proto, list_tasks_to_proto,
  list_nodes_to_proto,
}

-- The methods of the scheduler, with what is sent.
pub data SchedulerCall : Type 0 where
  ask_create_job : Job → SchedulerCall
  ask_get_job ask_cancel_job ask_get_task ask_cancel_task ask_get_node : ℕ → SchedulerCall
  ask_list_jobs : ListJobsRequest → SchedulerCall
  ask_list_tasks : ListTasksRequest → SchedulerCall
  ask_iterate_tasks : ℕ → Bool → SchedulerCall
  ask_list_nodes : ListNodesRequest → SchedulerCall
  ask_list_cpu_models ask_list_gpu_models ask_list_disk_models : ℕ → SchedulerCall
  ask_list_memory_models : SchedulerCall

-- A call, with the tokens of its credentials if it has any.
pub record Sent : Type 0 where
  pub tokens : Option AuthTokens
  pub call : SchedulerCall

pub record SchedulerClient (A : Type 0) : Type 0 where
  pub on_load : Result AuthTokens
  pub parse_token : String → Result Claims  -- `NewClaimsFromString`
  pub service : Sent → Result A

module _ {A : Type 0} (c : SchedulerClient A) where
  abbrev send_call : Sent → Result A × List Sent
  send_call s = (c.service s, s ∷ [])

  abbrev pub loaded_tokens : Result AuthTokens
  loaded_tokens = elim c.on_load [
    | ok t ↦ ok t
    | err e ↦ err (wrap e "failed to load authentication tokens. Are you logged in?")
  ]

  abbrev pub parsed_claims : AuthTokens → Result Claims
  parsed_claims t = elim (c.parse_token t.access_token) [
    | ok claims ↦ ok claims
    | err e ↦ err (wrap e "failed to parse authentication tokens. Try re-login")
  ]

  abbrev with_value : {B : Type 0} → Result B → (B → Result A × List Sent) → Result A × List Sent
  with_value (ok b) f = f b
  with_value (err e) f = (err e, [])

  -- A call with the saved tokens.
  abbrev send_as_user : SchedulerCall → Result A × List Sent
  send_as_user call =
      with_value loaded_tokens λ t. send_call (record { tokens = some t; call = call })

  -- A call that names the user of the saved tokens.
  abbrev pub send_named : (String → SchedulerCall) → Result A × List Sent
  send_named call = with_value loaded_tokens λ t.
      with_value (parsed_claims t)
        λ claims. send_call (record { tokens = some t; call = call claims.username })

  abbrev send_public : SchedulerCall → Result A × List Sent
  send_public call = send_call (record { tokens = none; call = call })

  -- The job of the flags with the image and the command.
  abbrev pub named_job : Job → String → String → String → Job
  named_job j image command username = record j {
    username = username;
    run_config = record (j.run_config) { image = image; command = command };
  }

  -- The end of `CreateJobController`, with the job of the flags.
  abbrev pub send_job : String → String → Result Job → Result A × List Sent
  send_job image command (err e) = (err (wrap e "failed to parse flags"), [])
  send_job image command (ok j) =
      if same_text image ""
      then (err (fundamental "image is an empty string"), [])
      else send_named (λ username. ask_create_job (named_job j image command username))

  unfoldable pub create_job_controller : String → String → CreateJobCmdFlags → Result A × List Sent
  create_job_controller image command flags = send_job image command (to_proto flags)

  unfoldable pub get_job_controller : ℕ → Result A × List Sent
  get_job_controller job_id = send_as_user (ask_get_job job_id)

  unfoldable pub list_jobs_controller : ListJobsCmdFlags → Result A × List Sent
  list_jobs_controller flags =
      send_named
        λ username. ask_list_jobs (record (list_jobs_to_proto flags) { username = username })

  unfoldable pub cancel_job_controller : ℕ → Result A × List Sent
  cancel_job_controller job_id = send_as_user (ask_cancel_job job_id)

  unfoldable pub get_task_controller : ℕ → Result A × List Sent
  get_task_controller task_id = send_as_user (ask_get_task task_id)

  unfoldable pub list_tasks_controller : List ℕ → ListTasksCmdFlags → Result A × List Sent
  list_tasks_controller job_ids flags = send_named λ username.
      ask_list_tasks (record (list_tasks_to_proto flags) { username = username; job_id = job_ids })

  unfoldable pub cancel_task_controller : ℕ → Result A × List Sent
  cancel_task_controller task_id = send_as_user (ask_cancel_task task_id)

  unfoldable pub iterate_tasks_controller : ℕ → Bool → Result A × List Sent
  iterate_tasks_controller job_id include_existing =
      send_as_user (ask_iterate_tasks job_id include_existing)

  unfoldable pub get_node_controller : ℕ → Result A × List Sent
  get_node_controller node_id = send_public (ask_get_node node_id)

  unfoldable pub list_nodes_controller : ListNodesCmdFlags → Result A × List Sent
  list_nodes_controller flags = send_public (ask_list_nodes (list_nodes_to_proto flags))

  unfoldable pub list_cpu_models_controller : ℕ → Result A × List Sent
  list_cpu_models_controller class = send_public (ask_list_cpu_models class)

  unfoldable pub list_gpu_models_controller : ℕ → Result A × List Sent
  list_gpu_models_controller class = send_public (ask_list_gpu_models class)

  unfoldable pub list_disk_models_controller : ℕ → Result A × List Sent
  list_disk_models_controller class = send_public (ask_list_disk_models class)

  unfoldable pub list_memory_models_controller : Result A × List Sent
  list_memory_models_controller = send_public ask_list_memory_models

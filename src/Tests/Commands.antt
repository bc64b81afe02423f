-- ===== src/Tests/Commands.antt =====
-- Commands of the client.
use Prim.Native.String.{String}
use scalemate.Client.Flags.{atoi_positive, digits}
use scalemate.Client.Jobs.{CreateJobCmdFlags}
use scalemate.Client.Lists.{ListJobsCmdFlags, ListNodesCmdFlags}
use scalemate.Client.Requests.{SchedulerClient}
use scalemate.Client.Requests.Own.{
  Sends, run_command, lists_jobs, lists_cpu_models, gets_job, run_command-Sends,
}
use scalemate.Client.Commands.{
  Cobra, IsDocumented, accepts, execute, run_line, with_class, args_of, models_cpu, jobs_get, runs,
  out_of_range,
}
use scalemate.Client.Commands.Accepted.{Accepts, execute-Accepts}
use scalemate.Client.Commands.FlagSets.{apply_flags}
use scalemate.Client.Commands.JobFlags.{
  CreateJobFlag, set_flags, set_flag, default_values, cpu_limit_flag, cpu_label_flag,
}
use scalemate.Client.Commands.JobFlags.Given.{set_flags-reaches}
use scalemate.Client.Commands.ListFlags.{default_list_nodes, set_nodes_flag}
use scalemate.Client.Commands.ListFlags.Given.{
  are_accepted, nodes_flags_of, apply_flags-nodes_flags_of,
}
use scalemate.Client.Commands.Accounts.{Terminal, login_cmd, change_password_cmd, view}
use scalemate.Client.Commands.Accounts.Login.{IsGiven, login_cmd-saves}
use scalemate.Prelude.{
  ℕ, ◌≡◌, ◌≢◌, ◌↔◌, refl, true, List, [], ◌∷◌, ◌++◌, none, some, arith, inl, inr, Bool-cases,
  length, if◌then◌else◌, same_text,
}
use scalemate.Proto.{AuthTokens}
use scalemate.World.{ok}
use scalemate.Shared.Auth.{Jwt, access}
use scalemate.Tests.Fixture.{jwt, claims_of}
use scalemate.Client.Controllers.{
  ClientEnv, ClientCall, ask_password_auth, store_tokens, login_controller,
}

abbrev tokens : AuthTokens
tokens = record { access_token = "a"; refresh_token = "r" }

abbrev known_jwt : Jwt
known_jwt = record jwt { parse_unverified = λ token. ok (claims_of 10 access) }

abbrev client_env : ClientEnv
client_env = record {
  on_password_auth = λ username password. ok tokens;
  on_register = λ username email password. none;
  on_change_password = λ old username password. none;
  on_save = λ new. none;
  on_load = ok tokens;
  on_delete = none;
  validate_login = λ username password. none;
  validate_register = λ username email password. none;
}

abbrev login_calls : List ClientCall
login_calls = ask_password_auth "ann" "secret" ∷ store_tokens tokens ∷ []

login_run : login_controller client_env "ann" "secret" ≡ (ok tokens, login_calls)
unfolding login_controller
login_run = refl

-- The answers at the terminal.
abbrev terminal : Terminal
terminal = record {
  answer = λ message. if same_text message "Username" then ok "ann" else ok "secret";
  error_text = λ e. "error";
  status_from = λ e. none;
}

login_cmd-saves_example :
    (used : String) × (password : String) × (saved : AuthTokens) × IsGiven terminal "" "Username"
      used
    × IsGiven terminal "secret" "Password" password
    × (used ≢ "")
    × (password ≢ "")
    × (client_env.on_password_auth used password ≡ ok saved)
    × (client_env.on_save saved ≡ none)
    × ((login_cmd terminal client_env "" "secret").calls
        ≡ ask_password_auth used password ∷ store_tokens saved ∷ [])
unfolding login_cmd login_controller view
login_cmd-saves_example = login_cmd-saves terminal client_env "" "secret" "Logged in." refl

password_changed :
    (change_password_cmd terminal client_env known_jwt "").prompts
    ≡ "Password" ∷ "Same password again" ∷ []
unfolding change_password_cmd
password_changed = refl

-- The tokens of ann are saved, and the service answers with a number.
abbrev scheduler_client : SchedulerClient ℕ
scheduler_client = record {
  on_load = ok (record { access_token = "access"; refresh_token = "refresh" });
  parse_token = jwt.parse_unverified;
  service = λ sent. ok 7;
}

abbrev list_flags : ListJobsCmdFlags
list_flags = record { status = []; ordering = 0; limit = 10; offset = 0 }

run_command-Sends_example :
    Sends scheduler_client (run_command scheduler_client (lists_jobs list_flags))
run_command-Sends_example = run_command-Sends scheduler_client (lists_jobs list_flags)

-- A check of the number of arguments as it is documented.
abbrev pub cobra : Cobra
cobra = record {
  check_args = λ p args. if accepts p (length args) then none else some "wrong number of arguments";
  enum_options = λ kind. "options";
}

pub cobra-IsDocumented : IsDocumented cobra
cobra-IsDocumented p args = elim (Bool-cases (accepts p (length args))) [
  | inl q ↦ ((λ e. q), λ e. ground (arith, q))
  | inr q ↦ ((λ e. absurd (ground (arith, e, q))), λ e. ground (arith, e, q))
]

-- The class is not in the request.
models_run : execute cobra models_cpu ("10" ∷ []) ≡ runs (lists_cpu_models 0)
unfolding execute run_line with_class args_of atoi_positive digits
models_run = refl

execute-Accepts_example :
    (execute cobra jobs_get ("42" ∷ []) ≢ out_of_range)
    × ((execute cobra jobs_get ("42" ∷ []) ≡ runs (gets_job 42))
        ↔ Accepts jobs_get ("42" ∷ []) (gets_job 42))
execute-Accepts_example =
    execute-Accepts cobra jobs_get ("42" ∷ []) (gets_job 42) cobra-IsDocumented

abbrev one_value : List String → String → List String
one_value values value = values ++ value ∷ []

abbrev job_flags : CreateJobCmdFlags
job_flags = record default_values { cpu_limit = 2; cpu_labels = "fast" ∷ "new" ∷ [] }

flags_set :
    set_flags one_value
      (cpu_label_flag "fast" ∷ cpu_limit_flag 2 ∷ cpu_label_flag "new" ∷ [])
      default_values
    ≡ job_flags
unfolding apply_flags set_flag default_values
flags_set = refl

set_flags-reaches_example :
    ((flags : List CreateJobFlag) × (set_flags one_value flags default_values ≡ job_flags))
    ↔ (job_flags.memory_limit ≡ 0)
set_flags-reaches_example = set_flags-reaches one_value (λ xs x. refl) job_flags

abbrev nodes_flags : ListNodesCmdFlags
nodes_flags = record default_list_nodes {
  status = 1 ∷ 2 ∷ [];
  memory_available = 2048;
  disk_labels = "ssd" ∷ [];
}

apply_flags-nodes_flags_of_example :
    (are_accepted (nodes_flags_of nodes_flags) ≡ true)
    × (apply_flags
          (set_nodes_flag one_value (λ xs ys. xs ++ ys))
          (nodes_flags_of nodes_flags)
          default_list_nodes
        ≡ nodes_flags)
apply_flags-nodes_flags_of_example =
    apply_flags-nodes_flags_of one_value (λ xs ys. xs ++ ys) (λ xs x. refl) (λ xs y ys. refl)
      nodes_flags
      (record {
        statuses = refl;
        orders = refl;
        page = refl;
        cpus = refl;
        memories = refl;
        gpus = refl;
        disks = refl;
        tasks = refl;
      })

-- ===== src/Tests/Programs.antt =====
-- Runs of the client from client/main.go.

use scalemate.Prelude.{◌≡◌, ◌⊎◌, ◌↔◌, refl, true, [], ◌∷◌, none, some, same_text, if◌then◌else◌}
use scalemate.World.{Err, foreign, ok, err}
use scalemate.Client.Requests.Own.{SchedulerCommand, gets_job}
use scalemate.Client.Flags.{atoi_positive, digits}
use scalemate.Client.Commands.{jobs_get, nodes_get, with_id, execute, args_of, run_line}
use scalemate.Client.Program.{
  Host, tells, sets_level, connects, controls, parsed, scheduler_addr_flag, set_root_flag,
  set_root_flags, init_config, new_grpc_connection, call_controller, finish_line, execute_client,
  client_main,
}
use scalemate.Client.Program.Returning.{controls_of}
use scalemate.Client.Program.Calls.{IsCalledFor, client_main-IsCalledFor}
use scalemate.Tests.Commands.{cobra, cobra-IsDocumented}

abbrev refused_dial : Err
refused_dial = foreign "connection refused"

-- A host that reaches every address but the one of a service that is down.
abbrev test_host : Host
test_host = record {
  home_dir = ok "/home/ann";
  read_in_config = λ source. some "/home/ann/.scalemate.yaml";
  read_certificate = λ file. none;
  dial = λ addr. if same_text addr "dns://down:1" then some refused_dial else none;
  error_text = λ e. "failure";
  index_error = foreign "runtime error: index out of range";
  initializes_first = true;
}

client_main_calls : client_main test_host cobra (parsed [] jobs_get ("42" ∷ [])) ≡ (
  tells "Using config file: /home/ann/.scalemate.yaml\n"
      ∷ sets_level 4
      ∷ connects "dns://localhost:8000"
      ∷ connects "dns://localhost:8001"
      ∷ controls (gets_job 42)
      ∷ [],
  0,
)
unfolding client_main execute_client execute args_of run_line with_id set_root_flags init_config
    new_grpc_connection call_controller finish_line atoi_positive digits
client_main_calls = refl

-- With no home directory, the exit status is 1.
client_main_homeless :
    client_main
      (record test_host { home_dir = err refused_dial })
      cobra
      (parsed [] nodes_get ("7" ∷ []))
    ≡ (tells "failure\n" ∷ [], 1)
unfolding client_main execute_client execute args_of run_line with_id set_root_flags init_config
client_main_homeless = refl

client_main-IsCalledFor_example :
    ((controls_of (client_main test_host cobra (parsed [] jobs_get ("42" ∷ []))).0 ≡ [])
      ⊎ ((c : SchedulerCommand) × (controls_of
              (client_main test_host cobra (parsed [] jobs_get ("42" ∷ []))).0
            ≡ c ∷ [])))
    × ((c : SchedulerCommand)
        → (controls_of (client_main test_host cobra (parsed [] jobs_get ("42" ∷ []))).0 ≡ c ∷ [])
          ↔ IsCalledFor test_host (parsed [] jobs_get ("42" ∷ [])) c)
client_main-IsCalledFor_example =
    client_main-IsCalledFor test_host cobra (parsed [] jobs_get ("42" ∷ [])) cobra-IsDocumented

-- With a service that is down, the error is printed and the exit status is 0.
client_main_unreachable :
    client_main test_host cobra (parsed (scheduler_addr_flag "down:1" ∷ []) nodes_get ("7" ∷ []))
    ≡ (
      tells "Using config file: /home/ann/.scalemate.yaml\n"
          ∷ sets_level 4
          ∷ connects "dns://down:1"
          ∷ tells "Error: failure\n"
          ∷ [],
      0,
    )
unfolding client_main execute_client execute args_of run_line with_id set_root_flags set_root_flag
    init_config new_grpc_connection call_controller finish_line atoi_positive digits
client_main_unreachable = refl

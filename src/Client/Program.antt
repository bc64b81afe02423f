-- ===== src/Client/Program.antt =====
-- client/main.go, client/cmd/root.go and shared/client/client.go: a run of the client, from the flags
-- of its root command to the controller of a command on jobs, tasks, nodes or models. The parsing of
-- the command line, the home directory, the file of the configuration, the certificate and the
-- connections are arguments, as is whether the library for commands calls `initConfig` before it
-- checks the arguments or after that.
pub mod Returning
pub mod Calls
use Prim.Native.String.{String, ◌++◌}
use scalemate.Prelude.{
  ℕ, Bool, true, false, List, [], ◌∷◌, ◌++◌ as ◌+++◌, Option, none, some, if◌then◌else◌, same_text,
}
use scalemate.World.{Err, wrap, Result, ok, err}
use scalemate.Client.Requests.Own.{SchedulerCommand}
use scalemate.Client.Commands.{
  CommandLine, jobs_create, jobs_get, jobs_list, jobs_cancel, tasks_get, tasks_list, tasks_cancel,
  tasks_iter, Cobra, Outcome, runs, prints, refused, out_of_range, execute,
}

-- The variables of the flags of the root command.
pub record RootFlags : Type 0 where
  pub cfg_file : String
  pub log_level : ℕ
  pub accounts_service_addr : String
  pub scheduler_service_addr : String

pub data RootFlag : Type 0 where
  config_flag accounts_addr_flag scheduler_addr_flag : String → RootFlag
  log_level_flag : ℕ → RootFlag

-- Their values before any flag is given; the level is `logrus.InfoLevel`.
abbrev pub default_root_flags : RootFlags
default_root_flags = record {
  cfg_file = "";
  log_level = 4;
  accounts_service_addr = "localhost:8000";
  scheduler_service_addr = "localhost:8001";
}

unfoldable pub set_root_flag : RootFlag → RootFlags → RootFlags
set_root_flag (config_flag v) f = record f { cfg_file = v }
set_root_flag (accounts_addr_flag v) f = record f { accounts_service_addr = v }
set_root_flag (scheduler_addr_flag v) f = record f { scheduler_service_addr = v }
set_root_flag (log_level_flag n) f = record f { log_level = n }

unfoldable pub set_root_flags : List RootFlag → RootFlags → RootFlags
set_root_flags [] f = f
set_root_flags (flag ∷ flags) f = set_root_flags flags (set_root_flag flag f)

-- Where viper looks for the configuration: in the file of the flag, or for a name in a directory.
pub data ConfigSource : Type 0 where
  config_file : String → ConfigSource
  config_search : (directory name : String) → ConfigSource

pub record Host : Type 0 where
  pub home_dir : Result String
  pub read_in_config : ConfigSource → Option String  -- the file that was read, if one was
  pub read_certificate : String → Option Err
  pub dial : String → Option Err
  pub error_text : Err → String
  pub index_error : Err  -- the run-time error of an index out of range
  pub initializes_first : Bool

-- What the client does.
pub data Step : Type 0 where
  tells : String → Step  -- on the standard output
  sets_level : ℕ → Step
  connects : String → Step
  controls : SchedulerCommand → Step

-- Where a part of the program ends: it returns, or the process exits, or there is a panic.
pub data Ending (A : Type 0) : Type 0 where
  returns : A → Ending A
  exits_with : ℕ → Ending A
  panics_with : Err → Ending A

abbrev pub Ran : Type 0 → Type 0
Ran A = List Step × Ending A

abbrev pub and_then : {A B : Type 0} → Ran A → (A → Ran B) → Ran B
and_then (steps, returns a) next = (steps +++ (next a).0, (next a).1)
and_then (steps, exits_with n) next = (steps, exits_with n)
and_then (steps, panics_with e) next = (steps, panics_with e)

abbrev pub one_step : Step → Ran (Unit {0})
one_step step = (step ∷ [], returns tt)

abbrev pub with_name : Option String → Ran (Unit {0})
with_name none = ([], returns tt)
with_name (some file) = one_step (tells ("Using config file: " ++ file ++ "\n"))

-- The message of an error of the library, and the exit.
abbrev pub print_and_exit : String → ℕ → Ran (Unit {0})
print_and_exit message n = (tells (message ++ "\n") ∷ [], exits_with n)

module _ (host : Host) where
  abbrev search_home : String → Result String → Ran (Unit {0})
  search_home name (err e) = print_and_exit (host.error_text e) 1
  search_home name (ok home) = with_name (host.read_in_config (config_search home name))

  -- `initConfig`, with the name of the file that it searches in the home directory.
  unfoldable pub init_config : (name cfg : String) → Ran (Unit {0})
  init_config name cfg =
      if same_text cfg ""
      then search_home name host.home_dir
      else with_name (host.read_in_config (config_file cfg))

  abbrev dialled : String → Option Err → Ran (Unit {0})
  dialled addr (some e) =
      (connects addr ∷ [], panics_with (wrap e "could not connect to a gRPC service"))
  dialled addr none = one_step (connects addr)

  abbrev with_certificate : String → Option Err → Ran (Unit {0})
  with_certificate addr (some e) = ([], panics_with e)
  with_certificate addr none = dialled addr (host.dial addr)

  unfoldable pub new_grpc_connection : String → Ran (Unit {0})
  new_grpc_connection addr = with_certificate addr (host.read_certificate "cert/cert.pem")

  abbrev pub new_accounts_client : String → Ran (Unit {0})
  new_accounts_client addr = new_grpc_connection ("dns://" ++ addr)

  abbrev pub new_scheduler_client : String → Ran (Unit {0})
  new_scheduler_client addr = new_grpc_connection ("dns://" ++ addr)

-- The commands whose controller gets a client of the accounts service for its credentials.
abbrev pub needs_accounts : CommandLine → Bool
needs_accounts (jobs_create _) = true
needs_accounts (jobs_list _) = true
needs_accounts (tasks_list _ _) = true
needs_accounts jobs_get = true
needs_accounts jobs_cancel = true
needs_accounts tasks_get = true
needs_accounts tasks_cancel = true
needs_accounts tasks_iter = true
needs_accounts _ = false

-- What the library makes of the command line: the flags of the root command and a command with its
-- flags and arguments, or an error.
pub data Invocation : Type 0 where
  parsed : List RootFlag → CommandLine → List String → Invocation
  rejected : String → Invocation

module _ (host : Host) (cobra : Cobra) where
  -- The clients are made before the controller is called, as its arguments.
  unfoldable pub call_controller : RootFlags → (accounts : Bool) → SchedulerCommand → Ran (Unit {0})
  call_controller f true c =
      and_then (new_accounts_client host f.accounts_service_addr) λ _.
        and_then (new_scheduler_client host f.scheduler_service_addr) λ _. one_step (controls c)
  call_controller f false c =
      and_then (new_scheduler_client host f.scheduler_service_addr) λ _. one_step (controls c)

  -- The functions `PersistentPreRun` and `Run`, or the error of the library for `Execute`.
  unfoldable pub finish_line : RootFlags → (accounts : Bool) → Outcome → Ran (Unit {0})
  finish_line f accounts (runs c) =
      and_then (one_step (sets_level f.log_level)) λ _. call_controller f accounts c
  finish_line f accounts (prints message) =
      (sets_level f.log_level ∷ tells message ∷ [], returns tt)
  finish_line f accounts out_of_range = (sets_level f.log_level ∷ [], panics_with host.index_error)
  finish_line f accounts (refused message) = print_and_exit message 1

  -- `initConfig` and the rest, where the check of the arguments may come first.
  abbrev pub in_order : (first : Bool) → RootFlags → Bool → Outcome → Ran (Unit {0})
  in_order false f accounts (refused message) = print_and_exit message 1
  in_order _ f accounts o =
      and_then (init_config host ".scalemate" f.cfg_file) λ _. finish_line f accounts o

  -- `Execute`.
  unfoldable pub execute_client : Invocation → Ran (Unit {0})
  execute_client (rejected message) = print_and_exit message 1
  execute_client (parsed flags line args) =
      in_order host.initializes_first (set_root_flags flags default_root_flags)
        (needs_accounts line) (execute cobra line args)

  -- The deferred function of `main`, and the exit status.
  abbrev pub recovered : Ran (Unit {0}) → List Step × ℕ
  recovered (steps, returns _) = (steps, 0)
  recovered (steps, exits_with n) = (steps, n)
  recovered (steps, panics_with e) =
      (steps +++ (tells ("Error: " ++ host.error_text e ++ "\n") ∷ []), 0)

  unfoldable pub client_main : Invocation → List Step × ℕ
  client_main i = recovered (execute_client i)

-- `initConfig` of agent/cmd/root.go.
abbrev agent_init_config : Host → (cfg : String) → Ran (Unit {0})
agent_init_config host cfg = init_config host ".agent" cfg

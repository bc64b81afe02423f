-- ===== src/Client/Jobs.antt =====
-- client/scheduler/flags.go: the job that the flags of `scalemate jobs create` describe. A float32 is
-- its bits; a nil map is a map with no entries.
use Prim.Native.String.{String}
use scalemate.Prelude.{ℕ, ◌≡◌, Bool, List, [], arith, inl, inr}
use scalemate.World.{wrap, Result, Result-cases, ok, err}
use scalemate.Client.Flags.{parse_path_defs, parse_ports, parse_env_vars}
use scalemate.Client.Ports.{ArePorts, parse_ports-ArePorts}

pub record CreateJobCmdFlags : Type 0 where
  pub ports : List String
  pub volumes : List String
  pub download_paths : List String
  pub download_exclude : List String
  pub upload_paths : List String
  pub upload_exclude : List String
  pub env_vars : List String
  pub entrypoint : String
  pub cpu_limit : ℕ
  pub cpu_class : ℕ
  pub gpu_limit : ℕ
  pub gpu_class : ℕ
  pub disk_limit : ℕ
  pub disk_class : ℕ
  pub memory_limit : ℕ
  pub restart_policy : ℕ
  pub reschedule_policy : ℕ
  pub cpu_labels : List String
  pub gpu_labels : List String
  pub disk_labels : List String
  pub memory_labels : List String
  pub username_labels : List String
  pub name_labels : List String
  pub other_labels : List String
  pub is_daemon : Bool

-- `Job_RunConfig`; the image and the command are no flags.
pub record RunConfig : Type 0 where
  pub image : String
  pub command : String
  pub entrypoint : String
  pub upload_paths_exclude : List String
  pub download_paths_exclude : List String
  pub restart_policy : ℕ
  pub volumes : List (String × String)
  pub upload_paths : List (String × String)
  pub download_paths : List (String × String)
  pub ports : List (ℕ × ℕ)
  pub environment_variables : List (String × String)

-- `Job`, the fields that the client fills.
pub record Job : Type 0 where
  pub username : String
  pub run_config : RunConfig
  pub cpu_limit : ℕ
  pub cpu_class : ℕ
  pub gpu_limit : ℕ
  pub gpu_class : ℕ
  pub disk_limit : ℕ
  pub disk_class : ℕ
  pub memory_limit : ℕ
  pub reschedule_policy : ℕ
  pub cpu_labels : List String
  pub gpu_labels : List String
  pub disk_labels : List String
  pub memory_labels : List String
  pub username_labels : List String
  pub name_labels : List String
  pub other_labels : List String
  pub is_daemon : Bool

-- The job with a given run configuration.
abbrev pub job_of_flags : CreateJobCmdFlags → RunConfig → Job
job_of_flags f run_config = record {
  username = "";
  run_config = run_config;
  cpu_limit = f.cpu_limit;
  cpu_class = f.cpu_class;
  gpu_limit = f.gpu_limit;
  gpu_class = f.gpu_class;
  disk_limit = f.disk_limit;
  disk_class = f.disk_class;
  memory_limit = f.memory_limit;
  reschedule_policy = f.reschedule_policy;
  cpu_labels = f.cpu_labels;
  gpu_labels = f.gpu_labels;
  disk_labels = f.disk_labels;
  memory_labels = f.memory_labels;
  username_labels = f.username_labels;
  name_labels = f.name_labels;
  other_labels = f.other_labels;
  is_daemon = f.is_daemon;
}

-- The run configuration with the values that were parsed.
abbrev run_config_of_flags :
    CreateJobCmdFlags
    → (volumes upload_paths download_paths : List (String × String)) → List (ℕ × ℕ)
    → List (String × String)
    → RunConfig
run_config_of_flags f volumes upload_paths download_paths ports environment_variables = record {
  image = "";
  command = "";
  entrypoint = f.entrypoint;
  upload_paths_exclude = f.upload_exclude;
  download_paths_exclude = f.download_exclude;
  restart_policy = f.restart_policy;
  volumes = volumes;
  upload_paths = upload_paths;
  download_paths = download_paths;
  ports = ports;
  environment_variables = environment_variables;
}

infixl 5 ◌then_do◌
-- Go on with the value; an error is returned.
abbrev ◌then_do◌ : {A : Type 0} {B : Type 0} → Result A → (A → Result B) → Result B
ok a then_do f = f a
err e then_do f = err e

abbrev wrap_error : {A : Type 0} → String → Result A → Result A
wrap_error message (ok a) = ok a
wrap_error message (err e) = err (wrap e message)

-- `CreateJobCmdFlags.ToProto`
unfoldable pub to_proto : CreateJobCmdFlags → Result Job
to_proto f =
    wrap_error "failed to parse volumes flag" (parse_path_defs [] f.volumes) then_do λ volumes.
    wrap_error "failed to parse upload flag" (parse_path_defs [] f.upload_paths)
    then_do λ upload_paths.
        wrap_error "failed to parse download flag" (parse_path_defs [] f.download_paths)
        then_do λ download_paths. parse_ports [] f.ports then_do λ ports.
            parse_env_vars [] f.env_vars then_do λ environment_variables. ok (
              job_of_flags f (
                run_config_of_flags f volumes upload_paths download_paths ports
                  environment_variables))

-- The flags parse to what the job holds.
pub record Describes (f : CreateJobCmdFlags) (config : RunConfig) : Type 0 where
  pub volumes : parse_path_defs [] f.volumes ≡ ok config.volumes
  pub upload_paths : parse_path_defs [] f.upload_paths ≡ ok config.upload_paths
  pub download_paths : parse_path_defs [] f.download_paths ≡ ok config.download_paths
  pub ports : parse_ports [] f.ports ≡ ok config.ports
  pub environment_variables : parse_env_vars [] f.env_vars ≡ ok config.environment_variables
  pub are_ports : ArePorts f.ports

abbrev pub FromFlags : CreateJobCmdFlags → Job → Type 0
FromFlags f job = (config : RunConfig) × Describes f config × (job ≡ job_of_flags f config)

-- A job that the flags give has their values, and a run configuration that they describe.
pub to_proto-FromFlags : (f : CreateJobCmdFlags) (job : Job) → to_proto f ≡ ok job → FromFlags f job
unfolding to_proto
to_proto-FromFlags f job eq = elim (Result-cases (parse_path_defs [] f.volumes)) [
  | inl (e, p) ↦ absurd (ground (arith, eq, p))
  | inr (v, p) ↦ elim (Result-cases (parse_path_defs [] f.upload_paths)) [
    | inl (e, q) ↦ absurd (ground (arith, eq, p, q))
    | inr (u, q) ↦ elim (Result-cases (parse_path_defs [] f.download_paths)) [
      | inl (e, r) ↦ absurd (ground (arith, eq, p, q, r))
      | inr (d, r) ↦ elim (Result-cases (parse_ports [] f.ports)) [
        | inl (e, s) ↦ absurd (ground (arith, eq, p, q, r, s))
        | inr (ps, s) ↦ elim (Result-cases (parse_env_vars [] f.env_vars)) [
          | inl (e, t) ↦ absurd (ground (arith, eq, p, q, r, s, t))
          | inr (vs, t) ↦
              let config = run_config_of_flags f v u d ps vs in
              (
                config,
                record {
                  volumes = p;
                  upload_paths = q;
                  download_paths = r;
                  ports = s;
                  environment_variables = t;
                  are_ports = (parse_ports-ArePorts f.ports).0 (ps, s);
                },
                ground (arith, eq, p, q, r, s, t),
              )
        ]
      ]
    ]
  ]
]

-- If the flags give a job then each of the flags for paths, ports and variables parses, to the entries
-- that the job holds, and the flag for ports has only pairs of positive numbers.
to_proto-Describes :
    (f : CreateJobCmdFlags) (job : Job) → to_proto f ≡ ok job → Describes f job.run_config
to_proto-Describes f job eq =
    let (config, described, e) = to_proto-FromFlags f job eq in rw e described

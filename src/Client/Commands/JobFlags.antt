-- ===== src/Client/Commands/JobFlags.antt =====
-- client/cmd/jobs.go: the flags that `scalemate jobs create` registers, each with the field that it
-- sets. What the library for flags makes of one more value of an array is an argument. A float32 is
-- its bits.
pub mod Given
use Prim.Native.String.{String}
use scalemate.Prelude.{
  ℕ, ◌≡◌, ◌∙◌, refl, Bool, false, List, [], ◌∷◌, arith, inl, inr, Bool-cases, same_text,
}
use scalemate.World.{Result, Result-cases, ok}
use scalemate.Client.Commands.FlagSets.{apply_flags, apply_flags-map}
use scalemate.Client.Jobs.{CreateJobCmdFlags, Job, to_proto, to_proto-FromFlags}
use scalemate.Client.Requests.{
  SchedulerClient, Sent, ask_create_job, create_job_controller, send_job, named_job,
}

-- The flags of `init`, with a value. There is none for the memory.
pub data CreateJobFlag : Type 0 where
  volume_flag download_flag download_exclude_flag upload_flag upload_exclude_flag port_flag :
      String → CreateJobFlag
  env_flag entrypoint_flag : String → CreateJobFlag
  cpu_limit_flag cpu_class_flag gpu_limit_flag gpu_class_flag : ℕ → CreateJobFlag
  disk_limit_flag disk_class_flag restart_flag reschedule_flag : ℕ → CreateJobFlag
  cpu_label_flag gpu_label_flag disk_label_flag memory_label_flag : String → CreateJobFlag
  username_label_flag name_label_flag other_label_flag : String → CreateJobFlag
  daemon_flag : Bool → CreateJobFlag

-- The values before any flag is given.
unfoldable pub default_values : CreateJobCmdFlags
default_values = record {
  ports = [];
  volumes = [];
  download_paths = [];
  download_exclude = [];
  upload_paths = [];
  upload_exclude = [];
  env_vars = [];
  entrypoint = "";
  cpu_limit = 0;
  cpu_class = 0;
  gpu_limit = 0;
  gpu_class = 0;
  disk_limit = 0;
  disk_class = 0;
  memory_limit = 0;
  restart_policy = 0;
  reschedule_policy = 0;
  cpu_labels = [];
  gpu_labels = [];
  disk_labels = [];
  memory_labels = [];
  username_labels = [];
  name_labels = [];
  other_labels = [];
  is_daemon = false;
}

send_job-sends :
    {A : Type 0} (c : SchedulerClient A) (image command : String) (job : Job) (answer : Result A)
    (s : Sent)
    → job.memory_limit ≡ 0
    → send_job c image command (ok job) ≡ (answer, s ∷ [])
    → (j : Job) × (s.call ≡ ask_create_job j) × (j.memory_limit ≡ 0)
send_job-sends c image command job answer s zero_limit e = elim (Bool-cases (same_text image "")) [
  | inl p ↦ absurd (ground (arith, e, p))
  | inr p ↦ elim (Result-cases c.on_load) [
    | inl (x, q) ↦ absurd (ground (arith, e, p, q))
    | inr (t, q) ↦ elim (Result-cases (c.parse_token t.access_token)) [
      | inl (x, r) ↦ absurd (ground (arith, e, p, q, r))
      | inr (claims, r) ↦
          (named_job c job image command claims.username, ground (arith, e, p, q, r), zero_limit)
    ]
  ]
]

module _ (extend : List String → String → List String) where
  -- The field that a flag sets.
  unfoldable pub set_flag : CreateJobFlag → CreateJobCmdFlags → CreateJobCmdFlags
  set_flag (volume_flag v) f = record f { volumes = extend f.volumes v }
  set_flag (download_flag v) f = record f { download_paths = extend f.download_paths v }
  set_flag (download_exclude_flag v) f = record f { download_exclude = extend f.download_exclude v }
  set_flag (upload_flag v) f = record f { upload_paths = extend f.upload_paths v }
  set_flag (upload_exclude_flag v) f = record f { upload_exclude = extend f.upload_exclude v }
  set_flag (port_flag v) f = record f { ports = extend f.ports v }
  set_flag (env_flag v) f = record f { env_vars = extend f.env_vars v }
  set_flag (entrypoint_flag v) f = record f { entrypoint = v }
  set_flag (cpu_limit_flag n) f = record f { cpu_limit = n }
  set_flag (cpu_class_flag n) f = record f { cpu_class = n }
  set_flag (gpu_limit_flag n) f = record f { gpu_limit = n }
  set_flag (gpu_class_flag n) f = record f { gpu_class = n }
  set_flag (disk_limit_flag n) f = record f { disk_limit = n }
  set_flag (disk_class_flag n) f = record f { disk_class = n }
  set_flag (restart_flag n) f = record f { restart_policy = n }
  set_flag (reschedule_flag n) f = record f { reschedule_policy = n }
  set_flag (cpu_label_flag v) f = record f { cpu_labels = extend f.cpu_labels v }
  set_flag (gpu_label_flag v) f = record f { gpu_labels = extend f.gpu_labels v }
  set_flag (disk_label_flag v) f = record f { disk_labels = extend f.disk_labels v }
  set_flag (memory_label_flag v) f = record f { memory_labels = extend f.memory_labels v }
  set_flag (username_label_flag v) f = record f { username_labels = extend f.username_labels v }
  set_flag (name_label_flag v) f = record f { name_labels = extend f.name_labels v }
  set_flag (other_label_flag v) f = record f { other_labels = extend f.other_labels v }
  set_flag (daemon_flag b) f = record f { is_daemon = b }

  -- The flags of a command line, in their order.
  abbrev pub set_flags : List CreateJobFlag → CreateJobCmdFlags → CreateJobCmdFlags
  set_flags = apply_flags set_flag

  set_flag-memory_limit :
      (flag : CreateJobFlag) (f : CreateJobCmdFlags)
      → (set_flag flag f).memory_limit ≡ f.memory_limit
  unfolding set_flag
  set_flag-memory_limit flag f = ground arith

  pub set_flags-memory_limit :
      (flags : List CreateJobFlag) (f : CreateJobCmdFlags)
      → (set_flags flags f).memory_limit ≡ f.memory_limit
  unfolding apply_flags
  set_flags-memory_limit [] f = refl
  set_flags-memory_limit (flag ∷ flags) f =
      set_flags-memory_limit flags (set_flag flag f) ∙ set_flag-memory_limit flag f

  -- Whatever flags are given to `scalemate jobs create`, the job that it sends has the limit 0 for the
  -- memory.
  create_job_controller-memory_limit :
      {A : Type 0} (c : SchedulerClient A) (image command : String) (flags : List CreateJobFlag)
      (answer : Result A) (s : Sent)
      → create_job_controller c image command (set_flags flags default_values) ≡ (answer, s ∷ [])
      → (j : Job) × (s.call ≡ ask_create_job j) × (j.memory_limit ≡ 0)
  unfolding create_job_controller default_values
  create_job_controller-memory_limit c image command flags answer s e =
      elim (Result-cases (to_proto (set_flags flags default_values))) [
        | inl (x, p) ↦ absurd (ground (arith, e, p))
        | inr (job, p) ↦
            let (config, described, q) =
              to_proto-FromFlags (set_flags flags default_values) job p in
            let zero_limit : job.memory_limit ≡ 0 =
              ground (arith, q, set_flags-memory_limit flags default_values) in
            let sent : send_job c image command (ok job) ≡ (answer, s ∷ []) = rw p at e in
            send_job-sends c image command job answer s zero_limit sent
      ]

-- ===== src/Tests/Flags.antt =====
-- Flags of the command line client.

use scalemate.Prelude.{ℕ, ◌≡◌, refl, ◌↔◌, false, List, [], ◌∷◌}
use scalemate.World.{ok}
use scalemate.Client.Flags.{
  parse_path_defs, parse_ports, parse_env_vars, parse_port, split, digits, atoi_positive,
  set_number, set_text, cut,
}
use scalemate.Client.Ports.{ArePorts, parse_ports-ArePorts}
use scalemate.Client.Jobs.{CreateJobCmdFlags, RunConfig, to_proto, job_of_flags}

-- A port beyond uint32 is accepted, and is cut off to 0.
ports_run : parse_ports [] ("80:8080" ∷ "4294967296:1" ∷ []) ≡ ok ((80, 8080) ∷ (0, 1) ∷ [])
unfolding parse_ports parse_port split digits atoi_positive set_number
ports_run = refl

parse_ports-ArePorts_example :
    ((m : List (ℕ × ℕ)) × (parse_ports [] ("80:8080" ∷ []) ≡ ok m)) ↔ ArePorts ("80:8080" ∷ [])
parse_ports-ArePorts_example = parse_ports-ArePorts ("80:8080" ∷ [])

abbrev flags : CreateJobCmdFlags
flags = record {
  ports = "80:8080" ∷ [];
  volumes = "./data:/data" ∷ [];
  download_paths = [];
  download_exclude = [];
  upload_paths = [];
  upload_exclude = [];
  env_vars = "MODE=a=b" ∷ [];
  entrypoint = "run";
  cpu_limit = 1;
  cpu_class = 0;
  gpu_limit = 0;
  gpu_class = 0;
  disk_limit = 0;
  disk_class = 0;
  memory_limit = 0;
  restart_policy = 0;
  reschedule_policy = 0;
  cpu_labels = [];
  gpu_labels = [];
  disk_labels = [];
  memory_labels = [];
  username_labels = [];
  name_labels = [];
  other_labels = [];
  is_daemon = false;
}

abbrev config : RunConfig
config = record {
  image = "";
  command = "";
  entrypoint = "run";
  upload_paths_exclude = [];
  download_paths_exclude = [];
  restart_policy = 0;
  volumes = ("./data", "/data") ∷ [];
  upload_paths = [];
  download_paths = [];
  ports = (80, 8080) ∷ [];
  environment_variables = ("MODE", "a=b") ∷ [];
}

flags_run : to_proto flags ≡ ok (job_of_flags flags config)
unfolding to_proto parse_path_defs parse_ports parse_env_vars parse_port split digits atoi_positive
    set_number set_text cut
flags_run = refl

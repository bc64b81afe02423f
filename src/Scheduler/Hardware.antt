-- ===== src/Scheduler/Hardware.antt =====
-- scheduler/server/list_cpu_models.go, list_gpu_models.go, list_disk_models.go and
-- list_memory_models.go: the models of hardware of the nodes that are online.
use Prim.Native.String.{String}
use scalemate.Prelude.{ℕ, ◌==◌, Option, none, some, if◌then◌else◌}
use scalemate.Proto.{online}
use scalemate.World.{Env, Action}
use scalemate.Shared.Utils.{handled}
use scalemate.Scheduler.Nodes.{node_status_number}

-- The parts of the query: what it selects, the status of the nodes, how it groups and orders them, and
-- the class that it keeps, by its column.
pub record ModelsQuery : Type 0 where
  pub select : String
  pub status : ℕ
  pub group : String
  pub order : String
  pub class : Option (String × ℕ)

-- Class 0 is every class.
abbrev pub class_filter : String → ℕ → Option (String × ℕ)
class_filter column class = if class == 0 then none else some (column, class)

-- `scan` runs a query; the rows are of the service's message.
module _ {A : Type 0} (env : Env) (scan : ModelsQuery → Action A) where
  unfoldable pub list_cpu_models : ℕ → Action A
  list_cpu_models class = handled env (
      scan (record {
        select =
            "cpu_model, cpu_class, SUM(cpu_capacity) AS cpu_capacity, SUM(cpu_available) AS cpu_available, COUNT(id) AS nodes_count";
        status = node_status_number online;
        group = "cpu_class, cpu_model";
        order = "cpu_class, cpu_model";
        class = class_filter "cpu_class = ?" class;
      }))

  unfoldable pub list_gpu_models : ℕ → Action A
  list_gpu_models class = handled env (
      scan (record {
        select =
            "gpu_model, gpu_class, SUM(gpu_capacity) AS gpu_capacity, SUM(gpu_available) AS gpu_available, COUNT(id) AS nodes_count";
        status = node_status_number online;
        group = "gpu_class, gpu_model";
        order = "gpu_class, gpu_model";
        class = class_filter "gpu_class = ?" class;
      }))

  unfoldable pub list_disk_models : ℕ → Action A
  list_disk_models class = handled env (
      scan (record {
        select =
            "disk_model, disk_class, SUM(disk_capacity) AS disk_capacity, SUM(disk_available) AS disk_available, COUNT(id) AS nodes_count";
        status = node_status_number online;
        group = "disk_class, disk_model";
        order = "disk_class, disk_model";
        class = class_filter "disk_class = ?" class;
      }))

  unfoldable pub list_memory_models : Action A
  list_memory_models = handled env (
      scan (record {
        select =
            "memory_model, SUM(memory_capacity) AS memory_capacity, SUM(memory_available) AS memory_available, COUNT(id) AS nodes_count";
        status = node_status_number online;
        group = "memory_model";
        order = "memory_model";
        class = none;
      }))

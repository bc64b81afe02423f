-- ===== src/Proto.antt =====
-- The messages that the services exchange and store:
-- scheduler/scheduler_proto/scheduler.proto, accounts/accounts_proto/accounts.proto and
-- shared/events_proto/events.proto. A timestamp is a number of seconds, an optional field an
-- `Option`, bytes a list of numbers. The hardware classes are the numbers of their enums.
use Prim.Native.String.{String}
use scalemate.Prelude.{ℕ, Bool, List, Option}

-- `Container.Status`
pub data ContainerStatus : Type 0 where
  new declined pending cancelled scheduled running stopped failed : ContainerStatus

-- `Limit.Status`
pub data LimitStatus : Type 0 where
  requested confirmed declined : LimitStatus

-- `Node.Status`
pub data NodeStatus : Type 0 where
  offline online shutting_down : NodeStatus

pub record Container : Type 0 where
  pub id : ℕ
  pub node_id : Option ℕ
  pub username : String
  pub status : ContainerStatus
  pub status_message : String
  pub image : String
  pub network_ingress_min : ℕ
  pub network_egress_min : ℕ
  pub cpu_class_min : ℕ
  pub cpu_class_max : ℕ
  pub gpu_class_min : ℕ
  pub gpu_class_max : ℕ
  pub disk_class_min : ℕ
  pub disk_class_max : ℕ
  pub created_at : ℕ
  pub updated_at : Option ℕ
  pub labels : List String
  pub agent_auth_token : List ℕ

-- The four amounts are uint32.
pub record Limit : Type 0 where
  pub id : ℕ
  pub container_id : ℕ
  pub cpu : ℕ
  pub memory : ℕ
  pub disk : ℕ
  pub gpu : ℕ
  pub status : LimitStatus
  pub status_message : String
  pub created_at : ℕ
  pub updated_at : Option ℕ
  pub confirmed_at : Option ℕ

pub record Node : Type 0 where
  pub id : ℕ
  pub username : String
  pub name : String
  pub status : NodeStatus
  pub cpu_capacity : ℕ
  pub cpu_available : ℕ
  pub cpu_class : ℕ
  pub memory_capacity : ℕ
  pub memory_available : ℕ
  pub gpu_capacity : ℕ
  pub gpu_available : ℕ
  pub gpu_class : ℕ
  pub disk_capacity : ℕ
  pub disk_available : ℕ
  pub disk_class : ℕ
  pub network_ingress_capacity : ℕ
  pub network_egress_capacity : ℕ
  pub labels : List String
  pub containers_finished : ℕ
  pub containers_failed : ℕ
  pub connected_at : Option ℕ
  pub disconnected_at : Option ℕ
  pub last_scheduled_at : Option ℕ
  pub created_at : ℕ
  pub updated_at : Option ℕ
  pub ip : Option (List ℕ)
  pub fingerprint : List ℕ

pub record User : Type 0 where
  pub id : ℕ
  pub username : String
  pub email : String
  pub banned : Bool
  pub created_at : ℕ
  pub updated_at : Option ℕ
  pub password_changed_at : Option ℕ

pub data UserLookupRequest : Type 0 where
  by_id : ℕ → UserLookupRequest
  by_username by_email : String → UserLookupRequest

pub record AuthTokens : Type 0 where
  pub access_token : String
  pub refresh_token : String

-- `Service` of events.proto
pub data Service : Type 0 where
  unknown accounts scheduler : Service

-- `Event.Type`
pub data EventType : Type 0 where
  unknown created updated deleted : EventType

pub data Payload : Type 0 where
  accounts_user : User → Payload
  scheduler_container : Container → Payload
  scheduler_node : Node → Payload

pub record Event : Type 0 where
  pub uuid : List ℕ
  pub event_type : EventType
  pub service : Service
  pub payload : Payload
  pub payload_mask : Option (List String)
  pub created_at : ℕ

pub record ListJobsRequest : Type 0 where
  pub username : String
  pub ordering : ℕ
  pub limit : ℕ
  pub offset : ℕ
  pub status : List ℕ

pub record ListTasksRequest : Type 0 where
  pub username : String
  pub job_id : List ℕ
  pub ordering : ℕ
  pub limit : ℕ
  pub offset : ℕ
  pub status : List ℕ

pub record ListNodesRequest : Type 0 where
  pub ordering : ℕ
  pub limit : ℕ
  pub offset : ℕ
  pub cpu_available : ℕ
  pub cpu_class : ℕ
  pub memory_available : ℕ
  pub gpu_available : ℕ
  pub gpu_class : ℕ
  pub disk_available : ℕ
  pub disk_class : ℕ
  pub cpu_labels : List String
  pub gpu_labels : List String
  pub disk_labels : List String
  pub memory_labels : List String
  pub username_labels : List String
  pub name_labels : List String
  pub other_labels : List String
  pub tasks_finished : ℕ
  pub tasks_failed : ℕ
  pub status : List ℕ

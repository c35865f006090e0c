-- ===== src/Scheduler/Types.antt =====
-- The data of gateway/scheduler/scheduler.go. Go's `int` is ℤ where the code tests its sign. A
-- `*container` is an address into the heap, since the pool, the leases and the callers of
-- `Acquire` share the same object.
use serverless.Base.{ℕ, ℤ, String, Bool, List, Dict}

pub record TriggerConfig : Type 0 where
  pub id : String
  pub kind : String
  pub enabled : Bool
  pub mq_id : String
  pub queue : String
  pub max_concurrency : ℤ
  pub prefetch : ℤ
  pub max_attempts : ℤ
  pub retry_backoff_ms : ℤ
  pub dlq : String

pub record FunctionConfig : Type 0 where
  pub name : String
  pub image : String
  pub runtime : String
  pub timeout : ℤ
  pub memory : ℤ
  pub handler : String
  pub triggers : List TriggerConfig
  pub code_dir : String
  pub code_key : String
  pub code_url : String
  pub port : ℕ

pub record MqTrigger : Type 0 where
  pub id : String
  pub kind : String
  pub enabled : Bool
  pub mq_id : String
  pub queue : String
  pub function : String
  pub max_concurrency : ℤ
  pub prefetch : ℤ
  pub max_attempts : ℤ
  pub retry_backoff_ms : ℤ
  pub dlq : String

pub record AcquireInstanceRequest : Type 0 where
  pub function : String
  pub source : String
  pub mq_id : String
  pub trigger_id : String
  pub message_id : String
  pub timeout_seconds : ℤ

pub record InstanceLease : Type 0 where
  pub lease_id : String
  pub function : String
  pub instance_id : String
  pub address : String
  pub timeout_seconds : ℤ
  pub source : String
  pub mq_id : String
  pub trigger_id : String
  pub message_id : String

-- `deadline` is in nanoseconds; `released` is the flag that `releaseInstanceLocked` tests.
pub record LeaseRecord : Type 0 where
  pub lease : InstanceLease
  pub target : ℕ
  pub deadline : ℤ
  pub released : Bool

pub data ContainerState : Type 0 where
  idle busy starting : ContainerState

-- `last_used` is in nanoseconds.
pub record Container : Type 0 where
  pub id : String
  pub addr : String
  pub state : ContainerState
  pub last_used : ℕ
  pub func_name : String
  pub node_name : String

-- What `RuntimeBackend.Start` returns (backend.go).
pub record RuntimeInstance : Type 0 where
  pub id : String
  pub addr : String
  pub func_name : String
  pub node_name : String

-- `heap` holds the container objects, of which those below `next_ptr` exist. The fields
-- `backend`, `store` and `codeStore` are outside: their answers are arguments of the operations.
pub record Scheduler : Type 0 where
  pub functions : Dict FunctionConfig
  pub pool : Dict (List ℕ)
  pub next_port : ℕ
  pub leases : Dict LeaseRecord
  pub heap : ℕ → Container
  pub next_ptr : ℕ

-- The errors, by their messages; the sentinel errors of the package are among them.
pub data Error : Type 0 where
  invalid_function_name unsupported_runtime : String → Error
  trigger_id_required : Error
  invalid_trigger_id duplicate_trigger_id unsupported_trigger_type : String → Error
  negative_field missing_field : String → String → Error
  already_registered : Error
  save_failed : String → Error
  function_not_found : String → Error
  invalid_trigger : Error
  cold_start_failed : String → Error
  lease_not_found : String → Error
  invalid_lease_status : String → Error

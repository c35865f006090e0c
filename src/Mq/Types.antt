-- ===== src/Mq/Types.antt =====
-- The data of mqsvc: config.go, broker.go, gateway_client.go and metrics.go. A body is a list of
-- bytes, and Go's `int` is ℤ where its sign is tested.
use serverless.Base.{ℕ, ℤ, String, Bool, List, Dict}

pub record MqInstance : Type 0 where
  pub mq_id : String
  pub broker : String
  pub url : String

pub record Trigger : Type 0 where
  pub id : String
  pub kind : String
  pub enabled : Bool
  pub mq_id : String
  pub queue : String
  pub function : String
  pub max_concurrency : ℤ
  pub prefetch : ℤ
  pub max_attempts : ℤ
  pub retry_backoff_ms : ℤ
  pub dlq : String
  pub broker : String

pub record Message : Type 0 where
  pub id : String
  pub body : List ℕ
  pub headers : Dict String
  pub attempts : ℤ

pub record MessageResult : Type 0 where
  pub ack : Bool
  pub dlq : Bool
  pub reason : String

-- What the gateway's answer to an acquire request holds.
pub record Grant : Type 0 where
  pub lease_id : String
  pub function : String
  pub instance_id : String
  pub address : String
  pub timeout_seconds : ℤ

-- An `int64` counter is its 64-bit pattern.
pub record TriggerMetrics : Type 0 where
  pub received : ℕ
  pub inflight : ℕ
  pub acked : ℕ
  pub retried : ℕ
  pub dlq : ℕ
  pub errors : ℕ
  pub last_error : String

-- ===== src/Scaler/Types.antt =====
-- The data of scalersvc/main.go. Floating point is a parameter: its numbers and the operations and
-- tests that the code applies to them.
use serverless.Base.{ℕ, ℤ, String, Bool, Dict}

pub record Floats : Type 1 where
  pub Float : Type 0
  pub of_int : ℤ → Float
  pub hundred : Float
  pub zero : Float
  pub divide : Float → Float → Float
  pub times : Float → Float → Float
  pub greater_equal : Float → Float → Bool
  pub greater : Float → Float → Bool

-- The latencies p50 and p95 and the use of memory and CPU are only passed on.
pub record ContainerMetrics (F : Floats) : Type 0 where
  pub container_id : String
  pub timestamp : ℕ
  pub invocation_count : ℤ
  pub success_count : ℤ
  pub error_count : ℤ
  pub p50_latency_ms : F.Float
  pub p95_latency_ms : F.Float
  pub p99_latency_ms : F.Float
  pub memory_bytes : ℤ
  pub cpu_usage_us : ℤ

pub record Policy (F : Floats) : Type 0 where
  pub target_concurrency : ℤ
  pub scale_up_util_pct : F.Float
  pub scale_up_p99_ms : F.Float
  pub scale_up_err_pct : F.Float
  pub scale_down_util_pct : F.Float
  pub scale_down_p99_ms : F.Float
  pub idle_minutes : F.Float

-- The field `action` of a decision, one constructor for each of its texts.
pub data Action : Type 0 where
  scale_up scale_down stay : Action

pub record ScaleDecision : Type 0 where
  pub func_name : String
  pub action : Action
  pub busy : ℤ
  pub idle : ℤ
  pub desired : ℤ

pub record Scaler (F : Floats) : Type 0 where
  pub pol : Policy F
  pub metrics : Dict (ContainerMetrics F)
  pub decisions : Dict ScaleDecision
  pub max_replicas : ℤ
  pub min_replicas : ℤ

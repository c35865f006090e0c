-- ===== src/Agent/Metrics.antt =====
-- runtime/cmd/agent/main.go: `record` and `snapshot`. A latency is of a type F with a test `less`
-- and a zero; an `int64` counter is its 64-bit pattern.
use serverless.Base.{
  ℕ, ◌+◌, ◌-◌, ◌*◌, ◌/◌, ◌%◌, ◌^◌, String, Bool, List, [], ◌∷◌, ◌++◌, none, some, ltb,
  if◌then◌else◌, length, drop, get_elem?, sort_by,
}

abbrev pub max_latency_window : ℕ
max_latency_window = 1000

pub record Agent (F : Type 0) : Type 0 where
  pub invocations : ℕ
  pub successes : ℕ
  pub errors : ℕ
  pub latencies : List F

-- What `snapshot` reads of the clock and the control group.
pub record Readings : Type 0 where
  pub timestamp : ℕ
  pub memory_bytes : ℕ
  pub cpu_usage_us : ℕ

pub record ContainerMetrics (F : Type 0) : Type 0 where
  pub container_id : String
  pub timestamp : ℕ
  pub invocation_count : ℕ
  pub success_count : ℕ
  pub error_count : ℕ
  pub p50_latency_ms : F
  pub p95_latency_ms : F
  pub p99_latency_ms : F
  pub memory_bytes : ℕ
  pub cpu_usage_us : ℕ

abbrev pub plus_one : ℕ → ℕ
plus_one n = (n + 1) % 2 ^ 64

module _ {F : Type 0} where
  abbrev pub new_agent : Agent F
  new_agent = record { invocations = 0; successes = 0; errors = 0; latencies = [] }

  unfoldable pub cut_window : List F → List F
  cut_window latencies =
      if ltb max_latency_window (length latencies)
      then drop (length latencies - max_latency_window) latencies
      else latencies

  -- `record`.
  unfoldable pub record_latency : F → Bool → Agent F → Agent F
  unfolding cut_window
  record_latency latency success a = record {
    invocations = plus_one a.invocations;
    successes = if success then plus_one a.successes else a.successes;
    errors = if success then a.errors else plus_one a.errors;
    latencies = cut_window (a.latencies ++ (latency ∷ []));
  }

-- The whole number p is 50, 95 or 99, so that the product is exact, and no quotient of it by 100 is
-- rounded to the next whole number before it is cut to one.
abbrev pub rank : ℕ → ℕ → ℕ
rank n p = (n - 1) * p / 100

-- `zero_latency` is 0. An index out of range, where Go panics, does not arise: see Percentile.
module _ {F : Type 0} (zero_latency : F) where
  unfoldable pub percentile : List F → ℕ → F
  percentile sorted p = elim (get_elem? sorted (rank (length sorted) p)) [
    | none ↦ zero_latency
    | some x ↦ x
  ]

  -- `less` is `<` on floating point numbers.
  unfoldable pub snapshot : (F → F → Bool) → String → Readings → Agent F → ContainerMetrics F
  unfolding sort_by percentile
  snapshot less id readings a =
      let sorted = sort_by less a.latencies in
      record {
        container_id = id;
        timestamp = readings.timestamp;
        invocation_count = a.invocations;
        success_count = a.successes;
        error_count = a.errors;
        p50_latency_ms = percentile sorted 50;
        p95_latency_ms = percentile sorted 95;
        p99_latency_ms = percentile sorted 99;
        memory_bytes = readings.memory_bytes;
        cpu_usage_us = readings.cpu_usage_us;
      }

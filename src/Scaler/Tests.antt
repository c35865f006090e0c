-- ===== src/Scaler/Tests.antt =====
-- The scaler's theorems at concrete values, with natural numbers for floating point ones.
use serverless.Base.{
  ℕ, zero, ◌/◌, ◌*◌, ◌+◌, ◌≡◌, refl, ◌≤◌, ◌<◌, ◌≤ℤ◌, ◌<ℤ◌, pos, pos_part, leb, ltb, String, Bool,
  true, false, List, [], ◌∷◌, some, lookup, str_eq, wrap64, ◌+ℤ◌, arith,
}
use serverless.Scaler.Types.{Floats, ContainerMetrics, Policy, ScaleDecision, Scaler}
use serverless.Scaler.Policy.{desired_replicas, evaluate, requests_of}
use serverless.Scaler.Bounds.{Decided, desired_replicas_covers, evaluate-Decided}

abbrev whole : Floats
whole = record {
  Float = ℕ;
  of_int = pos_part;
  hundred = 100;
  zero = 0;
  divide = λ a b. a / b;
  times = λ a b. a * b;
  greater_equal = λ a b. leb b a;
  greater = λ a b. ltb b a;
}

abbrev pol : Policy whole
pol = record {
  target_concurrency = pos 2;
  scale_up_util_pct = 80;
  scale_up_p99_ms = 500;
  scale_up_err_pct = 10;
  scale_down_util_pct = 20;
  scale_down_p99_ms = 100;
  idle_minutes = 2;
}

abbrev latency : ℕ → ℕ → ContainerMetrics whole
latency t p99 = record {
  container_id = "i1";
  timestamp = t;
  invocation_count = pos 10;
  success_count = pos 9;
  error_count = pos 1;
  p50_latency_ms = 1;
  p95_latency_ms = 2;
  p99_latency_ms = p99;
  memory_bytes = pos 0;
  cpu_usage_us = pos 0;
}

abbrev one_to_five : Scaler whole
one_to_five = record {
  pol = pol;
  metrics = ("i1", latency 100 700) ∷ ("i2", latency 10 900) ∷ [];
  decisions = [];
  max_replicas = pos 5;
  min_replicas = pos 1;
}

-- Two instances and seven requests need four replicas of two places.
four_needed : desired_replicas whole one_to_five (pos 2) (pos 1) (pos 6) 0 0 ≡ pos 4
unfolding desired_replicas serverless.Base.wrap64 serverless.Base.◌+ℤ◌
four_needed = refl

desired_replicas_covers_example :
    1 + 6 ≤ pos_part (desired_replicas whole one_to_five (pos 2) (pos 1) (pos 6) 0 0) * 2
desired_replicas_covers_example =
    desired_replicas_covers whole one_to_five 2 1 6 2 0 0 refl (omega arith) (omega arith)
      (omega arith) (rw four_needed (omega arith))

evaluate-Decided_example :
    let total = wrap64 (pos 1 +ℤ pos 1) in
    let desired = desired_replicas whole one_to_five total (pos 1) (pos 6) 0 0 in
    let (requests, after) = evaluate whole one_to_five "resize" (pos 1) (pos 1) (pos 6) 0 0 in
    (d : ScaleDecision) × (lookup "resize" after.decisions ≡ some d)
    × (d.desired ≡ desired)
    × Decided whole one_to_five desired total (pos 1) d.action
    × (requests ≡ requests_of whole d.action)
    × ((k : String)
        → str_eq "resize" k ≡ false
        → lookup k after.decisions ≡ lookup k one_to_five.decisions)
evaluate-Decided_example = evaluate-Decided whole one_to_five "resize" (pos 1) (pos 1) (pos 6) 0 0

not_less_trans : (a b c : ℕ) → ltb b a ≡ false → ltb c b ≡ false → ltb c a ≡ false
not_less_trans a b c h k = ground arith

less_irrefl : (a : ℕ) → ltb a a ≡ false
less_irrefl a = ground arith

less_asym : (a b : ℕ) → ltb b a ≡ true → ltb a b ≡ false
less_asym a b h = ground arith

-- ===== src/Agent/Tests.antt =====
-- The theorems on the agent at concrete ones, with latencies in whole milliseconds.
use serverless.Base.{
  ℕ, ◌≡◌, refl, Bool, true, false, List, [], ◌∷◌, some, ltb, IsLess, arith, ◌==◌, if◌then◌else◌,
}
use serverless.Agent.Metrics.{Agent, Readings, new_agent, snapshot}
use serverless.Agent.Window.{run, Recorded, run-Recorded}
use serverless.Agent.Percentile.{IsPercentile, snapshot-IsPercentile}
use serverless.Agent.Proxy.{Request, Upstream, Answer, failed, answered}
use serverless.Agent.Health.{handle_health, Tried, handle_health-Tried}

abbrev history : List (ℕ × Bool)
history = (30, true) ∷ (10, false) ∷ (20, true) ∷ []

run-Recorded_example : Recorded history (run history new_agent)
run-Recorded_example = run-Recorded history

ltb-IsLess : IsLess ltb
ltb-IsLess = record {
  asymmetric = λ x y h. ground (arith, h);
  transitive = λ x y z h k. ground (arith, h, k);
}

abbrev idle : Readings
idle = record { timestamp = 0; memory_bytes = 1024; cpu_usage_us = 5 }

abbrev three : Agent ℕ
three = record { invocations = 3; successes = 2; errors = 1; latencies = 30 ∷ 10 ∷ 20 ∷ [] }

snapshot-IsPercentile_example :
    let m = snapshot 0 ltb "c1" idle three in
    IsPercentile ltb 0 50 three.latencies m.p50_latency_ms
    × IsPercentile ltb 0 95 three.latencies m.p95_latency_ms
    × IsPercentile ltb 0 99 three.latencies m.p99_latency_ms
    × (ltb m.p95_latency_ms m.p50_latency_ms ≡ false)
    × (ltb m.p99_latency_ms m.p95_latency_ms ≡ false)
    × (m.invocation_count ≡ 3)
    × (m.success_count ≡ 2)
    × (m.error_count ≡ 1)
snapshot-IsPercentile_example = snapshot-IsPercentile ltb 0 ltb-IsLess "c1" idle three (omega arith)

snapshot_test : (snapshot 0 ltb "c1" idle three).p50_latency_ms ≡ 20
unfolding snapshot
snapshot_test = refl

abbrev event : Request
event = record { method = "POST"; body = some (1 ∷ 2 ∷ []); headers = λ name. "" }

-- A runtime that fails with status 500.
abbrev broken : Upstream → Answer
broken r = answered (record { status = 500; headers = []; body = [] })

-- An answer to the second try.
abbrev second_answers : ℕ → Answer
second_answers i =
    if i == 1 then answered (record { status = 200; headers = []; body = [] }) else failed

handle_health-Tried_example : Tried second_answers 0 3 (handle_health second_answers)
handle_health-Tried_example = handle_health-Tried second_answers

-- ===== src/Agent/Percentile.antt =====
-- runtime/cmd/agent/main.go: the percentiles of a snapshot.
use serverless.Base.{
  ℕ, ◌+◌, ◌≤◌, ◌<◌, ◌≡◌, refl, Bool, false, List, some, length, get_elem?, sort_by, IsLess, at_most,
  at_least, length-keep-sort_by, length-sort_by, Sorted-sort_by, Sorted-get_elem?, Sorted-monotone,
  get_elem?-some, arith, String, not,
}
use serverless.Agent.Metrics.{Agent, Readings, rank, percentile, snapshot}

module _ {F : Type 0} (less : F → F → Bool) (zero_latency : F) where
  -- More than (n - 1) * p / 100 of the n latencies are at most v, and all but so many at least v.
  abbrev pub IsPercentile : ℕ → List F → F → Type 0
  IsPercentile p xs v =
      (rank (length xs) p < at_most less v xs)
      × (length xs ≤ at_least less v xs + rank (length xs) p)

  percentile_at :
      (xs : List F) (p : ℕ) (v : F)
      → get_elem? xs (rank (length xs) p) ≡ some v
      → percentile zero_latency xs p ≡ v
  unfolding percentile
  percentile_at xs p v e = rw (percentile, e) refl

  module _ (is_less : IsLess less) where
    sorted_IsPercentile :
        (xs : List F) (p : ℕ) (v : F)
        → get_elem? (sort_by less xs) (rank (length (sort_by less xs)) p) ≡ some v
        → IsPercentile p xs (percentile zero_latency (sort_by less xs) p)
    sorted_IsPercentile xs p v e =
        let sorted = sort_by less xs in
        rw (percentile_at sorted p v e) (
          ground (
            arith,
            Sorted-get_elem? less is_less sorted (rank (length sorted) p) v
                (Sorted-sort_by less is_less xs) e,
            length-keep-sort_by less (λ y. not (less v y)) xs,
            length-keep-sort_by less (λ y. not (less y v)) xs,
            length-sort_by less xs,
          ))

    -- The snapshot of an agent with a latency has its counters, its three percentiles are such of
    -- the latencies, and they do not fall from the 50th to the 95th to the 99th; if the floating
    -- point test < is a strict order whose negation is transitive (so without NaN).
    pub snapshot-IsPercentile :
        (id : String) (readings : Readings) (a : Agent F)
        → 0 < length a.latencies
        → let m = snapshot zero_latency less id readings a in
          IsPercentile 50 a.latencies m.p50_latency_ms
          × IsPercentile 95 a.latencies m.p95_latency_ms
          × IsPercentile 99 a.latencies m.p99_latency_ms
          × (less m.p95_latency_ms m.p50_latency_ms ≡ false)
          × (less m.p99_latency_ms m.p95_latency_ms ≡ false)
          × (m.invocation_count ≡ a.invocations)
          × (m.success_count ≡ a.successes)
          × (m.error_count ≡ a.errors)
    unfolding snapshot
    snapshot-IsPercentile id readings a h =
        let sorted = sort_by less a.latencies in
        let n = length-sort_by less a.latencies in
        let s = Sorted-sort_by less is_less a.latencies in
        let (v50, e50) = get_elem?-some sorted (rank (length sorted) 50) (omega (arith, n, h)) in
        let (v95, e95) = get_elem?-some sorted (rank (length sorted) 95) (omega (arith, n, h)) in
        let (v99, e99) = get_elem?-some sorted (rank (length sorted) 99) (omega (arith, n, h)) in
        let falls = Sorted-monotone less is_less sorted in
        (
          sorted_IsPercentile a.latencies 50 v50 e50,
          sorted_IsPercentile a.latencies 95 v95 e95,
          sorted_IsPercentile a.latencies 99 v99 e99,
          rw (percentile_at sorted 50 v50 e50, percentile_at sorted 95 v95 e95)
              (falls (rank (length sorted) 50) (rank (length sorted) 95) v50 v95 s (omega arith) e50
                e95),
          rw (percentile_at sorted 95 v95 e95, percentile_at sorted 99 v99 e99)
              (falls (rank (length sorted) 95) (rank (length sorted) 99) v95 v99 s (omega arith) e95
                e99),
          refl,
          refl,
          refl,
        )

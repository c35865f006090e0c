-- ===== src/Scaler/Metrics.antt =====
-- `aggregateMetrics`, `handleMetrics` and the snapshot of `status`.
use serverless.Base.{
  ℕ, ◌≡◌, ℤ, pos, ◌+ℤ◌, wrap64, ltb_ℤ, ltb, String, true, false, if◌then◌else◌, List, [], ◌∷◌,
  Option, none, some, Dict, lookup, insert, str_eq, arith, All,
}
use serverless.Scaler.Types.{Floats, ContainerMetrics, Scaler}

module _ (F : Floats) where
  -- The three sums of the loop.
  pub record Sums : Type 0 where
    pub max_p99 : F.Float
    pub total_inv : ℤ
    pub total_err : ℤ

  -- One round: the metrics of one instance, if they are known and not older than the cutoff.
  unfoldable pub add_metrics : ℕ → Option (ContainerMetrics F) → Sums → Sums
  add_metrics cutoff none sums = sums
  add_metrics cutoff (some m) sums = if ltb m.timestamp cutoff then sums else record {
    max_p99 = if F.greater m.p99_latency_ms sums.max_p99 then m.p99_latency_ms else sums.max_p99;
    total_inv = wrap64 (sums.total_inv +ℤ m.invocation_count);
    total_err = wrap64 (sums.total_err +ℤ m.error_count);
  }

  unfoldable pub sum_metrics : ℕ → Dict (ContainerMetrics F) → List String → Sums → Sums
  unfolding add_metrics
  sum_metrics cutoff metrics [] sums = sums
  sum_metrics cutoff metrics (id ∷ ids) sums =
      sum_metrics cutoff metrics ids (add_metrics cutoff (lookup id metrics) sums)

  -- The pair of the p99 latency and the error rate in percent.
  unfoldable pub aggregate_metrics : ℕ → Dict (ContainerMetrics F) → List String → F.Float × F.Float
  unfolding sum_metrics
  aggregate_metrics cutoff metrics [] = (F.zero, F.zero)
  aggregate_metrics cutoff metrics (id ∷ ids) =
      let start : Sums = record { max_p99 = F.zero; total_inv = pos 0; total_err = pos 0 } in
      let sums = sum_metrics cutoff metrics (id ∷ ids) start in
      (
        sums.max_p99,
        if ltb_ℤ (pos 0) sums.total_inv
            then F.times (F.divide (F.of_int sums.total_err) (F.of_int sums.total_inv)) F.hundred
            else F.zero,
      )

  -- `handleMetrics` from the decoded body on: the id of the path stands in for a missing one.
  unfoldable pub handle_metrics : String → ContainerMetrics F → Scaler F → Scaler F
  handle_metrics path_id m s =
      let named = if str_eq m.container_id "" then record m { container_id = path_id } else m in
      record s { metrics = insert named.container_id named s.metrics }

  -- The snapshot of `status`, with the entries of the given instances.
  unfoldable pub snapshot : Dict (ContainerMetrics F) → List String → Dict (ContainerMetrics F)
  snapshot metrics [] = []
  snapshot metrics (id ∷ ids) =
      let rest = snapshot metrics ids in
      elim (lookup id metrics) [ none ↦ rest | some m ↦ insert id m rest ]

  -- Metrics that count: known, and not older than the cutoff.
  abbrev pub Fresh : ℕ → Dict (ContainerMetrics F) → String → ContainerMetrics F → Type 0
  Fresh cutoff metrics id m = (lookup id metrics ≡ some m) × (ltb m.timestamp cutoff ≡ false)

  module _
      (greater_trans : (a b c : F.Float)
        → F.greater a b ≡ false
        → F.greater b c ≡ false
        → F.greater a c ≡ false)
      (greater_irrefl : (a : F.Float) → F.greater a a ≡ false)
      (greater_asym : (a b : F.Float) → F.greater a b ≡ true → F.greater b a ≡ false) where
    add_metrics_grows :
        (cutoff : ℕ) (o : Option (ContainerMetrics F)) (sums : Sums)
        → F.greater sums.max_p99 (add_metrics cutoff o sums).max_p99 ≡ false
    unfolding add_metrics
    add_metrics_grows cutoff none sums = greater_irrefl sums.max_p99
    add_metrics_grows cutoff (some m) sums =
        ground (arith, greater_irrefl sums.max_p99, greater_asym m.p99_latency_ms sums.max_p99)

    sum_metrics_grows :
        (cutoff : ℕ) (metrics : Dict (ContainerMetrics F)) (ids : List String) (sums : Sums)
        → F.greater sums.max_p99 (sum_metrics cutoff metrics ids sums).max_p99 ≡ false
    unfolding sum_metrics
    sum_metrics_grows cutoff metrics [] sums = greater_irrefl sums.max_p99
    sum_metrics_grows cutoff metrics (id ∷ ids) sums =
        let next = add_metrics cutoff (lookup id metrics) sums in
        greater_trans sums.max_p99 next.max_p99 _
          (add_metrics_grows cutoff (lookup id metrics) sums)
          (sum_metrics_grows cutoff metrics ids next)

    -- Every instance of the list with fresh metrics has a latency below the result.
    abbrev pub Covered : ℕ → Dict (ContainerMetrics F) → F.Float → List String → Type 0
    Covered cutoff metrics p99 ids =
        All
          (λ id.
            (m : ContainerMetrics F)
            → lookup id metrics ≡ some m
            → ltb m.timestamp cutoff ≡ false
            → F.greater m.p99_latency_ms p99 ≡ false)
          ids

    add_metrics_covers :
        (cutoff : ℕ) (m : ContainerMetrics F) (sums : Sums)
        → ltb m.timestamp cutoff ≡ false
        → F.greater m.p99_latency_ms (add_metrics cutoff (some m) sums).max_p99 ≡ false
    unfolding add_metrics
    add_metrics_covers cutoff m sums h = ground (arith, greater_irrefl m.p99_latency_ms)

    sum_metrics_covers :
        (cutoff : ℕ) (metrics : Dict (ContainerMetrics F)) (ids : List String) (sums : Sums)
        → Covered cutoff metrics (sum_metrics cutoff metrics ids sums).max_p99 ids
    unfolding sum_metrics
    sum_metrics_covers cutoff metrics [] sums = tt
    sum_metrics_covers cutoff metrics (id ∷ ids) sums =
        let next = add_metrics cutoff (lookup id metrics) sums in
        (
          λ m e h.
              greater_trans m.p99_latency_ms next.max_p99 _
                (rw e (add_metrics_covers cutoff m sums h))
                (sum_metrics_grows cutoff metrics ids next),
          sum_metrics_covers cutoff metrics ids next,
        )

    -- No instance of the function whose metrics are known and not older than the cutoff has a p99
    -- latency above the one that `aggregateMetrics` gives, if the floating point test `>` is a strict
    -- order whose negation is transitive (so without NaN).
    pub aggregate_metrics_covers :
        (cutoff : ℕ) (metrics : Dict (ContainerMetrics F)) (ids : List String)
        → Covered cutoff metrics (aggregate_metrics cutoff metrics ids).0 ids
    unfolding aggregate_metrics
    aggregate_metrics_covers cutoff metrics [] = tt
    aggregate_metrics_covers cutoff metrics (id ∷ ids) =
        sum_metrics_covers cutoff metrics (id ∷ ids) _

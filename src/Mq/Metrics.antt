-- ===== src/Mq/Metrics.antt =====
-- mqsvc/metrics.go: the counters of a trigger.
use serverless.Base.{
  ℕ, ◌+◌, ◌-◌, ◌%◌, ◌^◌, ◌≤◌, ◌<◌, suc, ◌≡◌, refl, String, Bool, ◌&&◌, List, [], ◌∷◌, Dict,
  lookup_or, insert, lookup, lookup-insert, arith, ltb, str_eq, if◌then◌else◌, length, Bool-cases,
  inl, inr, eq_iff,
}
use serverless.Mq.Types.{TriggerMetrics}

abbrev pub no_metrics : TriggerMetrics
no_metrics = record {
  received = 0;
  inflight = 0;
  acked = 0;
  retried = 0;
  dlq = 0;
  errors = 0;
  last_error = "";
}

-- `v++` and `v--` on an int64, and the test `v > 0`.
abbrev increment : ℕ → ℕ
increment v = (v + 1) % 2 ^ 64

abbrev decrement : ℕ → ℕ
decrement v = (v + (2 ^ 64 - 1)) % 2 ^ 64

abbrev is_positive : ℕ → Bool
is_positive v = ltb 0 v && ltb v (2 ^ 63)

abbrev settle : TriggerMetrics → TriggerMetrics
settle v = if is_positive v.inflight then record v { inflight = decrement v.inflight } else v

-- The four calls, by the method's name.
pub data Call : Type 0 where
  received acked : Call
  retried dlqed : String → Call

-- What each of them does to the counters.
unfoldable pub count : Call → TriggerMetrics → TriggerMetrics
count received v = record v { received = increment v.received; inflight = increment v.inflight }
count acked v = settle (record v { acked = increment v.acked })
count (retried reason) v =
    settle
      (record v { retried = increment v.retried; errors = increment v.errors; last_error = reason })
count (dlqed reason) v =
    settle (record v { dlq = increment v.dlq; errors = increment v.errors; last_error = reason })

-- `update`: the zero value stands for a trigger not seen before.
unfoldable pub update : String → Call → Dict TriggerMetrics → Dict TriggerMetrics
unfolding count
update trigger_id c m = insert trigger_id (count c (lookup_or no_metrics trigger_id m)) m

unfoldable pub record_calls : List (String × Call) → Dict TriggerMetrics → Dict TriggerMetrics
unfolding update
record_calls [] m = m
record_calls ((t, c) ∷ cs) m = record_calls cs (update t c m)

-- How often a trigger was counted, from the calls alone.
pub record Tally : Type 0 where
  pub received : ℕ
  pub acked : ℕ
  pub retried : ℕ
  pub dlq : ℕ

abbrev pub tally_call : Call → Tally → Tally
tally_call received n = record n { received = suc n.received }
tally_call acked n = record n { acked = suc n.acked }
tally_call (retried r) n = record n { retried = suc n.retried }
tally_call (dlqed r) n = record n { dlq = suc n.dlq }

abbrev pub settled : Tally → ℕ
settled n = n.acked + n.retried + n.dlq

abbrev pub tally : String → List (String × Call) → Tally → Tally
tally t [] n = n
tally t ((u, c) ∷ cs) n = tally t cs (if str_eq u t then tally_call c n else n)

abbrev pub no_calls : Tally
no_calls = record { received = 0; acked = 0; retried = 0; dlq = 0 }

-- No message of the trigger is settled before it was received.
abbrev pub Ordered : String → List (String × Call) → Tally → Type 0
Ordered t [] n = settled n ≤ n.received
Ordered t ((u, c) ∷ cs) n =
    (settled n ≤ n.received) × Ordered t cs (if str_eq u t then tally_call c n else n)

-- The counters say what the tally says.
abbrev pub Counts : Tally → TriggerMetrics → Type 0
Counts n v =
    (v.received ≡ n.received)
    × (v.acked ≡ n.acked)
    × (v.retried ≡ n.retried)
    × (v.dlq ≡ n.dlq)
    × (v.errors ≡ n.retried + n.dlq)
    × (v.inflight + settled n ≡ n.received)

count-Counts :
    (c : Call) (n : Tally) (v : TriggerMetrics)
    → Counts n v
    → n.received + 1 < 2 ^ 63
    → settled (tally_call c n) ≤ (tally_call c n).received
    → Counts (tally_call c n) (count c v)
unfolding count
count-Counts received n v h b o = ground arith
count-Counts acked n v h b o = ground arith
count-Counts (retried x) n v h b o = ground arith
count-Counts (dlqed x) n v h b o = ground arith

Ordered-head :
    (t : String) (cs : List (String × Call)) (n : Tally) → Ordered t cs n → settled n ≤ n.received
Ordered-head t [] n o = o
Ordered-head t ((u, c) ∷ cs) n o = o.0

tally_call-received : (c : Call) (n : Tally) → (tally_call c n).received ≤ n.received + 1
tally_call-received received n = omega arith
tally_call-received acked n = omega arith
tally_call-received (retried x) n = omega arith
tally_call-received (dlqed x) n = omega arith

-- The entry of a trigger after one call, for this trigger or for another.
update-lookup :
    (u t : String) (c : Call) (m : Dict TriggerMetrics)
    → lookup_or no_metrics t (update u c m)
      ≡ (if str_eq u t then count c (lookup_or no_metrics u m) else lookup_or no_metrics t m)
unfolding update
update-lookup u t c m =
    rw (lookup_or, lookup-insert u t (count c (lookup_or no_metrics u m)) m)
      (elim (Bool-cases (str_eq u t)) [ inl e ↦ rw e refl | inr e ↦ rw e refl ])

record_calls-Counts_from :
    (t : String) (cs : List (String × Call)) (n : Tally) (m : Dict TriggerMetrics)
    → Counts n (lookup_or no_metrics t m)
    → Ordered t cs n
    → n.received + length cs < 2 ^ 63
    → Counts (tally t cs n) (lookup_or no_metrics t (record_calls cs m))
unfolding record_calls
record_calls-Counts_from t [] n m k o b = k
record_calls-Counts_from t ((u, c) ∷ cs) n m k o b = elim (Bool-cases (str_eq u t)) [
  | inl e ↦
      rw (tally, e)
        (let same : u ≡ t = (eq_iff u t).0 e in
          record_calls-Counts_from t cs (tally_call c n) (update u c m)
            (rw (update-lookup u t c m, e, same)
              (count-Counts c n _ k (omega arith) (Ordered-head t cs _ (rw e at o.1))))
            (rw e at o.1) (omega (arith, tally_call-received c n)))
  | inr e ↦
      rw (tally, e)
        (record_calls-Counts_from t cs n (update u c m) (rw (update-lookup u t c m, e) k)
          (rw e at o.1) (omega arith))
]

-- Whatever calls a new `Metrics` gets for all its triggers, in any interleaving: if no message of a
-- trigger is settled before it was received and fewer than 2^63 calls are made, then the counters
-- of the trigger are the numbers of its calls, its errors are its retries and dead letters
-- together, and what is in flight is what was received and is not settled.
pub record_calls-Counts :
    (t : String) (cs : List (String × Call))
    → Ordered t cs no_calls
    → length cs < 2 ^ 63
    → Counts (tally t cs no_calls) (lookup_or no_metrics t (record_calls cs []))
unfolding lookup
record_calls-Counts t cs o b =
    record_calls-Counts_from t cs no_calls [] (refl, refl, refl, refl, refl, refl) o (omega arith)

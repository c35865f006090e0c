-- ===== src/Scheduler/World/Pools.antt =====
-- Every pool holds existing objects only.
use serverless.Base.{
  ℕ, zero, suc, ◌<◌, not, String, List, [], ◌∷◌, Option, none, some, Dict, lookup, lookup_or,
  insert, erase, All, All-keep, All-map, arith,
}
use serverless.Scheduler.Types.{Container}
use serverless.Scheduler.Shrink.{remove_at, is_stale, reap_pools}
use serverless.Scheduler.Lease.{remove_target}

abbrev pub Below : ℕ → List ℕ → Type 0
Below n = All (λ q. q < n)

abbrev pub PoolsBelow : ℕ → Dict (List ℕ) → Type 0
PoolsBelow n [] = Unit {0}
PoolsBelow n ((name, ps) ∷ m) = Below n ps × PoolsBelow n m

pub Below-suc : (n : ℕ) (ps : List ℕ) → Below n ps → Below (suc n) ps
Below-suc n ps = All-map {P = λ q. q < n} {Q = λ q. q < suc n} (λ q h. omega arith) ps

pub PoolsBelow-suc : (n : ℕ) (m : Dict (List ℕ)) → PoolsBelow n m → PoolsBelow (suc n) m
PoolsBelow-suc n [] h = tt
PoolsBelow-suc n ((name, ps) ∷ m) h = (Below-suc n ps h.0, PoolsBelow-suc n m h.1)

pub PoolsBelow-insert :
    (n : ℕ) (k : String) (ps : List ℕ) (m : Dict (List ℕ))
    → Below n ps
    → PoolsBelow n m
    → PoolsBelow n (insert k ps m)
unfolding insert
PoolsBelow-insert n k ps [] b h = (b, tt)
PoolsBelow-insert n k ps ((j, qs) ∷ m) b h = ground (arith, PoolsBelow-insert n k ps m b h.1)

pub PoolsBelow-erase :
    (n : ℕ) (k : String) (m : Dict (List ℕ)) → PoolsBelow n m → PoolsBelow n (erase k m)
unfolding erase
PoolsBelow-erase n k [] h = tt
PoolsBelow-erase n k ((j, qs) ∷ m) h = ground (arith, PoolsBelow-erase n k m h.1)

pub PoolsBelow-lookup :
    (n : ℕ) (k : String) (m : Dict (List ℕ)) → PoolsBelow n m → Below n (lookup_or [] k m)
unfolding lookup
PoolsBelow-lookup n k [] h = tt
PoolsBelow-lookup n k ((j, qs) ∷ m) h = ground (arith, PoolsBelow-lookup n k m h.1)

pub PoolsBelow-reap :
    (h : ℕ → Container) (now n : ℕ) (m : Dict (List ℕ))
    → PoolsBelow n m
    → PoolsBelow n (reap_pools h now m).1
PoolsBelow-reap h now n [] b = tt
PoolsBelow-reap h now n ((j, qs) ∷ m) b =
    (All-keep (λ q. q < n) (λ p. not (is_stale h now p)) qs b.0, PoolsBelow-reap h now n m b.1)

pub Below-remove_at : (n i : ℕ) (ps : List ℕ) → Below n ps → Below n (remove_at i ps)
Below-remove_at n i [] h = tt
Below-remove_at n zero (p ∷ ps) h = h.1
Below-remove_at n (suc i) (p ∷ ps) h = (h.0, Below-remove_at n i ps h.1)

abbrev pub BelowOption : ℕ → Option (List ℕ) → Type 0
BelowOption n none = Unit {0}
BelowOption n (some ps) = Below n ps

pub Below-remove_target :
    (h : ℕ → Container) (p n : ℕ) (ps : List ℕ) → Below n ps → BelowOption n (remove_target h p ps)
unfolding remove_target
Below-remove_target h p n [] b = tt
Below-remove_target h p n (c ∷ cs) b = ground (arith, Below-remove_target h p n cs b.1)

-- ===== src/Scheduler/Shrink.antt =====
-- `RemoveIdle` and the idle part of `reaper` in gateway/scheduler/scheduler.go.
pub mod Oldest
use serverless.Base.{
  ℕ, zero, suc, ◌+◌, ◌*◌, String, Bool, true, false, not, ◌&&◌, List, [], ◌∷◌, ◌++◌, map, Option,
  none, some, Dict, lookup, insert, ltb, keep, if◌then◌else◌,
}
use serverless.Scheduler.Types.{Container, Scheduler}
use serverless.Scheduler.Pool.{is_idle, minute, pool_of, ids_of}

abbrev pub remove_at {ℓ} : {A : Type ℓ} → ℕ → List A → List A
remove_at i [] = []
remove_at zero (x ∷ xs) = xs
remove_at (suc i) (x ∷ xs) = x ∷ remove_at i xs

-- The body of the loop of `RemoveIdle`: `best` is `oldest` with the pointer that stands there,
-- `none` for -1.
unfoldable pub older : (ℕ → Container) → ℕ → ℕ → Option (ℕ × ℕ) → Option (ℕ × ℕ)
older h i p none = if is_idle (h p).state then some (i, p) else none
older h i p (some (j, q)) =
    if not (is_idle (h p).state)
    then some (j, q)
    else if ltb (h p).last_used (h q).last_used
    then some (i, p)
    else some (j, q)

unfoldable pub find_oldest : (ℕ → Container) → ℕ → Option (ℕ × ℕ) → List ℕ → Option (ℕ × ℕ)
unfolding older
find_oldest h i best [] = best
find_oldest h i best (p ∷ ps) = find_oldest h (suc i) (older h i p best) ps

-- The id that is stopped, `none` where `RemoveIdle` returns false.
unfoldable pub drop_oldest : String → ℕ → Option (ℕ × ℕ) → Scheduler → Option String × Scheduler
drop_oldest name now none s = (none, s)
drop_oldest name now (some (i, p)) s =
    if ltb now ((s.heap p).last_used + 2 * minute)
    then (none, s)
    else (some (s.heap p).id, record s { pool = insert name (remove_at i (pool_of name s)) s.pool })

unfoldable pub remove_idle : String → ℕ → Scheduler → Option String × Scheduler
unfolding find_oldest drop_oldest
remove_idle name now s = drop_oldest name now (find_oldest s.heap 0 none (pool_of name s)) s

-- The test in `reaper`.
abbrev pub is_stale : (ℕ → Container) → ℕ → ℕ → Bool
is_stale h now p = is_idle (h p).state && ltb ((h p).last_used + 5 * minute) now

abbrev pub reap_pools : (ℕ → Container) → ℕ → Dict (List ℕ) → List String × Dict (List ℕ)
reap_pools h now [] = ([], [])
reap_pools h now ((name, ps) ∷ m) =
    let (stops, m') = reap_pools h now m in
    (
      map (λ p. (h p).id) (keep (is_stale h now) ps) ++ stops,
      (name, keep (λ p. not (is_stale h now p)) ps) ∷ m',
    )

unfoldable pub reap_idle : ℕ → Scheduler → List String × Scheduler
reap_idle now s =
    let (stops, pool) = reap_pools s.heap now s.pool in (stops, record s { pool = pool })

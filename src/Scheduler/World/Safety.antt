-- ===== src/Scheduler/World/Safety.antt =====
-- No instance ever serves two callers at once.
use serverless.Base.{
  ℕ, subst, sym, ltb, ◌*◌, suc, ◌+◌, ◌≤◌, ◌<◌, ◌≡◌, refl, ◌≢◌, inl, inr, String, true, List, [],
  ◌∷◌, Option, none, some, Dict, All-append, arith, Bool-cases,
}
use serverless.Scheduler.Types.{
  FunctionConfig, ContainerState, starting, InstanceLease, busy, idle, RuntimeInstance, Scheduler,
}
use serverless.Scheduler.Register.{add_function, remove_function}
use serverless.Scheduler.Pool.{
  minute, pool_of, add_instance, release, reserve_port, deregister, replace_code,
}
use serverless.Scheduler.Shrink.{remove_idle, drop_oldest, reap_idle}
use serverless.Scheduler.Lease.{record_lease, new_record, reap_expired_leases}
use serverless.Scheduler.World.Counts.{count-drop_one, count-insert-le}
use serverless.Scheduler.World.Pools.{
  PoolsBelow, PoolsBelow-suc, PoolsBelow-insert, PoolsBelow-erase, PoolsBelow-lookup,
  PoolsBelow-reap, Below-suc, Below-remove_at,
}
use serverless.Scheduler.World.Exclusive.{
  busy_bit, IsExclusive, busy_bit-le, add_function-SameUse, reserve_port-SameUse,
  drop_oldest-SameUse, mark_idle-IsExclusive, add_busy-IsExclusive, add_idle-IsExclusive,
}
use serverless.Scheduler.World.{
  World, Event, drop_one, holds, uses, step, run, start_world, adds, removes, deregisters, replaces,
  reserves, started, prewarmed, takes_port, leases_out, releases, releases_lease, reaps_leases,
  reaps_idle, removes_idle,
}
use serverless.Scheduler.World.Invariant.{
  IsSafe, same-IsSafe, reap_list-IsSafe, release_instance-IsSafe, reserve-IsSafe,
}

add_started-pools :
    (st : ContainerState) (w : World) (name : String) (inst : RuntimeInstance) (now : ℕ)
    → PoolsBelow w.sched.next_ptr w.sched.pool
    → let s = (add_instance name inst st now w.sched).1 in PoolsBelow s.next_ptr s.pool
unfolding add_instance
add_started-pools st w name inst now b =
    let n = w.sched.next_ptr in
    let old = PoolsBelow-lookup n name w.sched.pool b in
    PoolsBelow-insert (suc n) name _ w.sched.pool
      (All-append (λ q. q < suc n) _ (n ∷ []) (Below-suc n _ old) (omega arith, tt))
      (PoolsBelow-suc n w.sched.pool b)

add_function-pool : (cfg : FunctionConfig) (s : Scheduler) → (add_function cfg s).1.pool ≡ s.pool
unfolding add_function
add_function-pool cfg s = ground arith

reserve_port-pool : (name : String) (s : Scheduler) → (reserve_port name s).1.pool ≡ s.pool
unfolding reserve_port
reserve_port-pool name s = ground arith

drop_oldest-pools :
    (name : String) (now : ℕ) (best : Option (ℕ × ℕ)) (s : Scheduler)
    → PoolsBelow s.next_ptr s.pool
    → PoolsBelow s.next_ptr (drop_oldest name now best s).1.pool
unfolding drop_oldest
drop_oldest-pools name now none s b = b
drop_oldest-pools name now (some (i, p)) s b =
    elim (Bool-cases (ltb now ((s.heap p).last_used + 2 * minute))) [
      | inl h ↦ rw h b
      | inr h ↦ rw h (
          PoolsBelow-insert s.next_ptr name _ s.pool
            (Below-remove_at s.next_ptr i (pool_of name s)
              (PoolsBelow-lookup s.next_ptr name s.pool b))
            b)
    ]

lease_out-IsSafe :
    (w : World) (lease : InstanceLease) (p now : ℕ)
    → holds p w.held ≡ true
    → IsSafe w
    → IsSafe (record { sched = record_lease lease p now w.sched; held = drop_one p w.held })
unfolding record_lease
lease_out-IsSafe w lease p now h v = record {
  exclusive = λ q. record {
    single = omega (
      arith,
      (v.exclusive q).single,
      count-drop_one q p w.held h,
      count-insert-le q lease.lease_id (new_record lease p now) w.sched.leases,
    );
    fresh = (v.exclusive q).fresh;
  };
  pools = v.pools;
}

let_go-uses :
    (w : World) (p : ℕ)
    → holds p w.held ≡ true
    → IsExclusive w p
    → uses (record w { held = drop_one p w.held }) p ≡ 0
let_go-uses w p h v =
    ground (arith, count-drop_one p p w.held h, busy_bit-le (w.sched.heap p).state)

release-IsSafe :
    (w : World) (p now : ℕ)
    → holds p w.held ≡ true
    → IsSafe w
    → IsSafe (record { sched = release p now w.sched; held = drop_one p w.held })
unfolding release
release-IsSafe w p now h v =
    let w' : World = record w { held = drop_one p w.held } in
    record {
      exclusive = λ q.
          mark_idle-IsExclusive w' p now q (let_go-uses w p h (v.exclusive p)) (record {
            single = omega (arith, (v.exclusive q).single, count-drop_one q p w.held h);
            fresh = (v.exclusive q).fresh;
          });
      pools = v.pools;
    }

-- Each step keeps the world safe.
step-IsSafe : (e : Event) (w : World) → IsSafe w → IsSafe (step w e)
unfolding step deregister replace_code reap_idle remove_function remove_idle reap_expired_leases
step-IsSafe (adds cfg) w v =
    same-IsSafe w _ (add_function-SameUse cfg w.sched)
      (subst (PoolsBelow w.sched.next_ptr) (sym (add_function-pool cfg w.sched)) v.pools) v
step-IsSafe (removes name) w v =
    same-IsSafe w _ (record { heap = refl; leases = refl; next_ptr = refl }) v.pools v
step-IsSafe (deregisters name) w v =
    same-IsSafe w _ (record { heap = refl; leases = refl; next_ptr = refl })
      (PoolsBelow-erase w.sched.next_ptr name w.sched.pool v.pools) v
step-IsSafe (replaces name cfg) w v =
    same-IsSafe w _ (record { heap = refl; leases = refl; next_ptr = refl })
      (PoolsBelow-insert w.sched.next_ptr name [] w.sched.pool tt v.pools) v
step-IsSafe (reserves name now) w v = reserve-IsSafe w name now v
step-IsSafe (started name inst now) w v = record {
  exclusive = λ p. add_busy-IsExclusive w name inst now p (v.exclusive p);
  pools = add_started-pools busy w name inst now v.pools;
}
step-IsSafe (prewarmed name inst now) w v = record {
  exclusive = λ p. add_idle-IsExclusive w name inst now p (v.exclusive p);
  pools = add_started-pools idle w name inst now v.pools;
}
step-IsSafe (takes_port name) w v =
    same-IsSafe w _ (reserve_port-SameUse name w.sched)
      (subst (PoolsBelow w.sched.next_ptr) (sym (reserve_port-pool name w.sched)) v.pools) v
step-IsSafe (leases_out lease p now) w v = elim (Bool-cases (holds p w.held)) [
  | inl h ↦ rw h (lease_out-IsSafe w lease p now h v)
  | inr h ↦ rw h v
]
step-IsSafe (releases p now) w v = elim (Bool-cases (holds p w.held)) [
  | inl h ↦ rw h (release-IsSafe w p now h v)
  | inr h ↦ rw h v
]
step-IsSafe (releases_lease id status now) w v = release_instance-IsSafe w id status now v
step-IsSafe (reaps_leases now) w v = reap_list-IsSafe w.sched.leases w now v
step-IsSafe (reaps_idle now) w v =
    same-IsSafe w _ (record { heap = refl; leases = refl; next_ptr = refl })
      (PoolsBelow-reap w.sched.heap now w.sched.next_ptr w.sched.pool v.pools) v
step-IsSafe (removes_idle name now) w v =
    same-IsSafe w _ (drop_oldest-SameUse name now _ w.sched)
      (drop_oldest-pools name now _ w.sched v.pools) v

run-IsSafe : (es : List Event) (w : World) → IsSafe w → IsSafe (run w es)
unfolding run
run-IsSafe [] w v = v
run-IsSafe (e ∷ es) w v = run-IsSafe es (step w e) (step-IsSafe e w v)

start-IsSafe : (functions : Dict FunctionConfig) → IsSafe (start_world functions)
unfolding start_world
start-IsSafe functions = record {
  exclusive = λ p. record { single = omega arith; fresh = λ _. refl };
  pools = tt;
}

busy_bit-zero : (st : ContainerState) → st ≢ busy → busy_bit st ≡ 0
busy_bit-zero idle h = refl
busy_bit-zero busy h = absurd (h refl)
busy_bit-zero starting h = refl

-- From a new scheduler on, in whatever order the critical sections of any number of callers run,
-- an instance is never in the hands of two of them: the callers that hold it and the leases on it
-- come to one at most, and to none unless the instance is marked busy.
pub run-exclusive :
    (functions : Dict FunctionConfig) (es : List Event) (p : ℕ)
    → let w = run (start_world functions) es in
      (uses w p ≤ 1) × ((w.sched.heap p).state ≢ busy → uses w p ≡ 0)
run-exclusive functions es p =
    let w = run (start_world functions) es in
    let v = (run-IsSafe es (start_world functions) (start-IsSafe functions)).exclusive p in
    let st = (w.sched.heap p).state in
    (omega (arith, v.single, busy_bit-le st), λ h. omega (arith, v.single, busy_bit-zero st h))

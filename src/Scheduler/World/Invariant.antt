-- ===== src/Scheduler/World/Invariant.antt =====
-- The invariant of the scheduler's world, and the steps on leases and the pool that keep it.
use serverless.Base.{
  ℕ, subst, ◌<◌, ◌≡◌, refl, inl, inr, String, List, [], ◌∷◌, some, lookup, erase, All-get_elem?,
  Bool-cases, Option-cases, pos, ltb_ℤ,
}
use serverless.Scheduler.Types.{LeaseRecord, busy, Scheduler}
use serverless.Scheduler.Pool.{mark, first_idle, reserve, pool_of, take_port}
use serverless.Scheduler.Pool.Acquire.{first_idle-Found, Found}
use serverless.Scheduler.Lease.{
  ends_instance, reap_lease, remove_instance, remove_target, release_found, release_locked,
  release_instance, is_valid_lease_status, reap_list,
}
use serverless.Scheduler.World.Pools.{
  PoolsBelow, PoolsBelow-insert, PoolsBelow-lookup, BelowOption, Below-remove_target,
}
use serverless.Scheduler.World.Exclusive.{
  IsExclusive, SameUse, SameUse-IsExclusive, mark_busy-IsExclusive, release_locked-IsExclusive,
}
use serverless.Scheduler.World.{World, keep_reserved}

pub record IsSafe (w : World) : Type 0 where
  pub exclusive : (p : ℕ) → IsExclusive w p
  pub pools : PoolsBelow w.sched.next_ptr w.sched.pool

abbrev with_sched : World → Scheduler → World
with_sched w s = record w { sched = s }

pub same-IsSafe :
    (w : World) (s : Scheduler)
    → SameUse w.sched s
    → PoolsBelow w.sched.next_ptr s.pool
    → IsSafe w
    → IsSafe (with_sched w s)
same-IsSafe w s u b v = record {
  exclusive = λ p. SameUse-IsExclusive w s p u (v.exclusive p);
  pools = rw u.next_ptr b;
}

-- No object is made, and pools that hold existing objects go on doing so.
record KeepsPools (s t : Scheduler) : Type 0 where
  next_ptr : t.next_ptr ≡ s.next_ptr
  pools : (n : ℕ) → PoolsBelow n s.pool → PoolsBelow n t.pool

remove_instance-KeepsPools : (q : ℕ) (s : Scheduler) → KeepsPools s (remove_instance q s)
unfolding remove_instance
remove_instance-KeepsPools q s =
    let name = (s.heap q).func_name in
    elim (Option-cases (remove_target s.heap q (pool_of name s))) [
      | inl e ↦ rw (e, remove_instance) (record { next_ptr = refl; pools = λ n b. b })
      | inr (cs, e) ↦
          rw (e, remove_instance)
            (record {
              next_ptr = refl;
              pools = λ n b.
                  PoolsBelow-insert n name cs s.pool
                    (subst (BelowOption n) e (
                      Below-remove_target s.heap q n (pool_of name s)
                        (PoolsBelow-lookup n name s.pool b)))
                    b;
            })
    ]

release_found-KeepsPools :
    (id status : String) (now : ℕ) (r : LeaseRecord) (s : Scheduler)
    → KeepsPools s (release_found id status now r s).1
unfolding release_found mark
release_found-KeepsPools id status now r s =
    let s' : Scheduler = record s { leases = erase id s.leases } in
    let k = remove_instance-KeepsPools r.target s' in
    elim (Bool-cases (ends_instance status)) [
      | inl h ↦ rw h (record { next_ptr = k.next_ptr; pools = k.pools })
      | inr h ↦ rw h (record { next_ptr = refl; pools = λ n b. b })
    ]

release_locked-KeepsPools :
    (id status : String) (now : ℕ) (s : Scheduler) → KeepsPools s (release_locked id status now s).1
unfolding release_locked
release_locked-KeepsPools id status now s = elim (Option-cases (lookup id s.leases)) [
  | inl e ↦ rw (e, release_locked) (record { next_ptr = refl; pools = λ n b. b })
  | inr (r, e) ↦ elim (Bool-cases r.released) [
    | inl h ↦ rw (e, release_locked, h) (record { next_ptr = refl; pools = λ n b. b })
    | inr h ↦ rw (e, release_locked, h) (release_found-KeepsPools id status now r s)
  ]
]

release_locked-IsSafe :
    (w : World) (id status : String) (now : ℕ)
    → IsSafe w
    → IsSafe (with_sched w (release_locked id status now w.sched).1)
release_locked-IsSafe w id status now v =
    let k = release_locked-KeepsPools id status now w.sched in
    record {
      exclusive = λ p. release_locked-IsExclusive w id status now p v.exclusive;
      pools = rw k.next_ptr (k.pools w.sched.next_ptr v.pools);
    }

reap_lease-IsSafe :
    (w : World) (e : String × LeaseRecord) (now : ℕ)
    → IsSafe w
    → IsSafe (with_sched w (reap_lease e now w.sched).1)
reap_lease-IsSafe w (id, r) now v = elim (Bool-cases (ltb_ℤ r.deadline (pos now))) [
  | inl h ↦ rw h (release_locked-IsSafe w id "timeout" now v)
  | inr h ↦ rw h v
]

pub reap_list-IsSafe :
    (es : List (String × LeaseRecord)) (w : World) (now : ℕ)
    → IsSafe w
    → IsSafe (with_sched w (reap_list es now w.sched).1)
unfolding reap_list
reap_list-IsSafe [] w now v = v
reap_list-IsSafe (e ∷ es) w now v =
    reap_list-IsSafe es (with_sched w (reap_lease e now w.sched).1) now
      (reap_lease-IsSafe w e now v)

pub release_instance-IsSafe :
    (w : World) (id status : String) (now : ℕ)
    → IsSafe w
    → IsSafe (with_sched w (release_instance id status now w.sched).1)
unfolding release_instance
release_instance-IsSafe w id status now v = elim (Bool-cases (is_valid_lease_status status)) [
  | inl h ↦ rw h (release_locked-IsSafe w id status now v)
  | inr h ↦ rw h v
]

mark_busy-IsSafe :
    (w : World) (name : String) (p now : ℕ)
    → first_idle w.sched.heap (pool_of name w.sched) ≡ some p
    → IsSafe w
    → IsSafe (record { sched = mark busy now p w.sched; held = p ∷ w.held })
unfolding mark
mark_busy-IsSafe w name p now f v =
    let (i, at, is_free) =
      subst (Found w.sched.heap (pool_of name w.sched)) f
        (first_idle-Found w.sched.heap (pool_of name w.sched)) in
    let n = w.sched.next_ptr in
    let below = PoolsBelow-lookup n name w.sched.pool v.pools in
    record {
      exclusive = λ q.
          mark_busy-IsExclusive w p now q is_free
            (All-get_elem? (λ q. q < n) (pool_of name w.sched) i below at) (v.exclusive q);
      pools = v.pools;
    }

pub reserve-IsSafe :
    (w : World) (name : String) (now : ℕ)
    → IsSafe w
    → IsSafe (keep_reserved w.held (reserve name now w.sched))
unfolding reserve
reserve-IsSafe w name now v = elim (Option-cases (lookup name w.sched.functions)) [
  | inl e ↦ rw (e, reserve) v
  | inr (cfg, e) ↦ elim (Option-cases (first_idle w.sched.heap (pool_of name w.sched))) [
    | inl f ↦
        rw (e, reserve, f)
          (record {
            exclusive = λ p.
                SameUse-IsExclusive w (take_port cfg w.sched).1 p
                  (record { heap = refl; leases = refl; next_ptr = refl }) (v.exclusive p);
            pools = v.pools;
          })
    | inr (p, f) ↦ rw (e, reserve, f) (mark_busy-IsSafe w name p now f v)
  ]
]

-- ===== src/Scheduler/World/Exclusive.antt =====
-- What the critical sections do to the users of an instance.
use native.Mathlib.Decide.{ℕ_discrete}
use serverless.Base.{
  ℕ, subst, sym, ◌≤◌, ◌<◌, ◌≡◌, refl, inl, inr, String, true, ◌∷◌, Option, none, some, lookup,
  erase, arith, Bool-cases, Option-cases,
}
use serverless.Scheduler.Types.{
  FunctionConfig, ContainerState, LeaseRecord, busy, idle, starting, RuntimeInstance, Scheduler,
}
use serverless.Scheduler.Register.{add_function}
use serverless.Scheduler.Pool.{is_idle, mark, add_instance, reserve_port}
use serverless.Scheduler.Shrink.{drop_oldest}
use serverless.Scheduler.Lease.{ends_instance, remove_instance, release_found, release_locked}
use serverless.Scheduler.World.Counts.{count-erase-le, count-erase}
use serverless.Scheduler.World.{World, uses, keep_started}

-- 1 for a busy instance, 0 for any other.
abbrev pub busy_bit : ContainerState → ℕ
busy_bit idle = 0
busy_bit busy = 1
busy_bit starting = 0

-- The instance at `p` has a user only if it is busy, and then one only; a cell that is not yet
-- in use reads as the zero value, which is idle.
pub record IsExclusive (w : World) (p : ℕ) : Type 0 where
  pub single : uses w p ≤ busy_bit (w.sched.heap p).state
  pub fresh : w.sched.next_ptr ≤ p → (w.sched.heap p).state ≡ idle

pub busy_bit-le : (st : ContainerState) → busy_bit st ≤ 1
busy_bit-le idle = omega arith
busy_bit-le busy = omega arith
busy_bit-le starting = omega arith

-- Objects and leases stay.
pub record SameUse (s t : Scheduler) : Type 0 where
  pub heap : t.heap ≡ s.heap
  pub leases : t.leases ≡ s.leases
  pub next_ptr : t.next_ptr ≡ s.next_ptr

pub SameUse-IsExclusive :
    (w : World) (t : Scheduler) (p : ℕ)
    → SameUse w.sched t
    → IsExclusive w p
    → IsExclusive (record w { sched = t }) p
SameUse-IsExclusive w t p u v = ground arith

pub add_function-SameUse : (cfg : FunctionConfig) (s : Scheduler) → SameUse s (add_function cfg s).1
unfolding add_function
add_function-SameUse cfg s = ground arith

pub reserve_port-SameUse : (name : String) (s : Scheduler) → SameUse s (reserve_port name s).1
unfolding reserve_port
reserve_port-SameUse name s = ground arith

pub drop_oldest-SameUse :
    (name : String) (now : ℕ) (best : Option (ℕ × ℕ)) (s : Scheduler)
    → SameUse s (drop_oldest name now best s).1
unfolding drop_oldest
drop_oldest-SameUse name now none s = record { heap = refl; leases = refl; next_ptr = refl }
drop_oldest-SameUse name now (some (i, q)) s = ground arith

pub remove_instance-SameUse : (q : ℕ) (s : Scheduler) → SameUse s (remove_instance q s)
unfolding remove_instance
remove_instance-SameUse q s = ground arith

-- An idle instance has no user, so it can be handed out.
pub mark_busy-IsExclusive :
    (w : World) (q now p : ℕ)
    → is_idle (w.sched.heap q).state ≡ true
    → q < w.sched.next_ptr
    → IsExclusive w p
    → IsExclusive (record { sched = mark busy now q w.sched; held = q ∷ w.held }) p
unfolding mark
mark_busy-IsExclusive w q now p e b v = elim (ℕ_discrete p q) [
  | yes h ↦ ground arith
  | no h ↦ ground arith
]

pub mark_idle-IsExclusive :
    (w : World) (q now p : ℕ)
    → uses w q ≡ 0
    → IsExclusive w p
    → IsExclusive (record w { sched = mark idle now q w.sched }) p
unfolding mark
mark_idle-IsExclusive w q now p e v = elim (ℕ_discrete p q) [
  | yes h ↦
      subst (λ r. IsExclusive (record w { sched = mark idle now q w.sched }) r) (sym h)
        (ground arith)
  | no h ↦ ground arith
]

pub add_busy-IsExclusive :
    (w : World) (name : String) (inst : RuntimeInstance) (now p : ℕ)
    → IsExclusive w p
    → IsExclusive (keep_started w.held (add_instance name inst busy now w.sched)) p
unfolding add_instance
add_busy-IsExclusive w name inst now p v = ground arith

pub add_idle-IsExclusive :
    (w : World) (name : String) (inst : RuntimeInstance) (now p : ℕ)
    → IsExclusive w p
    → IsExclusive (record w { sched = (add_instance name inst idle now w.sched).1 }) p
unfolding add_instance
add_idle-IsExclusive w name inst now p v = ground arith

erase_lease-IsExclusive :
    (w : World) (id : String) (p : ℕ)
    → IsExclusive w p
    → IsExclusive (record w { sched = record w.sched { leases = erase id w.sched.leases } }) p
erase_lease-IsExclusive w id p v = record {
  single = omega (arith, v.single, count-erase-le p id w.sched.leases);
  fresh = v.fresh;
}

-- The instance of a lease that has gone has no user left.
erase_lease-uses :
    (w : World) (id : String) (r : LeaseRecord)
    → lookup id w.sched.leases ≡ some r
    → IsExclusive w r.target
    → uses (record w { sched = record w.sched { leases = erase id w.sched.leases } }) r.target ≡ 0
erase_lease-uses w id r e v =
    ground
      (arith, count-erase r.target id w.sched.leases r e, busy_bit-le (w.sched.heap r.target).state)

release_found-IsExclusive :
    (w : World) (id status : String) (now : ℕ) (r : LeaseRecord) (p : ℕ)
    → lookup id w.sched.leases ≡ some r
    → ((q : ℕ) → IsExclusive w q)
    → IsExclusive (record w { sched = (release_found id status now r w.sched).1 }) p
unfolding release_found
release_found-IsExclusive w id status now r p e v =
    let w' : World = record w { sched = record w.sched { leases = erase id w.sched.leases } } in
    let v' = erase_lease-IsExclusive w id p (v p) in
    elim (Bool-cases (ends_instance status)) [
      | inl h ↦ rw h (
          SameUse-IsExclusive w' (remove_instance r.target w'.sched) p
            (remove_instance-SameUse r.target w'.sched) v')
      | inr h ↦
          rw h (mark_idle-IsExclusive w' r.target now p (erase_lease-uses w id r e (v r.target)) v')
    ]

pub release_locked-IsExclusive :
    (w : World) (id status : String) (now p : ℕ)
    → ((q : ℕ) → IsExclusive w q)
    → IsExclusive (record w { sched = (release_locked id status now w.sched).1 }) p
unfolding release_locked
release_locked-IsExclusive w id status now p v = elim (Option-cases (lookup id w.sched.leases)) [
  | inl e ↦ rw (e, release_locked) (v p)
  | inr (r, e) ↦ elim (Bool-cases r.released) [
    | inl h ↦ rw (e, release_locked, h) (v p)
    | inr h ↦ rw (e, release_locked, h) (release_found-IsExclusive w id status now r p e v)
  ]
]

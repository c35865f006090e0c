-- ===== src/Scheduler/World.antt =====
-- The scheduler at work for many callers at once: each critical section under `s.mu` is one step,
-- in any order. `held` are the instances in the hands of a caller that has them from `Acquire`
-- and has neither called `Release` nor recorded its lease: the router during an invocation, and
-- `AcquireInstance` between its critical sections.
pub mod Pools
pub mod Counts
pub mod Exclusive
pub mod Invariant
pub mod Safety
use serverless.Base.{
  ℕ, suc, ◌+◌, String, Bool, true, false, List, [], ◌∷◌, Option, none, some, Dict, ◌==◌,
  if◌then◌else◌, map,
}
use serverless.Scheduler.Types.{
  FunctionConfig, LeaseRecord, InstanceLease, RuntimeInstance, Container, idle, busy, Scheduler,
}
use serverless.Scheduler.Register.{add_function, remove_function}
use serverless.Scheduler.Pool.{
  reserve, Reserved, missing, reused, must_start, add_instance, release, reserve_port, deregister,
  replace_code,
}
use serverless.Scheduler.Shrink.{remove_idle, reap_idle}
use serverless.Scheduler.Lease.{record_lease, release_instance, reap_expired_leases}

pub record World : Type 0 where
  pub sched : Scheduler
  pub held : List ℕ

pub data Event : Type 0 where
  adds : FunctionConfig → Event
  removes deregisters : String → Event
  replaces : String → FunctionConfig → Event
  reserves : String → ℕ → Event
  started prewarmed : String → RuntimeInstance → ℕ → Event
  takes_port : String → Event
  leases_out : InstanceLease → ℕ → ℕ → Event
  releases : ℕ → ℕ → Event
  releases_lease : String → String → ℕ → Event
  reaps_leases reaps_idle : ℕ → Event
  removes_idle : String → ℕ → Event

abbrev pub count : ℕ → List ℕ → ℕ
count p [] = 0
count p (q ∷ qs) = if p == q then suc (count p qs) else count p qs

-- One occurrence goes.
abbrev pub drop_one : ℕ → List ℕ → List ℕ
drop_one p [] = []
drop_one p (q ∷ qs) = if p == q then qs else q ∷ drop_one p qs

abbrev pub holds : ℕ → List ℕ → Bool
holds p [] = false
holds p (q ∷ qs) = if p == q then true else holds p qs

-- A caller keeps what `Acquire` reused for it.
abbrev pub keep_reserved : List ℕ → Reserved × Scheduler → World
keep_reserved held (missing, s) = record { sched = s; held = held }
keep_reserved held (reused p, s) = record { sched = s; held = p ∷ held }
keep_reserved held (must_start cfg, s) = record { sched = s; held = held }

abbrev pub keep_started : List ℕ → ℕ × Scheduler → World
keep_started held (p, s) = record { sched = s; held = p ∷ held }

-- A step that no caller is in a position to make does nothing.
unfoldable pub step : World → Event → World
unfolding add_function remove_function deregister replace_code reserve add_instance reserve_port
    record_lease release release_instance reap_expired_leases reap_idle remove_idle
step w (adds cfg) = record w { sched = (add_function cfg w.sched).1 }
step w (removes name) = record w { sched = remove_function name w.sched }
step w (deregisters name) = record w { sched = (deregister name w.sched).1 }
step w (replaces name cfg) = record w { sched = (replace_code name cfg w.sched).1 }
step w (reserves name now) = keep_reserved w.held (reserve name now w.sched)
step w (started name inst now) = keep_started w.held (add_instance name inst busy now w.sched)
step w (prewarmed name inst now) = record w { sched = (add_instance name inst idle now w.sched).1 }
step w (takes_port name) = record w { sched = (reserve_port name w.sched).1 }
step w (leases_out lease p now) =
    if holds p w.held
    then record { sched = record_lease lease p now w.sched; held = drop_one p w.held }
    else w
step w (releases p now) =
    if holds p w.held then record { sched = release p now w.sched; held = drop_one p w.held } else w
step w (releases_lease id status now) = record w {
  sched = (release_instance id status now w.sched).1;
}
step w (reaps_leases now) = record w { sched = (reap_expired_leases now w.sched).1 }
step w (reaps_idle now) = record w { sched = (reap_idle now w.sched).1 }
step w (removes_idle name now) = record w { sched = (remove_idle name now w.sched).1 }

unfoldable pub run : World → List Event → World
unfolding step
run w [] = w
run w (e ∷ es) = run (step w e) es

abbrev pub targets : Dict LeaseRecord → List ℕ
targets = map (λ e. e.1.target)

-- The zero value of a container.
abbrev pub no_container : Container
no_container = record {
  id = "";
  addr = "";
  state = idle;
  last_used = 0;
  func_name = "";
  node_name = "";
}

-- `New`, with the functions that the store has loaded.
unfoldable pub new_scheduler : Dict FunctionConfig → Scheduler
new_scheduler functions = record {
  functions = functions;
  pool = [];
  next_port = 9100;
  leases = [];
  heap = λ _. no_container;
  next_ptr = 0;
}

unfoldable pub start_world : Dict FunctionConfig → World
unfolding new_scheduler
start_world functions = record { sched = new_scheduler functions; held = [] }

-- How many callers and leases have the instance.
abbrev pub uses : World → ℕ → ℕ
uses w p = count p w.held + count p (targets w.sched.leases)

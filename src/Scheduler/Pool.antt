-- ===== src/Scheduler/Pool.antt =====
-- The pool of instances: `Acquire`, `Release`, `start`, `ColdStartOne`, `RemoveIdle`, `reaper`,
-- `Deregister`, the metadata update of `UploadCode`, and the readers. A function here is one
-- critical section, or a composition of several; times are nanoseconds.
pub mod Acquire
use serverless.Base.{
  ℕ, suc, ◌+◌, ◌*◌, String, Bool, true, false, not, ◌&&◌, List, [], ◌∷◌, ◌++◌, map, Option, none,
  some, Dict, lookup, insert, erase, lookup_or, str_eq, ltb, ◌==◌, keep, if◌then◌else◌, zero,
}
use serverless.Scheduler.Types.{
  FunctionConfig, Container, ContainerState, idle, busy, starting, RuntimeInstance, Scheduler,
  Error, function_not_found, cold_start_failed,
}

abbrev pub is_idle : ContainerState → Bool
is_idle idle = true
is_idle busy = false
is_idle starting = false

abbrev pub is_busy : ContainerState → Bool
is_busy idle = false
is_busy busy = true
is_busy starting = false

abbrev pub minute : ℕ
minute = 60 * 1000000000

-- A write through a pointer.
abbrev pub set_cell : ℕ → Container → (ℕ → Container) → ℕ → Container
set_cell p c h q = if q == p then c else h q

-- `s.pool[name]`, where a missing key is the nil slice.
abbrev pub pool_of : String → Scheduler → List ℕ
pool_of name s = lookup_or [] name s.pool

-- `c.state = st; c.lastUsed = now`
unfoldable pub mark : ContainerState → ℕ → ℕ → Scheduler → Scheduler
mark st now p s = record s {
  heap = set_cell p (record (s.heap p) { state = st; last_used = now }) s.heap;
}

-- The loop of `Acquire`.
unfoldable pub first_idle : (ℕ → Container) → List ℕ → Option ℕ
first_idle h [] = none
first_idle h (p ∷ ps) = if is_idle (h p).state then some p else first_idle h ps

-- How the first critical section of `Acquire` ends.
pub data Reserved : Type 0 where
  missing : Reserved
  reused : ℕ → Reserved
  must_start : FunctionConfig → Reserved

abbrev pub take_port : FunctionConfig → Scheduler → Reserved × Scheduler
take_port cfg s =
    (must_start (record cfg { port = s.next_port }), record s { next_port = suc s.next_port })

unfoldable pub reserve : String → ℕ → Scheduler → Reserved × Scheduler
unfolding first_idle mark
reserve name now s = elim (lookup name s.functions) [
  | none ↦ (missing, s)
  | some cfg ↦ elim (first_idle s.heap (pool_of name s)) [
    | some p ↦ (reused p, mark busy now p s)
    | none ↦ take_port cfg s
  ]
]

abbrev pub new_container : RuntimeInstance → ContainerState → ℕ → Container
new_container inst st now = record {
  id = inst.id;
  addr = inst.addr;
  state = st;
  last_used = now;
  func_name = inst.func_name;
  node_name = inst.node_name;
}

-- The object that `start` returns, and `s.pool[name] = append(s.pool[name], c)`.
unfoldable pub add_instance :
    String → RuntimeInstance → ContainerState → ℕ → Scheduler → ℕ × Scheduler
add_instance name inst st now s = (
  s.next_ptr,
  record s {
    heap = set_cell s.next_ptr (new_container inst st now) s.heap;
    pool = insert name (pool_of name s ++ (s.next_ptr ∷ [])) s.pool;
    next_ptr = suc s.next_ptr;
  },
)

-- What the backend answers to `Start`.
pub data Started : Type 0 where
  ready : RuntimeInstance → Started
  failed : String → Started

pub data Acquired : Type 0 where
  got : ℕ → Acquired
  refused : Error → Acquired

unfoldable pub finish_start : String → Started → ℕ → Scheduler → Acquired × Scheduler
unfolding add_instance
finish_start name (failed e) now s = (refused (cold_start_failed e), s)
finish_start name (ready inst) now s =
    let (p, s') = add_instance name inst busy now s in (got p, s')

unfoldable pub after_reserve :
    (FunctionConfig → Started) → String → ℕ → Reserved × Scheduler → Acquired × Scheduler
unfolding finish_start
after_reserve start name now (missing, s) = (refused (function_not_found name), s)
after_reserve start name now (reused p, s) = (got p, s)
after_reserve start name now (must_start cfg, s) = finish_start name (start cfg) now s

-- `Acquire` with nobody else at work; `start` is the backend, and the clock is read at `now` under
-- the lock and at `later` after a cold start.
unfoldable pub acquire :
    (FunctionConfig → Started) → String → ℕ → ℕ → Scheduler → Acquired × Scheduler
unfolding reserve after_reserve
acquire start name now later s = after_reserve start name later (reserve name now s)

unfoldable pub release : ℕ → ℕ → Scheduler → Scheduler
unfolding mark
release p now s = mark idle now p s

-- `ColdStartOne`: the critical section, then what the goroutine does with the backend's answer.
unfoldable pub reserve_port : String → Scheduler → Option FunctionConfig × Scheduler
reserve_port name s = elim (lookup name s.functions) [
  | none ↦ (none, s)
  | some cfg ↦ (some (record cfg { port = s.next_port }), record s { next_port = suc s.next_port })
]

unfoldable pub finish_prewarm : String → Started → ℕ → Scheduler → Scheduler
unfolding add_instance
finish_prewarm name (failed e) now s = s
finish_prewarm name (ready inst) now s = (add_instance name inst idle now s).1

abbrev pub count_state : (ContainerState → Bool) → (ℕ → Container) → List ℕ → ℕ
count_state test h [] = 0
count_state test h (p ∷ ps) =
    if test (h p).state then suc (count_state test h ps) else count_state test h ps

-- `Stats`: busy and idle.
unfoldable pub stats : String → Scheduler → ℕ × ℕ
stats name s =
    (count_state is_busy s.heap (pool_of name s), count_state is_idle s.heap (pool_of name s))

unfoldable pub container_ids : String → Scheduler → List String
container_ids name s = map (λ p. (s.heap p).id) (pool_of name s)

abbrev pub ids_of : Scheduler → List ℕ → List String
ids_of s ps = map (λ p. (s.heap p).id) ps

-- `Deregister`, with the ids that it stops.
unfoldable pub deregister : String → Scheduler → List String × Scheduler
deregister name s = (
  ids_of s (pool_of name s),
  record s { functions = erase name s.functions; pool = erase name s.pool },
)

-- The last critical section of `UploadCode`: `cfg` was read at the start, and the directory, the
-- key and the URL of the new code were put in.
unfoldable pub replace_code : String → FunctionConfig → Scheduler → List String × Scheduler
replace_code name cfg s = (
  ids_of s (pool_of name s),
  record s { functions = insert name cfg s.functions; pool = insert name [] s.pool },
)

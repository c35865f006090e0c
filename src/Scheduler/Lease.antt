-- ===== src/Scheduler/Lease.antt =====
-- Leases on instances: `AcquireInstance`, `ReleaseInstance` and the reaping of expired leases in
-- gateway/scheduler/scheduler.go. `env_max` is what `envInt` reads from
-- MAX_FUNCTION_TIMEOUT_SECONDS (by default 300), `fresh_id` the id that `uuid.NewString` makes.
pub mod Timeout
pub mod Trigger
pub mod Release
pub mod Reap
pub mod Grant
use serverless.Base.{
  ℕ, ◌+◌, ◌*◌, ℤ, pos, scale, wrap64, ◌+ℤ◌, ltb_ℤ, leb_ℤ, String, Bool, true, false, not, ◌&&◌,
  ◌||◌, List, [], ◌∷◌, ◌++◌, Option, none, some, Dict, lookup, insert, erase, str_eq, ◌==◌, any,
  if◌then◌else◌,
}
use serverless.Scheduler.Types.{
  TriggerConfig, FunctionConfig, AcquireInstanceRequest, InstanceLease, LeaseRecord, idle,
  Container, Scheduler, Error, function_not_found, invalid_trigger, lease_not_found,
  invalid_lease_status,
}
use serverless.Scheduler.Pool.{pool_of, mark, Started, Acquired, got, refused, acquire}

abbrev pub second : ℤ → ℤ
second = scale 1000000000

-- `if x <= 0 { x = y }`
abbrev pub or_if_nonpos : ℤ → ℤ → ℤ
or_if_nonpos x y = if leb_ℤ x (pos 0) then y else x

unfoldable pub clamp_lease_timeout : ℤ → ℤ → ℤ → ℤ
clamp_lease_timeout env_max requested function_timeout =
    let max_timeout = or_if_nonpos (or_if_nonpos function_timeout env_max) (pos 300) in
    let given = or_if_nonpos (or_if_nonpos requested function_timeout) (pos 30) in
    let timeout = if ltb_ℤ given (pos 1) then pos 1 else given in
    if ltb_ℤ max_timeout timeout then max_timeout else timeout

unfoldable pub is_valid_lease_status : String → Bool
is_valid_lease_status status =
    str_eq status "success"
    || str_eq status "error"
    || str_eq status "timeout"
    || str_eq status "abandoned"

abbrev pub ends_instance : String → Bool
ends_instance status = str_eq status "timeout" || str_eq status "abandoned"

-- The test in the loop of `validateAcquireTrigger`.
abbrev pub trigger_matches : AcquireInstanceRequest → TriggerConfig → Bool
trigger_matches req t =
    str_eq t.id req.trigger_id && str_eq t.mq_id req.mq_id && str_eq t.kind "mq" && t.enabled

unfoldable pub validate_acquire_trigger : FunctionConfig → AcquireInstanceRequest → Option Error
validate_acquire_trigger cfg req =
    if not (str_eq req.source "mq") || str_eq req.mq_id "" || str_eq req.trigger_id ""
    then some invalid_trigger
    else if any (trigger_matches req) cfg.triggers
    then none
    else some invalid_trigger

-- The lease on a container object, for a timeout that is already clamped.
abbrev pub make_lease : String → AcquireInstanceRequest → ℤ → Container → InstanceLease
make_lease fresh_id req timeout c = record {
  lease_id = fresh_id;
  function = req.function;
  instance_id = c.id;
  address = c.addr;
  timeout_seconds = timeout;
  source = req.source;
  mq_id = req.mq_id;
  trigger_id = req.trigger_id;
  message_id = req.message_id;
}

-- `time.Duration(seconds)*time.Second + 5*time.Second` on int64.
unfoldable pub lease_duration : ℤ → ℤ
unfolding wrap64 ◌+ℤ◌
lease_duration timeout = wrap64 (wrap64 (second timeout) +ℤ second (pos 5))

abbrev pub new_record : InstanceLease → ℕ → ℕ → LeaseRecord
new_record lease p now = record {
  lease = lease;
  target = p;
  deadline = pos now +ℤ lease_duration lease.timeout_seconds;
  released = false;
}

-- The last critical section of `AcquireInstance`.
unfoldable pub record_lease : InstanceLease → ℕ → ℕ → Scheduler → Scheduler
record_lease lease p now s = record s {
  leases = insert lease.lease_id (new_record lease p now) s.leases;
}

pub data Granted : Type 0 where
  granted : InstanceLease → Granted
  denied : Error → Granted

unfoldable pub grant_lease :
    ℤ
    → String
    → AcquireInstanceRequest
    → FunctionConfig
    → ℕ
    → Acquired × Scheduler
    → Granted × Scheduler
unfolding clamp_lease_timeout record_lease
grant_lease env_max fresh_id req cfg now (refused e, s) = (denied e, s)
grant_lease env_max fresh_id req cfg now (got p, s) =
    let timeout = clamp_lease_timeout env_max req.timeout_seconds cfg.timeout in
    let lease = make_lease fresh_id req timeout (s.heap p) in
    (granted lease, record_lease lease p now s)

abbrev pub acquire_checked :
    ℤ
    → (FunctionConfig → Started)
    → String
    → AcquireInstanceRequest
    → ℕ
    → ℕ
    → ℕ
    → FunctionConfig
    → Option Error
    → Scheduler
    → Granted × Scheduler
acquire_checked env_max start fresh_id req now later at cfg (some e) s = (denied e, s)
acquire_checked env_max start fresh_id req now later at cfg none s =
    grant_lease env_max fresh_id req cfg at (acquire start req.function now later s)

-- `AcquireInstance` with nobody else at work; the clock is read at `now` and `later` by `Acquire`,
-- and at `at` for the deadline.
unfoldable pub acquire_instance :
    ℤ
    → (FunctionConfig → Started)
    → String
    → AcquireInstanceRequest
    → ℕ
    → ℕ
    → ℕ
    → Scheduler
    → Granted × Scheduler
unfolding validate_acquire_trigger grant_lease acquire
acquire_instance env_max start fresh_id req now later at s =
    elim (lookup req.function s.functions) [
      | none ↦ (denied (function_not_found req.function), s)
      | some cfg ↦
          acquire_checked env_max start fresh_id req now later at cfg
            (validate_acquire_trigger cfg req) s
    ]

-- The loop of `removeInstanceLocked`, which takes out the first match.
unfoldable pub remove_target : (ℕ → Container) → ℕ → List ℕ → Option (List ℕ)
remove_target h p [] = none
remove_target h p (c ∷ cs) =
    let rest = remove_target h p cs in
    if c == p || str_eq (h c).id (h p).id
    then some cs
    else elim rest [ none ↦ none | some cs' ↦ some (c ∷ cs') ]

unfoldable pub remove_instance : ℕ → Scheduler → Scheduler
unfolding remove_target
remove_instance p s =
    let name = (s.heap p).func_name in
    elim (remove_target s.heap p (pool_of name s)) [
      | none ↦ s
      | some cs ↦ record s { pool = insert name cs s.pool }
    ]

-- What a release answers: the id of an instance to stop, if any. An empty `stopID` is none.
pub data Released : Type 0 where
  freed : Option String → Released
  rejected : Error → Released

abbrev pub stop_of : String → Option String
stop_of id = if str_eq id "" then none else some id

unfoldable pub release_found : String → String → ℕ → LeaseRecord → Scheduler → Released × Scheduler
unfolding remove_instance mark
release_found lease_id status now r s =
    let s' = record s { leases = erase lease_id s.leases } in
    if ends_instance status
    then (freed (stop_of (s.heap r.target).id), remove_instance r.target s')
    else (freed none, mark idle now r.target s')

-- `releaseInstanceLocked`
unfoldable pub release_locked : String → String → ℕ → Scheduler → Released × Scheduler
unfolding release_found
release_locked lease_id status now s = elim (lookup lease_id s.leases) [
  | none ↦ (rejected (lease_not_found lease_id), s)
  | some r ↦
      if r.released
      then (rejected (lease_not_found lease_id), s)
      else release_found lease_id status now r s
]

-- `ReleaseInstance`
unfoldable pub release_instance : String → String → ℕ → Scheduler → Released × Scheduler
unfolding is_valid_lease_status release_locked
release_instance lease_id status now s =
    if is_valid_lease_status status
    then release_locked lease_id status now s
    else (rejected (invalid_lease_status status), s)

-- `stops = append(stops, stopID)`, if there is one.
abbrev pub stop_ids : Released → List String
stop_ids (rejected e) = []
stop_ids (freed none) = []
stop_ids (freed (some id)) = id ∷ []

abbrev pub reap_lease : String × LeaseRecord → ℕ → Scheduler → List String × Scheduler
reap_lease (lease_id, r) now s =
    if ltb_ℤ r.deadline (pos now)
    then (let (a, s') = release_locked lease_id "timeout" now s in (stop_ids a, s'))
    else ([], s)

-- The loop of `reapExpiredLeases` over the leases that it finds.
unfoldable pub reap_list : List (String × LeaseRecord) → ℕ → Scheduler → List String × Scheduler
reap_list [] now s = ([], s)
reap_list (e ∷ es) now s =
    let (stops, s') = reap_lease e now s in
    let (more, s'') = reap_list es now s' in (stops ++ more, s'')

unfoldable pub reap_expired_leases : ℕ → Scheduler → List String × Scheduler
unfolding reap_list
reap_expired_leases now s = reap_list s.leases now s

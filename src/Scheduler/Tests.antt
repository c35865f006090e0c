-- ===== src/Scheduler/Tests.antt =====
-- Runs of the scheduler, and its theorems at concrete states.
use serverless.Base.{
  ◌*◌, ◌≡◌, refl, ◌≢◌, ◌↔◌, ◌≤◌, pos, ◌≤ℤ◌, ◌<ℤ◌, wrap64, ◌+ℤ◌, String, true, false, List, [], ◌∷◌,
  Option, none, some, lookup, insert, erase, codes,
}
use serverless.Label.Gateway.{IsLabel}
use serverless.Scheduler.Types.{
  TriggerConfig, FunctionConfig, AcquireInstanceRequest, InstanceLease, Container, idle, busy,
  RuntimeInstance, Scheduler,
}
use serverless.Scheduler.Register.{with_defaults, register, is_supported_runtime}
use serverless.Scheduler.Register.Laws.{
  AreTriggers, Registered, register-Registered, register-eq-none_iff,
}
use serverless.Scheduler.Pool.{set_cell, minute, Started, ready, acquire, got}
use serverless.Scheduler.Pool.Acquire.{AcquireResult, acquire-AcquireResult}
use serverless.Scheduler.Shrink.{remove_idle}
use serverless.Scheduler.Shrink.Oldest.{Removed, remove_idle-Removed}
use serverless.Scheduler.Lease.{
  clamp_lease_timeout, release_instance, reap_expired_leases, new_record, make_lease,
  lease_duration, acquire_instance,
}
use serverless.Scheduler.Lease.Trigger.{Allowed, validate_acquire_trigger_iff}
use serverless.Scheduler.Lease.{validate_acquire_trigger}
use serverless.Scheduler.Lease.Timeout.{clamp_lease_timeout_range}
use serverless.Scheduler.Lease.Release.{ReleaseResult, release_instance-Result}
use serverless.Scheduler.Lease.Grant.{GrantResult, acquire_instance-GrantResult}
use serverless.Scheduler.Lease.Reap.{still_live, reap_expired_leases-lookup}
use serverless.Scheduler.World.{
  Event, reserves, started, leases_out, releases_lease, run, start_world, uses, no_container,
  new_scheduler,
}
use serverless.Scheduler.World.Safety.{run-exclusive}

abbrev orders_trigger : TriggerConfig
orders_trigger = record {
  id = "orders";
  kind = "mq";
  enabled = true;
  mq_id = "main";
  queue = "orders";
  max_concurrency = pos 2;
  prefetch = pos 0;
  max_attempts = pos 3;
  retry_backoff_ms = pos 0;
  dlq = "";
}

abbrev resize : FunctionConfig
resize = record {
  name = "resize";
  image = "";
  runtime = "go";
  timeout = pos 0;
  memory = pos 256;
  handler = "";
  triggers = orders_trigger ∷ [];
  code_dir = "";
  code_key = "";
  code_url = "";
  port = 0;
}

abbrev first_instance : RuntimeInstance
first_instance = record { id = "c1"; addr = "localhost:9100"; func_name = "resize"; node_name = "" }

abbrev resize_container : Container
resize_container = record {
  id = "c1";
  addr = "localhost:9100";
  state = busy;
  last_used = 7;
  func_name = "resize";
  node_name = "";
}

abbrev request : AcquireInstanceRequest
request = record {
  function = "resize";
  source = "mq";
  mq_id = "main";
  trigger_id = "orders";
  message_id = "m1";
  timeout_seconds = pos 20;
}

abbrev lease : InstanceLease
lease = make_lease "l1" request (pos 20) resize_container

-- One instance, leased out until 25 seconds after time 7.
abbrev leased : Scheduler
leased = record {
  functions = ("resize", with_defaults resize) ∷ [];
  pool = ("resize", 0 ∷ []) ∷ [];
  next_port = 9101;
  leases =
      ("l1", record { lease = lease; target = 0; deadline = pos 25000000007; released = false })
      ∷ [];
  heap = set_cell 0 resize_container (λ _. no_container);
  next_ptr = 1;
}

-- The same after the work is done.
abbrev free : Scheduler
free = record leased {
  leases = [];
  heap = set_cell 0 (record resize_container { state = idle }) (λ _. no_container);
}

abbrev backend : FunctionConfig → Started
backend cfg = ready first_instance

abbrev history : List Event
history =
    reserves "resize" 5
    ∷ started "resize" first_instance 7
    ∷ leases_out lease 0 7
    ∷ reserves "resize" 8
    ∷ releases_lease "l1" "success" 9
    ∷ reserves "resize" 10
    ∷ []

history-uses : uses (run (start_world (("resize", resize) ∷ [])) history) 0 ≡ 1
unfolding run start_world wrap64 ◌+ℤ◌ lookup insert erase
history-uses = refl

reuse : (acquire backend "resize" 9 9 free).0 ≡ got 0
unfolding acquire lookup
reuse = refl

deadline_of_new_lease : (new_record lease 0 7).deadline ≡ pos 25000000007
unfolding lease_duration ◌+ℤ◌
deadline_of_new_lease = refl

run-exclusive_example :
    let w = run (start_world (("resize", resize) ∷ [])) history in
    (uses w 0 ≤ 1) × ((w.sched.heap 0).state ≢ busy → uses w 0 ≡ 0)
run-exclusive_example = run-exclusive (("resize", resize) ∷ []) history 0

acquire-AcquireResult_example :
    AcquireResult backend "resize" 9 free (acquire backend "resize" 9 9 free)
acquire-AcquireResult_example = acquire-AcquireResult backend "resize" 9 9 free

release_instance-Result_example :
    ReleaseResult "l1" "timeout" 9 leased (release_instance "l1" "timeout" 9 leased)
release_instance-Result_example = release_instance-Result "l1" "timeout" 9 leased

reap_expired_leases-lookup_example :
    lookup "l1" (reap_expired_leases 30000000000 leased).1.leases
    ≡ still_live 30000000000 (lookup "l1" leased.leases)
unfolding lookup
reap_expired_leases-lookup_example =
    reap_expired_leases-lookup 30000000000 leased "l1" (refl, tt) (refl, tt)

clamp_lease_timeout_range_example :
    (pos 1 ≤ℤ clamp_lease_timeout (pos 300) (pos 90) (pos 30))
    × (clamp_lease_timeout (pos 300) (pos 90) (pos 30) ≤ℤ pos 30)
    × (pos 1 ≤ℤ pos 90
        → pos 90 ≤ℤ pos 30
        → clamp_lease_timeout (pos 300) (pos 90) (pos 30) ≡ pos 90)
    × (pos 30 <ℤ pos 90 → clamp_lease_timeout (pos 300) (pos 90) (pos 30) ≡ pos 30)
clamp_lease_timeout_range_example = clamp_lease_timeout_range (pos 300) (pos 90) (pos 30)

remove_idle-Removed_example :
    Removed "resize" (3 * minute) free (remove_idle "resize" (3 * minute) free)
remove_idle-Removed_example = remove_idle-Removed "resize" (3 * minute) free

register-Registered_example :
    Registered (with_defaults resize) free (register (λ c. c) (some "disk full") resize free)
register-Registered_example = register-Registered (λ c. c) (some "disk full") resize free

register-eq-none_iff_example : ((register (λ c. c) none resize (new_scheduler [])).0 ≡ none) ↔ (
    IsLabel (codes "resize")
    × (is_supported_runtime (with_defaults resize).runtime ≡ true)
    × AreTriggers [] (orders_trigger ∷ [])
    × (lookup "resize" (new_scheduler []).functions ≡ none)
    × (◌≡◌ {A = Option String} none none))
unfolding with_defaults
register-eq-none_iff_example =
    register-eq-none_iff (λ c. c) (λ c h. refl) none resize (new_scheduler [])

acquire_instance-GrantResult_example :
    GrantResult
      (pos 300)
      backend
      "l2"
      request
      8
      8
      9
      free
      (acquire_instance (pos 300) backend "l2" request 8 8 9 free)
acquire_instance-GrantResult_example =
    acquire_instance-GrantResult (pos 300) backend "l2" request 8 8 9 free

validate_acquire_trigger_iff_example :
    (validate_acquire_trigger resize request ≡ none) ↔ Allowed resize request
validate_acquire_trigger_iff_example = validate_acquire_trigger_iff resize request

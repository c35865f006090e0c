-- ===== src/Gateway/Tests.antt =====
-- The theorems of the gateway's path at concrete states.
use serverless.Base.{
  ℕ, ◌≡◌, refl, ◌↔◌, ◌≤ℤ◌, pos, ℤ, String, true, false, List, [], ◌∷◌, Option, none, some, All,
  arith, if◌then◌else◌, ◌==◌, map,
}
use serverless.Scheduler.Types.{FunctionConfig, Container, idle, busy, Scheduler, InstanceLease}
use serverless.Scheduler.Pool.{Started, failed as start_failed}
use serverless.Gateway.Queue.{
  Event, try_place, join_queue, take_place, leave, finish, give_up, timed_out, run, new_queue,
}
use serverless.Gateway.Waiting.{InOrder}
use serverless.Gateway.Manager.{queue_of, steps_of, manager_run, manager_run-InOrder}
use serverless.Gateway.Router.{Exchange, answered, panicked, invoke, Invoked, invoke-Invoked}
use serverless.Gateway.Routes.{Request, release_route}
use serverless.Gateway.Released.{RouteReleased, release_route-RouteReleased}

-- One place: the second request waits, the third is turned away, and the second times out.
abbrev crowd : List Event
crowd =
    try_place 0
    ∷ try_place 1
    ∷ join_queue 1
    ∷ try_place 2
    ∷ join_queue 2
    ∷ take_place 1
    ∷ give_up 1 timed_out
    ∷ finish 0
    ∷ leave 1
    ∷ []

-- The same beside a request of another function.
abbrev two_functions : List (String × Event)
two_functions = ("mail", try_place 0) ∷ map (λ e. ("resize", e)) crowd

manager_run-InOrder_example :
    let fq = queue_of "resize" (manager_run 1 (pos 1) two_functions []) in
    (fq ≡ run 1 (pos 1) (steps_of "resize" two_functions) new_queue) × InOrder 1 (pos 1) 3 fq
manager_run-InOrder_example =
    manager_run-InOrder 1 (pos 1) 3 two_functions (ground arith) (omega arith) "resize"

abbrev resize : FunctionConfig
resize = record {
  name = "resize";
  image = "";
  runtime = "go";
  timeout = pos 60;
  memory = pos 256;
  handler = "main";
  triggers = [];
  code_dir = "";
  code_key = "";
  code_url = "";
  port = 0;
}

abbrev lease : InstanceLease
lease = record {
  lease_id = "l1";
  function = "resize";
  instance_id = "i1";
  address = "10.0.0.1:9001";
  timeout_seconds = pos 30;
  source = "mq";
  mq_id = "main";
  trigger_id = "orders";
  message_id = "m1";
}

-- The instance 0 is leased, the instance 1 is idle.
abbrev two_instances : Scheduler
two_instances = record {
  functions = ("resize", resize) ∷ [];
  pool = ("resize", 0 ∷ 1 ∷ []) ∷ [];
  next_port = 9100;
  leases = ("l1", record { lease = lease; target = 0; deadline = pos 100; released = false }) ∷ [];
  heap = λ p. record {
    id = if p == 0 then "i1" else "i2";
    addr = "10.0.0.1:9001";
    state = if p == 0 then busy else idle;
    last_used = 0;
    func_name = "resize";
    node_name = "";
  };
  next_ptr = 2;
}

-- The runtime gave up waiting: status 504 and an object without `statusCode`.
abbrev gave_up : Container → Exchange
gave_up c = answered 504 (pos 0) []

gave_up_panics :
    (invoke (λ cfg. start_failed "") gave_up (some []) "resize" 5 5 9 two_instances).0 ≡ panicked
unfolding invoke serverless.Scheduler.Pool.acquire serverless.Base.lookup
gave_up_panics = refl

invoke-Invoked_example :
    Invoked
      (λ cfg. start_failed "")
      gave_up
      (some [])
      "resize"
      5
      5
      9
      two_instances
      (invoke (λ cfg. start_failed "") gave_up (some []) "resize" 5 5 9 two_instances)
invoke-Invoked_example =
    invoke-Invoked (λ cfg. start_failed "") gave_up (some []) "resize" 5 5 9 two_instances

abbrev release_l1 : Request String
release_l1 = record {
  token = some "secret";
  is_post = true;
  segment = some "l1";
  body = some "error";
}

release_route-RouteReleased_example :
    RouteReleased "secret" release_l1 9 two_instances
      (release_route "secret" release_l1 9 two_instances)
release_route-RouteReleased_example =
    release_route-RouteReleased "secret" release_l1 9 two_instances

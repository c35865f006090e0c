-- ===== src/Mq/Tests.antt =====
-- A message on its way, and the theorems of mqsvc at concrete values.
use serverless.Base.{
  ℕ, ◌≡◌, refl, ◌≤◌, ◌<◌, ◌^◌, pos, ℤ, All, String, Bool, true, false, List, [], ◌∷◌, Option, none,
  some, lookup_or, ◌⊎◌, inl, inr, arith, ltb, if◌then◌else◌, ◌+◌,
}
use serverless.Mq.Types.{Trigger, Message, MessageResult, Grant}
use serverless.Mq.Metrics.{
  Call, received, acked, retried, no_metrics, record_calls, tally, no_calls, Counts,
  record_calls-Counts,
}
use serverless.Mq.Worker.{
  Surroundings, answered, handle_message, HandledRight, handle_message-HandledRight,
}
use serverless.Scheduler.Lease.{is_valid_lease_status}
use serverless.Mq.Statuses.{handle_message_valid}
use serverless.Mq.Rabbit.{
  Delivery, int32, attempts_from_headers, publishing_for_delivery,
  attempts_from_headers-publishing_for_delivery, PublishAnswers, timed_out, settle_delivery,
  Settled, settle_delivery-Settled,
}

abbrev orders : Trigger
orders = record {
  id = "orders";
  kind = "mq";
  enabled = true;
  mq_id = "main";
  queue = "orders";
  function = "resize";
  max_concurrency = pos 1;
  prefetch = pos 1;
  max_attempts = pos 3;
  retry_backoff_ms = pos 1000;
  dlq = "dead";
  broker = "rabbitmq";
}

abbrev third_try : Message
third_try = record { id = "m1"; body = 123 ∷ 125 ∷ []; headers = []; attempts = pos 2 }

abbrev lease : Grant
lease = record {
  lease_id = "l1";
  function = "resize";
  instance_id = "i1";
  address = "10.0.0.1:9001";
  timeout_seconds = pos 30;
}

-- The runtime answers that the function failed.
abbrev failing : Surroundings
failing = record {
  acquire = answered 200 (inr lease);
  marshal_error = none;
  runtime = answered 200 (inr (pos 500));
  context_deadline = false;
  context_canceled = false;
  release = λ status. answered 204 (inr tt);
}

third_try_dead :
    (handle_message failing orders third_try).result
    ≡ record { ack = false; dlq = true; reason = "function returned an error status" }
unfolding handle_message serverless.Base.◌+ℤ◌ serverless.Base.wrap64
third_try_dead = refl

handle_message-HandledRight_example :
    HandledRight failing orders third_try (handle_message failing orders third_try)
handle_message-HandledRight_example = handle_message-HandledRight failing orders third_try

abbrev two_messages : List (String × Call)
two_messages =
    ("orders", received)
    ∷ ("mails", received)
    ∷ ("orders", received)
    ∷ ("orders", retried "busy")
    ∷ ("mails", acked)
    ∷ []

record_calls-Counts_example :
    Counts
      (tally "orders" two_messages no_calls)
      (lookup_or no_metrics "orders" (record_calls two_messages []))
record_calls-Counts_example = record_calls-Counts "orders" two_messages (ground arith) (omega arith)

abbrev delivery : Delivery
delivery = record {
  message_id = "m1";
  delivery_tag = 7;
  content_type = "application/json";
  body = 123 ∷ 125 ∷ [];
  headers = ("x-faas-attempts", int32 (pos 2)) ∷ [];
}

-- The confirmation of the dead letter does not come in time.
abbrev unconfirmed : PublishAnswers
unconfirmed = record {
  channel_fails = false;
  confirm_fails = false;
  publish_fails = false;
  confirmation = timed_out;
}

abbrev dead : MessageResult
dead = record { ack = false; dlq = true; reason = "function failed" }

settle_delivery-Settled_example :
    Settled orders delivery third_try dead
      (settle_delivery unconfirmed false orders delivery third_try dead)
settle_delivery-Settled_example =
    settle_delivery-Settled unconfirmed false orders delivery third_try dead

attempts_from_headers-publishing_for_delivery_example :
    attempts_from_headers
      (λ s. pos 0)
      (publishing_for_delivery delivery "m1" (pos 3) "function failed").headers
    ≡ pos 3
attempts_from_headers-publishing_for_delivery_example =
    attempts_from_headers-publishing_for_delivery (λ s. pos 0) delivery "m1" 3 "function failed"
      (omega arith)

handle_message_valid_example :
    All
      (λ status. is_valid_lease_status status ≡ true)
      (handle_message failing orders third_try).releases
handle_message_valid_example = handle_message_valid failing orders third_try

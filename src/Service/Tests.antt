-- ===== src/Service/Tests.antt =====
-- The theorems on triggers at a concrete one.
use serverless.Base.{
  arith, List, ◌≡◌, refl, ◌↔◌, String, Bool, pos, true, false, [], ◌∷◌, Option, none, some, lookup,
  insert, str_eq, if◌then◌else◌,
}
use serverless.Mq.Types.{MqInstance, Trigger}
use serverless.Service.Triggers.{normalize_trigger, same_trigger}
use serverless.Service.Reconcile.{Service, reconcile_triggers, sync_triggers}
use serverless.Label.Mq.{dns_label, is_dns_label}
use serverless.Service.Config.{
  Config, Url, validate_broker_url, instance_error, mq_trigger_error, validate_config, new_service,
  start,
}
use serverless.Service.Config.Accepted.{
  AreInstances, AreMqTriggers, ids_onto, validate_config-eq-none_iff, start-new_service,
}
use serverless.Service.Listed.{Listed, Event, reconciled, ended, run, run-Listed}
use serverless.Service.Wanted.{wanted}
use serverless.Service.Consumers.{Reconciled, reconcile_triggers-Reconciled}
use serverless.Service.Merging.{last_of, asked_by, sync_triggers-Synced}
use serverless.Service.Triggers.{instances_from, instance_by_id}

abbrev orders : Trigger
orders = record {
  id = "orders";
  kind = "mq";
  enabled = true;
  mq_id = "main";
  queue = "orders";
  function = "resize";
  max_concurrency = pos 0;
  prefetch = pos 0;
  max_attempts = pos 3;
  retry_backoff_ms = pos 0;
  dlq = "dead";
  broker = "";
}

abbrev main_broker : MqInstance
main_broker = record { mq_id = "main"; broker = "rabbitmq"; url = "amqp://mq" }

abbrev old_orders : Trigger
old_orders = record orders { queue = "old"; broker = "rabbitmq" }

-- A configured trigger, and a consumer whose queue has changed since.
abbrev running : Service
running = record {
  instances = main_broker ∷ [];
  config_triggers = orders ∷ [];
  triggers = old_orders ∷ [];
  brokers = [];
  consumers = ("main:resize:orders", old_orders) ∷ [];
}

abbrev always : MqInstance → Bool
always inst = true

reconcile_triggers-Reconciled_example :
    Reconciled always (orders ∷ []) running (reconcile_triggers always (orders ∷ []) running)
unfolding lookup
reconcile_triggers-Reconciled_example =
    reconcile_triggers-Reconciled always (orders ∷ []) running (refl, tt)

abbrev paused : Trigger
paused = record orders { id = "paused"; enabled = false }

sync_triggers-Synced_example :
    let (error, s) = sync_triggers always (some (paused ∷ [])) running in
    (error ≡ none)
    × ((k : String)
        → lookup k s.consumers
          ≡ asked_by (instance_by_id running.instances) k (last_of k (orders ∷ paused ∷ [])))
unfolding lookup instances_from insert
sync_triggers-Synced_example =
    sync_triggers-Synced always (paused ∷ []) running (refl, tt) (λ inst. refl) refl

-- The consumer of the old queue is replaced.
replaced_test :
    lookup "main:resize:orders" (reconcile_triggers always (orders ∷ []) running).1.consumers
    ≡ some (normalize_trigger orders main_broker)
unfolding lookup reconcile_triggers normalize_trigger instances_from insert same_trigger
replaced_test = refl

abbrev accepted : Config
accepted = record {
  gateway_addr = "localhost:8081";
  mq_instances = main_broker ∷ [];
  triggers = orders ∷ paused ∷ [];
}

-- A parser that knows one URL.
abbrev parse_one : String → Option Url
parse_one text =
    if str_eq text "amqp://mq" then some (record { scheme = "amqp"; host = "mq" }) else none

accepted_test : validate_config (λ c. c) parse_one accepted ≡ none
unfolding validate_config instance_error validate_broker_url mq_trigger_error dns_label is_dns_label
accepted_test = refl

validate_config-eq-none_iff_example : (validate_config (λ c. c) parse_one accepted ≡ none) ↔ (
    AreInstances parse_one [] accepted.mq_instances
    × AreMqTriggers (ids_onto [] accepted.mq_instances) [] accepted.triggers)
validate_config-eq-none_iff_example =
    validate_config-eq-none_iff (λ c. c) (λ c h. refl) parse_one accepted

start-new_service_example :
    let (error, s) = start always none (new_service accepted) in
    (error ≡ none)
    × ((k : String)
        → lookup k s.consumers ≡ wanted (instance_by_id accepted.mq_instances) accepted.triggers k)
start-new_service_example =
    start-new_service (λ c. c) (λ c h. refl) parse_one accepted always accepted_test (λ inst. refl)

-- A consumer that starts, ends and starts again, while an unknown instance fails a reconciliation.
abbrev restarts : List Event
restarts =
    reconciled always (orders ∷ [])
    ∷ reconciled always (record orders { mq_id = "other" } ∷ [])
    ∷ ended (normalize_trigger orders main_broker)
    ∷ reconciled always (orders ∷ paused ∷ [])
    ∷ []

run-Listed_example : Listed (run restarts (new_service accepted))
unfolding lookup new_service
run-Listed_example = run-Listed restarts (new_service accepted) (tt, λ k t e. ground (arith, e))

-- ===== src/Service/Config.antt =====
-- mqsvc/config.go: `validateConfig`. `parse_url` is `url.ParseRequestURI`, as far as its scheme and
-- host are used, and `lower` is `unicode.ToLower`.
mod Entries
pub mod Accepted
use serverless.Base.{
  ℕ, pos, String, Bool, true, false, not, ◌&&◌, ◌||◌, List, [], ◌∷◌, Option, none, some, ◌⊎◌, inl,
  inr, str_eq, codes, ltb_ℤ, any, if◌then◌else◌,
}
use serverless.Label.Gateway.{text_eq}
use serverless.Label.Mq.{dns_label, is_dns_label}
use serverless.Mq.Types.{MqInstance, Trigger}
use serverless.Service.Triggers.{has_enabled_triggers}
use serverless.Service.Reconcile.{Service, Error, sync_triggers}

pub record Config : Type 0 where
  pub gateway_addr : String
  pub mq_instances : List MqInstance
  pub triggers : List Trigger

-- A URL, as far as it is looked at.
pub record Url : Type 0 where
  pub scheme : String
  pub host : String

pub data ConfigError : Type 0 where
  instance_incomplete : ConfigError
  unsupported_broker : String → ConfigError
  invalid_url : String → ConfigError
  not_amqp : String → ConfigError
  duplicate_mq_id : String → ConfigError
  trigger_id_required : ConfigError
  invalid_trigger_id : String → ConfigError
  duplicate_trigger_id : String → ConfigError
  unsupported_trigger_type : String → ConfigError
  negative_field : String → String → ConfigError
  trigger_incomplete : String → ConfigError
  unknown_mq_id : String → String → ConfigError
  invalid_function : String → String → ConfigError

unfoldable pub validate_broker_url : (String → Option Url) → MqInstance → Option ConfigError
validate_broker_url parse_url inst = elim (parse_url inst.url) [
  | none ↦ some (invalid_url inst.mq_id)
  | some u ↦
      if str_eq u.scheme "" || str_eq u.host ""
      then some (invalid_url inst.mq_id)
      else if str_eq inst.broker "rabbitmq"
          && not (str_eq u.scheme "amqp")
          && not (str_eq u.scheme "amqps")
      then some (not_amqp inst.mq_id)
      else none
]

-- The body of the first loop, `ids` being those before.
unfoldable pub instance_error :
    (String → Option Url) → List String → MqInstance → Option ConfigError
unfolding validate_broker_url
instance_error parse_url ids inst =
    if str_eq inst.mq_id "" || str_eq inst.broker "" || str_eq inst.url ""
    then some instance_incomplete
    else if not (str_eq inst.broker "rabbitmq")
    then some (unsupported_broker inst.broker)
    else elim (validate_broker_url parse_url inst) [
      | some e ↦ some e
      | none ↦ if any (str_eq inst.mq_id) ids then some (duplicate_mq_id inst.mq_id) else none
    ]

-- The first loop: the first error, or the ids of the instances.
unfoldable pub validate_instances :
    (String → Option Url) → List String → List MqInstance → ConfigError ⊎ List String
validate_instances parse_url ids [] = inr ids
validate_instances parse_url ids (inst ∷ rest) = elim (instance_error parse_url ids inst) [
  | some e ↦ inl e
  | none ↦ validate_instances parse_url (inst.mq_id ∷ ids) rest
]

-- The body of the second loop, `seen` being the trigger ids before.
unfoldable pub mq_trigger_error : (ℕ → ℕ) → List String → List String → Trigger → Option ConfigError
mq_trigger_error lower ids seen t =
    if str_eq t.id ""
    then some trigger_id_required
    else if not (text_eq (codes t.id) (dns_label lower (codes t.id)))
    then some (invalid_trigger_id t.id)
    else if any (str_eq t.id) seen
    then some (duplicate_trigger_id t.id)
    else if not (str_eq t.kind "mq")
    then some (unsupported_trigger_type t.kind)
    else if ltb_ℤ t.max_concurrency (pos 0)
    then some (negative_field t.id "max_concurrency")
    else if ltb_ℤ t.max_attempts (pos 0)
    then some (negative_field t.id "max_attempts")
    else if ltb_ℤ t.prefetch (pos 0)
    then some (negative_field t.id "prefetch")
    else if ltb_ℤ t.retry_backoff_ms (pos 0)
    then some (negative_field t.id "retry_backoff_ms")
    else if not t.enabled
    then none
    else if str_eq t.mq_id "" || str_eq t.queue "" || str_eq t.function ""
    then some (trigger_incomplete t.id)
    else if not (any (str_eq t.mq_id) ids)
    then some (unknown_mq_id t.id t.mq_id)
    else if not (is_dns_label (codes t.function))
    then some (invalid_function t.id t.function)
    else none

unfoldable pub validate_mq_triggers :
    (ℕ → ℕ) → List String → List String → List Trigger → Option ConfigError
validate_mq_triggers lower ids seen [] = none
validate_mq_triggers lower ids seen (t ∷ ts) = elim (mq_trigger_error lower ids seen t) [
  | some e ↦ some e
  | none ↦ validate_mq_triggers lower ids (t.id ∷ seen) ts
]

unfoldable pub validate_config : (ℕ → ℕ) → (String → Option Url) → Config → Option ConfigError
unfolding validate_instances validate_mq_triggers
validate_config lower parse_url cfg = elim (validate_instances parse_url [] cfg.mq_instances) [
  | inl e ↦ some e
  | inr ids ↦ validate_mq_triggers lower ids [] cfg.triggers
]

-- The service that `main` starts with a configuration.
unfoldable pub new_service : Config → Service
new_service cfg = record {
  instances = cfg.mq_instances;
  config_triggers = cfg.triggers;
  triggers = [];
  brokers = [];
  consumers = [];
}

-- `Start`, before its loop; `discovered` is what the gateway answers with, if it does.
unfoldable pub start :
    (MqInstance → Bool) → Option (List Trigger) → Service → Option Error × Service
unfolding sync_triggers has_enabled_triggers
start connects discovered s =
    let (error, s') = sync_triggers connects discovered s in
    elim error [
      | none ↦ (none, s')
      | some e ↦ if has_enabled_triggers s'.config_triggers then (some e, s') else (none, s')
    ]

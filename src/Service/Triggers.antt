-- ===== src/Service/Triggers.antt =====
-- mqsvc/config.go and mqsvc/main.go: the defaults of a trigger, its key, and the test for a change.
use serverless.Base.{
  ◌↔◌, ◌<ℤ◌, ◌≡◌, pos, leb_ℤ, eq_ℤ, eq_ℤ_sound, Bool, true, false, ◌&&◌, if◌then◌else◌, List, [],
  ◌∷◌, Dict, insert, str_eq, eq_iff, arith,
}
use serverless.Mq.Types.{MqInstance, Trigger}

unfoldable pub normalize_trigger : Trigger → MqInstance → Trigger
normalize_trigger trigger inst =
    let most = if leb_ℤ trigger.max_concurrency (pos 0) then pos 1 else trigger.max_concurrency in
    record trigger {
      broker = inst.broker;
      max_concurrency = most;
      prefetch = if leb_ℤ trigger.prefetch (pos 0) then most else trigger.prefetch;
      retry_backoff_ms =
          if leb_ℤ trigger.retry_backoff_ms (pos 0) then pos 1000 else trigger.retry_backoff_ms;
    }

-- `instanceByID`: the last instance of an id wins.
unfoldable pub instances_from : List MqInstance → Dict MqInstance → Dict MqInstance
instances_from [] instances = instances
instances_from (inst ∷ rest) instances = instances_from rest (insert inst.mq_id inst instances)

abbrev pub instance_by_id : List MqInstance → Dict MqInstance
instance_by_id instances = instances_from instances []

abbrev pub same_flag : Bool → Bool → Bool
same_flag true b = b
same_flag false true = false
same_flag false false = true

unfoldable pub same_trigger : Trigger → Trigger → Bool
same_trigger a b =
    str_eq a.id b.id
    && str_eq a.kind b.kind
    && same_flag a.enabled b.enabled
    && str_eq a.mq_id b.mq_id
    && str_eq a.queue b.queue
    && str_eq a.function b.function
    && eq_ℤ a.max_concurrency b.max_concurrency
    && eq_ℤ a.prefetch b.prefetch
    && eq_ℤ a.max_attempts b.max_attempts
    && eq_ℤ a.retry_backoff_ms b.retry_backoff_ms
    && str_eq a.dlq b.dlq
    && str_eq a.broker b.broker

unfoldable pub has_enabled_triggers : List Trigger → Bool
has_enabled_triggers [] = false
has_enabled_triggers (trigger ∷ rest) =
    let later = has_enabled_triggers rest in if trigger.enabled then true else later

same_flag_sound : (a b : Bool) → same_flag a b ≡ true → a ≡ b
same_flag_sound a b h = ground arith

same_trigger_sound : (a b : Trigger) → same_trigger a b ≡ true → a ≡ b
unfolding same_trigger
same_trigger_sound a b h = ground (
  arith,
  eq_iff a.id b.id,
  eq_iff a.kind b.kind,
  same_flag_sound a.enabled b.enabled,
  eq_iff a.mq_id b.mq_id,
  eq_iff a.queue b.queue,
  eq_iff a.function b.function,
  eq_ℤ_sound a.max_concurrency b.max_concurrency,
  eq_ℤ_sound a.prefetch b.prefetch,
  eq_ℤ_sound a.max_attempts b.max_attempts,
  eq_ℤ_sound a.retry_backoff_ms b.retry_backoff_ms,
  eq_iff a.dlq b.dlq,
  eq_iff a.broker b.broker,
)

same_trigger_refl : (a : Trigger) → same_trigger a a ≡ true
unfolding same_trigger
same_trigger_refl a = ground (
  arith,
  eq_iff a.id a.id,
  eq_iff a.kind a.kind,
  eq_iff a.mq_id a.mq_id,
  eq_iff a.queue a.queue,
  eq_iff a.function a.function,
  eq_iff a.dlq a.dlq,
  eq_iff a.broker a.broker,
)

-- `sameTrigger` takes two triggers for the same exactly if they are equal.
pub same_trigger_iff : (a b : Trigger) → (same_trigger a b ≡ true) ↔ (a ≡ b)
same_trigger_iff a b = (same_trigger_sound a b, λ e. rw e (same_trigger_refl b))

-- A normalised trigger has a positive concurrency, prefetch and backoff and the broker of its
-- instance, and a second normalisation with the same instance leaves it alone.
pub normalize_trigger_again :
    (trigger : Trigger) (inst : MqInstance)
    → let normal = normalize_trigger trigger inst in
      (normalize_trigger normal inst ≡ normal)
      × (pos 0 <ℤ normal.max_concurrency)
      × (pos 0 <ℤ normal.prefetch)
      × (pos 0 <ℤ normal.retry_backoff_ms)
      × (normal.broker ≡ inst.broker)
unfolding normalize_trigger
normalize_trigger_again trigger inst = ground arith

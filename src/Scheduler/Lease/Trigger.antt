-- ===== src/Scheduler/Lease/Trigger.antt =====
-- Which requests `validateAcquireTrigger` lets through.
use serverless.Base.{
  ℕ, ◌≡◌, ◌≢◌, ◌↔◌, true, none, some, get_elem?, any, any→Passes, any_of_passes, eq_iff, arith,
}
use serverless.Scheduler.Types.{TriggerConfig, FunctionConfig, AcquireInstanceRequest}
use serverless.Scheduler.Lease.{trigger_matches, validate_acquire_trigger}

-- The trigger at index `i` of the function is enabled, is of type "mq", and is the one that the
-- request names.
pub record Names (req : AcquireInstanceRequest) (cfg : FunctionConfig) (i : ℕ) (t : TriggerConfig)
    : Type 0 where
  pub at : get_elem? cfg.triggers i ≡ some t
  pub id : t.id ≡ req.trigger_id
  pub mq_id : t.mq_id ≡ req.mq_id
  pub kind : t.kind ≡ "mq"
  pub enabled : t.enabled ≡ true

abbrev pub Allowed : FunctionConfig → AcquireInstanceRequest → Type 0
Allowed cfg req =
    (req.source ≡ "mq")
    × (req.mq_id ≢ "")
    × (req.trigger_id ≢ "")
    × ((i : ℕ) × (t : TriggerConfig) × Names req cfg i t)

matches_iff :
    (req : AcquireInstanceRequest) (t : TriggerConfig)
    → (trigger_matches req t ≡ true)
      ↔ ((t.id ≡ req.trigger_id) × (t.mq_id ≡ req.mq_id) × (t.kind ≡ "mq") × (t.enabled ≡ true))
matches_iff req t = (
  λ h. ground (arith, eq_iff t.id req.trigger_id, eq_iff t.mq_id req.mq_id, eq_iff t.kind "mq"),
  λ h. ground (arith, eq_iff t.id req.trigger_id, eq_iff t.mq_id req.mq_id, eq_iff t.kind "mq"),
)

validate_sound :
    (cfg : FunctionConfig) (req : AcquireInstanceRequest)
    → validate_acquire_trigger cfg req ≡ none
    → (req.source ≡ "mq")
      × (req.mq_id ≢ "")
      × (req.trigger_id ≢ "")
      × (any (trigger_matches req) cfg.triggers ≡ true)
unfolding validate_acquire_trigger
validate_sound cfg req h =
    ground (arith, eq_iff req.source "mq", eq_iff req.mq_id "", eq_iff req.trigger_id "")

validate_complete :
    (cfg : FunctionConfig) (req : AcquireInstanceRequest)
    → req.source ≡ "mq"
    → req.mq_id ≢ ""
    → req.trigger_id ≢ ""
    → any (trigger_matches req) cfg.triggers ≡ true
    → validate_acquire_trigger cfg req ≡ none
unfolding validate_acquire_trigger
validate_complete cfg req a b c d =
    ground (arith, eq_iff req.source "mq", eq_iff req.mq_id "", eq_iff req.trigger_id "")

-- `validateAcquireTrigger` lets a request through exactly if its source is "mq", it names a
-- trigger and an mq_id, and the function has an enabled trigger of type "mq" with both.
pub validate_acquire_trigger_iff :
    (cfg : FunctionConfig) (req : AcquireInstanceRequest)
    → (validate_acquire_trigger cfg req ≡ none) ↔ Allowed cfg req
validate_acquire_trigger_iff cfg req = (
  λ h.
      let (source, mq, trigger, found) = validate_sound cfg req h in
      let (i, t, at, m) = any→Passes (trigger_matches req) cfg.triggers found in
      let (id, mq_id, kind, enabled) = (matches_iff req t).0 m in
      (
        source,
        mq,
        trigger,
        (i, t, record { at = at; id = id; mq_id = mq_id; kind = kind; enabled = enabled }),
      ),
  λ (source, mq, trigger, (i, t, names)). validate_complete cfg req source mq trigger (
      any_of_passes (trigger_matches req) cfg.triggers i t names.at
        ((matches_iff req t).1 (names.id, names.mq_id, names.kind, names.enabled))),
)

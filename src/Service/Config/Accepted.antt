-- ===== src/Service/Config/Accepted.antt =====
-- mqsvc/config.go and mqsvc/main.go: which configurations `validateConfig` accepts, and the start of
-- the service with one of them.
use serverless.Base.{
  ℕ, ◌≡◌, refl, sym, ◌∙◌, ◌↔◌, inl, inr, String, Bool, true, false, List, [], ◌∷◌, Option, none,
  some, str_eq, eq_iff, any, all, has_key, lookup, lookup-insert, Dict, insert, arith, Option-cases,
}
use serverless.Label.Chars.{is_label_char}
use serverless.Mq.Types.{MqInstance, Trigger}
use serverless.Service.Triggers.{has_enabled_triggers, instances_from, instance_by_id}
use serverless.Service.Reconcile.{reconcile_triggers, sync_triggers}
use serverless.Service.Wanted.{wanted, is_known}
use serverless.Service.Consumers.{reconcile_triggers-Reconciled}
use serverless.Service.Config.{
  Config, Url, mq_trigger_error, validate_mq_triggers, validate_config, new_service, start,
}
pub use serverless.Service.Config.Entries.{AreInstances, ids_onto}
use serverless.Service.Config.Entries.{
  IsMqTrigger, validate_instances_iff, mq_trigger_error-IsMqTrigger, IsMqTrigger-mq_trigger_error,
}

-- The triggers are well formed, and no id stands twice or among `seen`.
abbrev pub AreMqTriggers : List String → List String → List Trigger → Type 0
AreMqTriggers ids seen [] = Unit {0}
AreMqTriggers ids seen (t ∷ ts) =
    IsMqTrigger ids t × (any (str_eq t.id) seen ≡ false) × AreMqTriggers ids (t.id ∷ seen) ts

-- The instance of an id is known exactly if the id is among those of the instances.
has_key-instances_from :
    (k : String) (insts : List MqInstance) (seen : List String) (m : Dict MqInstance)
    → has_key k m ≡ any (str_eq k) seen
    → has_key k (instances_from insts m) ≡ any (str_eq k) (ids_onto seen insts)
unfolding instances_from
has_key-instances_from k [] seen m h = h
has_key-instances_from k (inst ∷ insts) seen m h =
    has_key-instances_from k insts (inst.mq_id ∷ seen) (insert inst.mq_id inst m) (
      ground
        (arith, h, lookup-insert inst.mq_id k inst m, eq_iff inst.mq_id k, eq_iff k inst.mq_id))

all-known :
    (insts : List MqInstance) (seen : List String) (ts : List Trigger)
    → AreMqTriggers (ids_onto [] insts) seen ts
    → all (is_known (instance_by_id insts)) ts ≡ true
unfolding lookup
all-known insts seen [] h = refl
all-known insts seen (t ∷ ts) (v, fresh, rest) = ground (
  arith,
  v.known,
  has_key-instances_from t.mq_id insts [] [] refl,
  all-known insts (t.id ∷ seen) ts rest,
)

module _ (lower : ℕ → ℕ) (lower_fixes : (c : ℕ) → is_label_char c ≡ true → lower c ≡ c) where
  validate_mq_triggers_sound :
      (ids seen : List String) (ts : List Trigger)
      → validate_mq_triggers lower ids seen ts ≡ none
      → AreMqTriggers ids seen ts
  unfolding validate_mq_triggers
  validate_mq_triggers_sound ids seen [] h = tt
  validate_mq_triggers_sound ids seen (t ∷ ts) h =
      elim (Option-cases (mq_trigger_error lower ids seen t)) [
        | inl e ↦
            let (v, fresh) = mq_trigger_error-IsMqTrigger lower lower_fixes ids seen t e in
            (
              v,
              fresh,
              validate_mq_triggers_sound ids (t.id ∷ seen) ts (rw (e, validate_mq_triggers) at h),
            )
        | inr (x, e) ↦ ground arith
      ]

  validate_mq_triggers_complete :
      (ids seen : List String) (ts : List Trigger)
      → AreMqTriggers ids seen ts
      → validate_mq_triggers lower ids seen ts ≡ none
  unfolding validate_mq_triggers
  validate_mq_triggers_complete ids seen [] h = refl
  validate_mq_triggers_complete ids seen (t ∷ ts) h =
      rw (IsMqTrigger-mq_trigger_error lower lower_fixes ids seen t h.0 h.1, validate_mq_triggers)
        (validate_mq_triggers_complete ids (t.id ∷ seen) ts h.2)

  -- `validateConfig` accepts a configuration exactly if its instances are RabbitMQ instances with
  -- distinct ids and an amqp or amqps URL with a host, and its triggers are of type mq with distinct
  -- ids that are labels without two dashes in a row and no negative number, an enabled one with a
  -- queue, a function that passes `isDNSLabel` and the id of one of the instances; if lower-casing
  -- leaves the characters of a label alone.
  pub validate_config-eq-none_iff :
      (parse_url : String → Option Url) (cfg : Config)
      → (validate_config lower parse_url cfg ≡ none) ↔ (
          AreInstances parse_url [] cfg.mq_instances
          × AreMqTriggers (ids_onto [] cfg.mq_instances) [] cfg.triggers)
  unfolding validate_config
  validate_config-eq-none_iff parse_url cfg =
      elim (validate_instances_iff parse_url [] cfg.mq_instances) [
        | inl (ok, e) ↦
            let ids = ids_onto [] cfg.mq_instances in
            let step : validate_config lower parse_url cfg
                ≡ validate_mq_triggers lower ids [] cfg.triggers =
              rw (validate_config, e) refl in
            (
              λ h. (ok, validate_mq_triggers_sound ids [] cfg.triggers (sym step ∙ h)),
              λ (_, ts). step ∙ validate_mq_triggers_complete ids [] cfg.triggers ts,
            )
        | inr (bad, (err, e)) ↦
            let step : validate_config lower parse_url cfg ≡ some err =
              rw (validate_config, e) refl in
            (λ h. ground (arith, step, h), λ (ok, ts). absurd (bad ok))
      ]

  reconcile_triggers-new_service :
      (parse_url : String → Option Url) (cfg : Config) (connects : MqInstance → Bool)
      → validate_config lower parse_url cfg ≡ none
      → ((inst : MqInstance) → connects inst ≡ true)
      → let (error, s) = reconcile_triggers connects cfg.triggers (new_service cfg) in
        (error ≡ none)
        × ((k : String)
            → lookup k s.consumers ≡ wanted (instance_by_id cfg.mq_instances) cfg.triggers k)
  unfolding new_service
  reconcile_triggers-new_service parse_url cfg connects h c =
      let ts = ((validate_config-eq-none_iff parse_url cfg).0 h).1 in
      elim (reconcile_triggers-Reconciled connects cfg.triggers (new_service cfg) tt) [
        | inl (unknown, same, e) ↦
            ground (arith, unknown, all-known cfg.mq_instances [] cfg.triggers ts)
        | inr (known, u, inl (e, l)) ↦ (e, l)
        | inr (known, u, inr (w, (inst, refused, e))) ↦ ground (arith, refused, c inst)
      ]

  -- A service that starts with a configuration that `validateConfig` accepts, while the gateway does
  -- not answer and with brokers that connect, starts without an error, and its consumers are exactly
  -- the wanted triggers of the configuration; if lower-casing leaves the characters of a label alone.
  pub start-new_service :
      (parse_url : String → Option Url) (cfg : Config) (connects : MqInstance → Bool)
      → validate_config lower parse_url cfg ≡ none
      → ((inst : MqInstance) → connects inst ≡ true)
      → let (error, s) = start connects none (new_service cfg) in
        (error ≡ none)
        × ((k : String)
            → lookup k s.consumers ≡ wanted (instance_by_id cfg.mq_instances) cfg.triggers k)
  unfolding start sync_triggers lookup new_service has_enabled_triggers wanted
  start-new_service parse_url cfg connects h c =
      offline cfg.gateway_addr cfg.mq_instances cfg.triggers
        (reconcile_triggers-new_service parse_url cfg connects h c)
    where
      offline :
          (addr : String) (insts : List MqInstance) (ts : List Trigger)
          → let cfg : Config = record {
            gateway_addr = addr;
            mq_instances = insts;
            triggers = ts;
          } in
            let (error, s) = reconcile_triggers connects ts (new_service cfg) in
            (error ≡ none)
              × ((k : String) → lookup k s.consumers ≡ wanted (instance_by_id insts) ts k)
            → let (error, s) = start connects none (new_service cfg) in
              (error ≡ none)
              × ((k : String) → lookup k s.consumers ≡ wanted (instance_by_id insts) ts k)
      offline addr insts [] r = (refl, λ k. refl)
      offline addr insts (t ∷ ts) (ok, l) = rw (start, ok) (refl, l)

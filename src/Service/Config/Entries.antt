-- ===== src/Service/Config/Entries.antt =====
-- mqsvc/config.go: which instances and triggers `validateConfig` accepts.
use Prim.Native.String.{String}
use serverless.Base.{
  ℕ, ◌≡◌, refl, sym, ◌≢◌, inl, inr, pos, ◌≤ℤ◌, true, false, List, [], ◌∷◌, Option, none, some,
  str_eq, str_eq-ne, eq_iff, codes, any, arith, Option-cases, ◌⊎◌,
}
use serverless.Label.Chars.{is_label_char}
use serverless.Label.Gateway.{text_eq}
use serverless.Label.Mq.{is_dns_label, is_trigger_id, IsTriggerId, is_trigger_id_iff}
use serverless.Mq.Types.{MqInstance, Trigger}
use serverless.Service.Config.{
  Url, ConfigError, validate_broker_url, instance_error, validate_instances, mq_trigger_error,
}

-- A URL that RabbitMQ's client can dial.
abbrev pub IsAmqp : Url → Type 0
IsAmqp u = ((u.scheme ≡ "amqp") ⊎ (u.scheme ≡ "amqps")) × (u.host ≢ "")

pub record IsInstance (parse_url : String → Option Url) (inst : MqInstance) : Type 0 where
  pub mq_id : inst.mq_id ≢ ""
  pub broker : inst.broker ≡ "rabbitmq"
  pub url : inst.url ≢ ""
  pub amqp : (u : Url) × (parse_url inst.url ≡ some u) × IsAmqp u

-- A trigger that mqsvc takes, among instances with the ids.
pub record IsMqTrigger (ids : List String) (t : Trigger) : Type 0 where
  pub id : IsTriggerId (codes t.id)
  pub kind : t.kind ≡ "mq"
  pub concurrency : pos 0 ≤ℤ t.max_concurrency
  pub attempts : pos 0 ≤ℤ t.max_attempts
  pub prefetch : pos 0 ≤ℤ t.prefetch
  pub backoff : pos 0 ≤ℤ t.retry_backoff_ms
  pub mq_id : t.enabled ≡ true → t.mq_id ≢ ""
  pub queue : t.enabled ≡ true → t.queue ≢ ""
  pub known : t.enabled ≡ true → any (str_eq t.mq_id) ids ≡ true
  pub function : t.enabled ≡ true → is_dns_label (codes t.function) ≡ true

instance_error-IsInstance :
    (parse_url : String → Option Url) (ids : List String) (inst : MqInstance)
    → instance_error parse_url ids inst ≡ none
    → IsInstance parse_url inst × (any (str_eq inst.mq_id) ids ≡ false)
unfolding instance_error validate_broker_url
instance_error-IsInstance parse_url ids inst h = elim (Option-cases (parse_url inst.url)) [
  | inl e ↦ ground (arith, e)
  | inr (u, e) ↦
      let dials : IsAmqp u = ground (
        arith,
        e,
        eq_iff inst.broker "rabbitmq",
        eq_iff u.scheme "amqp",
        eq_iff u.scheme "amqps",
        eq_iff u.host "",
      ) in
      let (id, broker, url, fresh) : (inst.mq_id ≢ "")
          × (inst.broker ≡ "rabbitmq")
          × (inst.url ≢ "")
          × (any (str_eq inst.mq_id) ids ≡ false) =
        ground
          (arith, e, eq_iff inst.mq_id "", eq_iff inst.broker "rabbitmq", eq_iff inst.url "") in
      (record { mq_id = id; broker = broker; url = url; amqp = (u, e, dials) }, fresh)
]

IsInstance-instance_error :
    (parse_url : String → Option Url) (ids : List String) (inst : MqInstance)
    → IsInstance parse_url inst
    → any (str_eq inst.mq_id) ids ≡ false
    → instance_error parse_url ids inst ≡ none
unfolding instance_error validate_broker_url
IsInstance-instance_error parse_url ids inst v fresh =
    let (u, e, (scheme, host)) = v.amqp in
    let no_id = str_eq-ne inst.mq_id "" v.mq_id in
    let no_url = str_eq-ne inst.url "" v.url in
    let no_host = str_eq-ne u.host "" host in
    elim scheme [
      | inl s ↦ rw (instance_error, no_id, v.broker, no_url, e, s, no_host) (ground (arith, fresh))
      | inr s ↦ rw (instance_error, no_id, v.broker, no_url, e, s, no_host) (ground (arith, fresh))
    ]

empty_text : (s : String) → text_eq (codes s) [] ≡ str_eq s ""
empty_text String.[] = refl
empty_text (String.◌∷◌ c s) = sym (str_eq-ne (String.◌∷◌ c s) "" (λ e. cc))

-- The instances are usable, and no id stands twice or among `seen`.
abbrev pub AreInstances : (String → Option Url) → List String → List MqInstance → Type 0
AreInstances parse_url seen [] = Unit {0}
AreInstances parse_url seen (inst ∷ rest) =
    IsInstance parse_url inst
    × (any (str_eq inst.mq_id) seen ≡ false)
    × AreInstances parse_url (inst.mq_id ∷ seen) rest

-- The ids of instances, the last first, before those of `seen`.
abbrev pub ids_onto : List String → List MqInstance → List String
ids_onto seen [] = seen
ids_onto seen (inst ∷ rest) = ids_onto (inst.mq_id ∷ seen) rest

pub validate_instances_iff :
    (parse_url : String → Option Url) (seen : List String) (insts : List MqInstance)
    → (AreInstances parse_url seen insts
        × (validate_instances parse_url seen insts ≡ inr (ids_onto seen insts)))
      ⊎ ((AreInstances parse_url seen insts → ⊥)
          × ((e : ConfigError) × (validate_instances parse_url seen insts ≡ inl e)))
unfolding validate_instances
validate_instances_iff parse_url seen [] = inl (tt, refl)
validate_instances_iff parse_url seen (inst ∷ rest) =
    elim (Option-cases (instance_error parse_url seen inst)) [
      | inl e ↦
          let (v, fresh) = instance_error-IsInstance parse_url seen inst e in
          elim (validate_instances_iff parse_url (inst.mq_id ∷ seen) rest) [
            | inl (all, r) ↦ inl ((v, fresh, all), rw (validate_instances, e) r)
            | inr (no_more, r) ↦ inr (λ h. no_more h.2, rw (validate_instances, e) r)
          ]
      | inr (err, e) ↦ inr (
        λ h. ground (arith, e, IsInstance-instance_error parse_url seen inst h.0 h.1),
        (err, rw (validate_instances, e) refl),
      )
    ]

pub mq_trigger_error-IsMqTrigger :
    (lower : ℕ → ℕ) (lower_fixes : (c : ℕ) → is_label_char c ≡ true → lower c ≡ c)
    (ids seen : List String) (t : Trigger)
    → mq_trigger_error lower ids seen t ≡ none
    → IsMqTrigger ids t × (any (str_eq t.id) seen ≡ false)
unfolding mq_trigger_error is_trigger_id
mq_trigger_error-IsMqTrigger lower lower_fixes ids seen t h =
    let label : is_trigger_id lower (codes t.id) ≡ true = ground (arith, empty_text t.id) in
    ground (
      arith,
      (is_trigger_id_iff lower lower_fixes (codes t.id)).0 label,
      eq_iff t.kind "mq",
      eq_iff t.mq_id "",
      eq_iff t.queue "",
    )

named_function : (s : String) → is_dns_label (codes s) ≡ true → str_eq s "" ≡ false
unfolding is_dns_label
named_function String.[] h = cc
named_function (String.◌∷◌ c s) h = str_eq-ne (String.◌∷◌ c s) "" (λ e. cc)

pub IsMqTrigger-mq_trigger_error :
    (lower : ℕ → ℕ) (lower_fixes : (c : ℕ) → is_label_char c ≡ true → lower c ≡ c)
    (ids seen : List String) (t : Trigger)
    → IsMqTrigger ids t
    → any (str_eq t.id) seen ≡ false
    → mq_trigger_error lower ids seen t ≡ none
unfolding mq_trigger_error is_trigger_id
IsMqTrigger-mq_trigger_error lower lower_fixes ids seen t v fresh =
    let label = (is_trigger_id_iff lower lower_fixes (codes t.id)).1 v.id in
    ground (
      arith,
      label,
      empty_text t.id,
      fresh,
      v.concurrency,
      v.attempts,
      v.prefetch,
      v.backoff,
      v.mq_id,
      v.queue,
      v.known,
      v.function,
      named_function t.function,
      (eq_iff t.kind "mq").1 v.kind,
      eq_iff t.mq_id "",
      eq_iff t.queue "",
    )

-- ===== src/Scheduler/Register/Triggers.antt =====
-- The triggers that `Register` accepts.
use serverless.Base.{
  ℕ, ◌≡◌, refl, subst, ◌≢◌, ◌↔◌, inl, inr, pos, ◌≤ℤ◌, String, true, false, List, [], ◌∷◌, none,
  str_eq, eq_iff, codes, any, arith, Option-cases, Bool-cases,
}
use serverless.Label.Chars.{is_label_char}
use serverless.Label.Gateway.{IsLabel, text_eq-dns_label_iff}
use serverless.Scheduler.Types.{TriggerConfig}
use serverless.Scheduler.Register.{trigger_error, validate_from, validate_triggers}

-- A trigger that the gateway takes.
pub record IsTrigger (t : TriggerConfig) : Type 0 where
  pub id : IsLabel (codes t.id)
  pub kind : t.kind ≡ "mq"
  pub concurrency : pos 0 ≤ℤ t.max_concurrency
  pub prefetch : pos 0 ≤ℤ t.prefetch
  pub attempts : pos 0 ≤ℤ t.max_attempts
  pub backoff : pos 0 ≤ℤ t.retry_backoff_ms
  pub mq_id : t.enabled ≡ true → t.mq_id ≢ ""
  pub queue : t.enabled ≡ true → t.queue ≢ ""

-- The triggers are well formed, and no id stands twice or among `seen`.
abbrev pub AreTriggers : List String → List TriggerConfig → Type 0
AreTriggers seen [] = Unit {0}
AreTriggers seen (t ∷ ts) =
    IsTrigger t × (any (str_eq t.id) seen ≡ false) × AreTriggers (t.id ∷ seen) ts

module _ (lower : ℕ → ℕ) (lower_fixes : (c : ℕ) → is_label_char c ≡ true → lower c ≡ c) where
  trigger_error-IsTrigger :
      (seen : List String) (t : TriggerConfig)
      → trigger_error lower seen t ≡ none
      → IsTrigger t × (any (str_eq t.id) seen ≡ false)
  unfolding trigger_error
  trigger_error-IsTrigger seen t h = ground (
    arith,
    (text_eq-dns_label_iff lower lower_fixes (codes t.id)).0,
    eq_iff t.kind "mq",
    eq_iff t.mq_id "",
    eq_iff t.queue "",
  )

  -- A label is not empty.
  IsLabel-ne-empty : (id : String) → IsLabel (codes id) → str_eq id "" ≡ false
  IsLabel-ne-empty id v = elim (Bool-cases (str_eq id "")) [
    | inl e ↦
        let w = subst (λ x. IsLabel (codes x)) ((eq_iff id "").0 e) v in
        let h : false ≡ true = w.starts in cc
    | inr e ↦ e
  ]

  IsTrigger-trigger_error :
      (seen : List String) (t : TriggerConfig)
      → IsTrigger t
      → any (str_eq t.id) seen ≡ false
      → trigger_error lower seen t ≡ none
  unfolding trigger_error
  IsTrigger-trigger_error seen t v fresh = ground (
    arith,
    (text_eq-dns_label_iff lower lower_fixes (codes t.id)).1 v.id,
    IsLabel-ne-empty t.id v.id,
    v.concurrency,
    v.prefetch,
    v.attempts,
    v.backoff,
    eq_iff t.kind "mq",
    eq_iff t.mq_id "",
    eq_iff t.queue "",
  )

  validate_from_sound :
      (seen : List String) (ts : List TriggerConfig)
      → validate_from lower seen ts ≡ none
      → AreTriggers seen ts
  unfolding validate_from
  validate_from_sound seen [] h = tt
  validate_from_sound seen (t ∷ ts) h = elim (Option-cases (trigger_error lower seen t)) [
    | inl e ↦
        let (v, fresh) = trigger_error-IsTrigger seen t e in
        (v, fresh, validate_from_sound (t.id ∷ seen) ts (rw (e, validate_from) at h))
    | inr (x, e) ↦ ground arith
  ]

  validate_from_complete :
      (seen : List String) (ts : List TriggerConfig)
      → AreTriggers seen ts
      → validate_from lower seen ts ≡ none
  unfolding validate_from
  validate_from_complete seen [] h = refl
  validate_from_complete seen (t ∷ ts) h =
      rw (IsTrigger-trigger_error seen t h.0 h.1, validate_from)
        (validate_from_complete (t.id ∷ seen) ts h.2)

  -- `validateTriggers` returns no error exactly for a list of well-formed triggers with distinct
  -- ids, if lower-casing leaves the characters of a label alone.
  pub validate_triggers_iff :
      (ts : List TriggerConfig) → (validate_triggers lower ts ≡ none) ↔ AreTriggers [] ts
  unfolding validate_triggers
  validate_triggers_iff ts = (validate_from_sound [] ts, validate_from_complete [] ts)

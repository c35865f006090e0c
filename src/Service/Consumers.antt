-- ===== src/Service/Consumers.antt =====
-- mqsvc/main.go: the consumers after `reconcileTriggers`, against the wanted triggers.
use serverless.Base.{
  ◌≡◌, refl, sym, subst, ◌⊎◌, inl, inr, String, Bool, true, false, List, [], Option, none, some,
  Dict, lookup, all, All, ◌∙◌, arith, UniqueKeys, UniqueKeys-keep, Option-cases,
}
use serverless.Mq.Types.{MqInstance, Trigger}
use serverless.Service.Triggers.{instance_by_id}
use serverless.Service.Reconcile.{
  trigger_key, sort_keys, pick, Service, Error, unknown_mq_id, no_broker, Plan, planned, unknown,
  plan_from, is_current, drop_stale, to_start, start_all, carry_out, reconcile_triggers,
}
use serverless.Service.Wanted.{
  wanted, or_else, is_known, Keyed, Covers, any-sort_keys, PlannedFrom, plan_from-PlannedFrom,
}
use serverless.Service.Starting.{
  Within, drop_stale-Within, to_start-Desired, to_start-covers, start_all-Started,
}

-- Every consumer runs the trigger that is wanted under its key.
abbrev pub Wants : List MqInstance → List Trigger → Dict Trigger → Type 0
Wants instances triggers consumers =
    (k : String) (t : Trigger)
    → lookup k consumers ≡ some t
    → wanted (instance_by_id instances) triggers k ≡ some t

abbrev pub Reconciled :
    (MqInstance → Bool) → List Trigger → Service → Option Error × Service → Type 0
Reconciled connects triggers s (error, s') =
    ((all (is_known (instance_by_id s.instances)) triggers ≡ false)
      × (s' ≡ s)
      × ((id : String) × (mq_id : String) × (error ≡ some (unknown_mq_id id mq_id))))
    ⊎ ((all (is_known (instance_by_id s.instances)) triggers ≡ true)
        × UniqueKeys s'.consumers
        × (((error ≡ none)
              × ((k : String)
                  → lookup k s'.consumers ≡ wanted (instance_by_id s.instances) triggers k))
            ⊎ (Wants s.instances triggers s'.consumers
                × ((inst : MqInstance) × (connects inst ≡ false)
                    × (error ≡ some (no_broker inst.mq_id))))))

-- Once every desired trigger runs, the consumers are the desired triggers.
same_lookups :
    (desired : Dict Trigger) (keys : List String) (kept consumers : Dict Trigger)
    → Keyed desired
    → Covers desired keys
    → Within desired consumers
    → ((k : String) (t : Trigger) → lookup k kept ≡ some t → lookup k consumers ≡ some t)
    → All (λ t. lookup (trigger_key t) consumers ≡ some t) (to_start (sort_keys keys) desired kept)
    → (k : String) → lookup k consumers ≡ lookup k desired
same_lookups desired keys kept consumers h c w g a k = elim (Option-cases (lookup k desired)) [
  | inl i ↦ elim (Option-cases (lookup k consumers)) [
    | inl j ↦ j ∙ sym i
    | inr (t, j) ↦ ground (arith, w k t j)
  ]
  | inr (t, i) ↦
      let runs =
        to_start-covers (λ u. lookup (trigger_key u) consumers ≡ some u) (sort_keys keys) desired
          kept k t i a (any-sort_keys k keys ∙ c k t i) in
      elim runs [
        | inl e ↦ g k t e ∙ sym i
        | inr e ↦ subst (λ j. lookup j consumers ≡ some t) (h k t i) e ∙ sym i
      ]
]

or_else-none : (o : Option Trigger) → or_else o none ≡ o
or_else-none none = refl
or_else-none (some t) = refl

pub drop_stale-UniqueKeys :
    (desired consumers : Dict Trigger)
    → UniqueKeys consumers
    → UniqueKeys (drop_stale desired consumers)
unfolding drop_stale
drop_stale-UniqueKeys desired consumers u = UniqueKeys-keep (is_current desired) consumers u

carry_out-Reconciled :
    (connects : MqInstance → Bool) (triggers : List Trigger) (plan : Plan) (s : Service)
    → UniqueKeys s.consumers
    → PlannedFrom (instance_by_id s.instances) triggers [] plan
    → Reconciled connects triggers s (carry_out connects plan s)
unfolding carry_out lookup
carry_out-Reconciled connects triggers (unknown id mq_id) s u h = inl (h, refl, (id, mq_id, refl))
carry_out-Reconciled connects triggers (planned desired keys) s u (known, same, own, cover) =
    let kept = drop_stale desired s.consumers in
    let starts = to_start (sort_keys keys) desired kept in
    let s1 = record s { consumers = kept; triggers = pick (sort_keys keys) desired } in
    let (w, u1, g, o) =
      start_all-Started connects desired starts s1
        (to_start-Desired (sort_keys keys) desired kept own)
        (drop_stale-Within desired s.consumers u) (drop_stale-UniqueKeys desired s.consumers u) in
    inr (
      known,
      u1,
      elim o [
        | inl (e, a) ↦ inl (
          e,
          λ k.
              same_lookups desired keys kept (start_all connects starts s1).1.consumers own cover w
                g a k
              ∙ plain k,
        )
        | inr failed ↦ inr (λ k t e. sym (plain k) ∙ w k t e, failed)
      ],
    )
  where
    plain : (k : String) → lookup k desired ≡ wanted (instance_by_id s.instances) triggers k
    plain k = same k ∙ or_else-none (wanted (instance_by_id s.instances) triggers k)

-- `reconcileTriggers` leaves everything as it is with the error for an unknown mq_id exactly if an
-- enabled trigger names an unknown instance. Otherwise no consumer runs but under a wanted trigger
-- as it is wanted, and either there is no error and the consumers are exactly the wanted triggers,
-- or a broker refused to connect. A trigger is wanted under a key if it is the last enabled one
-- with that key, with its defaults. No key of the consumers stands twice, before or after.
pub reconcile_triggers-Reconciled :
    (connects : MqInstance → Bool) (triggers : List Trigger) (s : Service)
    → UniqueKeys s.consumers
    → Reconciled connects triggers s (reconcile_triggers connects triggers s)
unfolding reconcile_triggers lookup
reconcile_triggers-Reconciled connects triggers s u =
    let instances = instance_by_id s.instances in
    carry_out-Reconciled connects triggers (plan_from instances triggers [] []) s u (
      plan_from-PlannedFrom instances triggers [] [] (λ k t e. ground (arith, e))
        (λ k t e. ground (arith, e)))

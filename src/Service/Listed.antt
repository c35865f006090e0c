-- ===== src/Service/Listed.antt =====
-- mqsvc/main.go: the consumers over any reconciliations and ends of consumers.
use serverless.Base.{
  ◌≡◌, refl, sym, subst, ◌∙◌, inl, inr, String, Bool, true, not, List, [], ◌∷◌, some, Dict, lookup,
  keep, any, str_eq, eq_iff, arith, UniqueKeys, UniqueKeys-keep, lookup-keep, Bool-cases,
  Option-cases,
}
use serverless.Mq.Types.{MqInstance, Trigger}
use serverless.Service.Triggers.{same_trigger, same_trigger_iff, instance_by_id}
use serverless.Service.Reconcile.{
  trigger_key, sort_keys, pick, Service, Plan, planned, unknown, plan_from, drop_stale, to_start,
  start_consumer, start_all, add_consumer, broker_for, carry_out, reconcile_triggers, consumer_ends,
}
use serverless.Service.Wanted.{any-sort_keys, PlannedFrom, plan_from-PlannedFrom}
use serverless.Service.Starting.{drop_stale-Within, to_start-Desired, start_all-Started}
use serverless.Service.Consumers.{drop_stale-UniqueKeys}

-- No key stands twice, and every consumer stands under its trigger's key and runs a trigger of the
-- list that the service shows.
abbrev pub Listed : Service → Type 0
Listed s =
    UniqueKeys s.consumers
    × ((k : String) (t : Trigger)
        → lookup k s.consumers ≡ some t
        → (trigger_key t ≡ k) × (any (same_trigger t) s.triggers ≡ true))

pick-lists :
    (k : String) (t : Trigger) (ks : List String) (desired : Dict Trigger)
    → lookup k desired ≡ some t
    → any (str_eq k) ks ≡ true
    → any (same_trigger t) (pick ks desired) ≡ true
unfolding pick
pick-lists k t [] desired e h = ground (arith, h)
pick-lists k t (j ∷ ks) desired e h = elim (Bool-cases (str_eq k j)) [
  | inl same ↦
      let here : lookup j desired ≡ some t =
        subst (λ i. lookup i desired ≡ some t) ((eq_iff k j).0 same) e in
      ground (arith, here, (same_trigger_iff t t).1 refl)
  | inr other ↦ ground (arith, other, h, pick-lists k t ks desired e)
]

-- A reconciliation, or the end of a consumer that ran a trigger.
pub data Event : Type 0 where
  reconciled : (MqInstance → Bool) → List Trigger → Event
  ended : Trigger → Event

unfoldable pub step : Event → Service → Service
unfolding reconcile_triggers consumer_ends
step (reconciled connects triggers) s = (reconcile_triggers connects triggers s).1
step (ended t) s = consumer_ends t s

unfoldable pub run : List Event → Service → Service
unfolding step
run [] s = s
run (e ∷ events) s = run events (step e s)

start_consumer-triggers :
    (connects : MqInstance → Bool) (t : Trigger) (s : Service)
    → (start_consumer connects t s).1.triggers ≡ s.triggers
unfolding start_consumer add_consumer broker_for
start_consumer-triggers connects t s = ground arith

start_all-triggers :
    (connects : MqInstance → Bool) (ts : List Trigger) (s : Service)
    → (start_all connects ts s).1.triggers ≡ s.triggers
unfolding start_all
start_all-triggers connects [] s = refl
start_all-triggers connects (t ∷ ts) s =
    let first = start_consumer-triggers connects t s in
    let s1 = (start_consumer connects t s).1 in
    elim (Option-cases (start_consumer connects t s).0) [
      | inl e ↦
          let step : start_all connects (t ∷ ts) s ≡ start_all connects ts s1 =
            rw (start_all, e) refl in
          subst (λ r. r.1.triggers ≡ s.triggers) (sym step)
            (start_all-triggers connects ts s1 ∙ first)
      | inr (x, e) ↦
          let step : start_all connects (t ∷ ts) s ≡ (some x, s1) = rw (start_all, e) refl in
          subst (λ r. r.1.triggers ≡ s.triggers) (sym step) first
    ]

-- The entries of other keys.
abbrev pub without : String → Dict Trigger → Dict Trigger
without gone consumers = keep (λ e. not (str_eq e.0 gone)) consumers

without-Listed :
    (gone : String) (s : Service)
    → Listed s
    → Listed (record s { consumers = without gone s.consumers })
without-Listed gone s (u, h) = (
  UniqueKeys-keep (λ e. not (str_eq e.0 gone)) s.consumers u,
  λ k t e. h k t (elim (Option-cases (lookup k s.consumers)) [
    | inl i ↦ ground (arith, e, i, lookup-keep (λ x. not (str_eq x.0 gone)) k s.consumers u)
    | inr (w, i) ↦ ground (arith, e, i, lookup-keep (λ x. not (str_eq x.0 gone)) k s.consumers u)
  ]),
)

consumer_ends-Listed : (t : Trigger) (s : Service) → Listed s → Listed (consumer_ends t s)
unfolding consumer_ends
consumer_ends-Listed t s h = elim (Option-cases (lookup (trigger_key t) s.consumers)) [
  | inl i ↦
      let step : consumer_ends t s ≡ s = rw (consumer_ends, i) refl in subst Listed (sym step) h
  | inr (current, i) ↦ elim (Bool-cases (same_trigger current t)) [
    | inl c ↦
        let step : consumer_ends t s
            ≡ record s { consumers = without (trigger_key t) s.consumers } =
          rw (consumer_ends, i, c) refl in
        subst Listed (sym step) (without-Listed (trigger_key t) s h)
    | inr c ↦
        let step : consumer_ends t s ≡ s = rw (consumer_ends, i, c) refl in
        subst Listed (sym step) h
  ]
]

carry_out-Listed :
    (connects : MqInstance → Bool) (triggers : List Trigger) (plan : Plan) (s : Service)
    → PlannedFrom (instance_by_id s.instances) triggers [] plan
    → Listed s
    → Listed (carry_out connects plan s).1
unfolding carry_out
carry_out-Listed connects triggers (unknown id mq_id) s h l = l
carry_out-Listed connects triggers (planned desired keys) s (known, same, own, cover) (u, l) =
    let kept = drop_stale desired s.consumers in
    let sorted = sort_keys keys in
    let starts = to_start sorted desired kept in
    let s1 = record s { consumers = kept; triggers = pick sorted desired } in
    let (w, u1, g, o) =
      start_all-Started connects desired starts s1 (to_start-Desired sorted desired kept own)
        (drop_stale-Within desired s.consumers u) (drop_stale-UniqueKeys desired s.consumers u) in
    (
      u1,
      λ k t e.
          let wanted = w k t e in
          (
            own k t wanted,
            subst (λ ts. any (same_trigger t) ts ≡ true)
                (sym (start_all-triggers connects starts s1))
                (pick-lists k t sorted desired wanted (any-sort_keys k keys ∙ cover k t wanted)),
          ),
    )

step-Listed : (e : Event) (s : Service) → Listed s → Listed (step e s)
unfolding step reconcile_triggers lookup
step-Listed (reconciled connects triggers) s h =
    carry_out-Listed connects triggers (plan_from (instance_by_id s.instances) triggers [] []) s
      (plan_from-PlannedFrom (instance_by_id s.instances) triggers [] []
        (λ k t e. ground (arith, e)) (λ k t e. ground (arith, e)))
      h
step-Listed (ended t) s h = consumer_ends-Listed t s h

-- Over any reconciliations, also such that fail, and any ends of consumers, in whatever order: if it
-- is so at the start, no key of the consumers stands twice, and each of them stands under the key of
-- its trigger and runs a trigger that is in the list that the service shows.
pub run-Listed : (events : List Event) (s : Service) → Listed s → Listed (run events s)
unfolding run
run-Listed [] s h = h
run-Listed (e ∷ events) s h = run-Listed events (step e s) (step-Listed e s h)

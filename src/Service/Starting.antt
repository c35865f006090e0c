-- ===== src/Service/Starting.antt =====
-- mqsvc/main.go: the loops of `reconcileTriggers` that drop and start consumers.
use serverless.Base.{
  ◌≡◌, refl, sym, subst, ap, ◌∙◌, ◌⊎◌, inl, inr, String, Bool, true, false, List, [], ◌∷◌, Option,
  none, some, Dict, lookup, insert, has_key, any, All, str_eq, str_eq_refl, eq_iff, arith,
  lookup-insert, lookup-keep, UniqueKeys, UniqueKeys-insert, Bool-cases, Option-cases,
}
use serverless.Mq.Types.{MqInstance, Trigger}
use serverless.Service.Triggers.{same_trigger, same_trigger_iff, instance_by_id}
use serverless.Service.Reconcile.{
  trigger_key, Service, Error, no_broker, is_current, drop_stale, to_start, broker_for,
  instance_or_zero, add_consumer, start_consumer, start_all,
}
use serverless.Service.Wanted.{Keyed}

-- Every consumer runs the trigger that is desired under its key.
abbrev pub Within : Dict Trigger → Dict Trigger → Type 0
Within desired consumers =
    (k : String) (t : Trigger) → lookup k consumers ≡ some t → lookup k desired ≡ some t

-- The triggers stand in the map under their own keys.
abbrev pub Desired : Dict Trigger → Trigger → Type 0
Desired desired t = lookup (trigger_key t) desired ≡ some t

is_current_sound :
    (desired : Dict Trigger) (k : String) (t : Trigger)
    → is_current desired (k, t) ≡ true
    → lookup k desired ≡ some t
is_current_sound desired k t h = elim (Option-cases (lookup k desired)) [
  | inl e ↦ ground (arith, e)
  | inr (d, e) ↦ ground (arith, e, same_trigger_iff t d)
]

pub drop_stale-Within :
    (desired consumers : Dict Trigger)
    → UniqueKeys consumers
    → Within desired (drop_stale desired consumers)
unfolding drop_stale
drop_stale-Within desired consumers u k t e = elim (Option-cases (lookup k consumers)) [
  | inl i ↦ ground (arith, lookup-keep (is_current desired) k consumers u)
  | inr (running, i) ↦ elim (Bool-cases (is_current desired (k, running))) [
    | inl c ↦ ground (
      arith,
      lookup-keep (is_current desired) k consumers u,
      is_current_sound desired k running c,
    )
    | inr c ↦ ground (arith, lookup-keep (is_current desired) k consumers u)
  ]
]

pub to_start-Desired :
    (ks : List String) (desired consumers : Dict Trigger)
    → Keyed desired
    → All (Desired desired) (to_start ks desired consumers)
unfolding to_start
to_start-Desired [] desired consumers h = tt
to_start-Desired (k ∷ ks) desired consumers h = elim (Option-cases (lookup k desired)) [
  | inl i ↦ ground (arith, to_start-Desired ks desired consumers h)
  | inr (d, i) ↦
      let own : Desired desired d = rw (h k d i) i in
      ground (arith, to_start-Desired ks desired consumers h, own)
]

to_start-later :
    (P : Trigger → Type 0) (j : String) (ks : List String) (desired consumers : Dict Trigger)
    → All P (to_start (j ∷ ks) desired consumers)
    → All P (to_start ks desired consumers)
unfolding to_start
to_start-later P j ks desired consumers h = ground arith

to_start-first :
    (P : Trigger → Type 0) (k : String) (ks : List String) (desired consumers : Dict Trigger)
    (t : Trigger)
    → lookup k desired ≡ some t
    → All P (to_start (k ∷ ks) desired consumers)
    → (lookup k consumers ≡ some t) ⊎ P t
unfolding to_start
to_start-first P k ks desired consumers t e h = elim (Option-cases (lookup k consumers)) [
  | inl i ↦
      let step : to_start (k ∷ ks) desired consumers ≡ t ∷ to_start ks desired consumers =
        rw (to_start, e, i) refl in
      inr ((subst (All P) step h).0)
  | inr (running, i) ↦ elim (Bool-cases (same_trigger running t)) [
    | inl c ↦ inl (i ∙ ap some ((same_trigger_iff running t).0 c))
    | inr c ↦
        let step : to_start (k ∷ ks) desired consumers ≡ t ∷ to_start ks desired consumers =
          rw (to_start, e, i, c) refl in
        inr ((subst (All P) step h).0)
  ]
]

-- A desired trigger that does not run is among those to start.
pub to_start-covers :
    (P : Trigger → Type 0) (ks : List String) (desired consumers : Dict Trigger) (k : String)
    (t : Trigger)
    → lookup k desired ≡ some t
    → All P (to_start ks desired consumers)
    → any (str_eq k) ks ≡ true
    → (lookup k consumers ≡ some t) ⊎ P t
to_start-covers P [] desired consumers k t e h a = ground arith
to_start-covers P (j ∷ ks) desired consumers k t e h a = elim (Bool-cases (str_eq k j)) [
  | inl same ↦
      to_start-first P k ks desired consumers t e
        (subst (λ i. All P (to_start (i ∷ ks) desired consumers)) (sym ((eq_iff k j).0 same)) h)
  | inr other ↦
      to_start-covers P ks desired consumers k t e (to_start-later P j ks desired consumers h)
        (ground (arith, other))
]

-- What starting the triggers does, if what runs and what starts is desired.
abbrev pub Started :
    (MqInstance → Bool) → Dict Trigger → List Trigger → Service → Option Error × Service → Type 0
Started connects desired starts s (error, s') =
    Within desired s'.consumers
    × UniqueKeys s'.consumers
    × ((k : String) (t : Trigger) → lookup k s.consumers ≡ some t → lookup k s'.consumers ≡ some t)
    × (((error ≡ none) × All (λ t. lookup (trigger_key t) s'.consumers ≡ some t) starts)
        ⊎ ((inst : MqInstance) × (connects inst ≡ false) × (error ≡ some (no_broker inst.mq_id))))

Within-insert :
    (desired : Dict Trigger) (t : Trigger) (consumers : Dict Trigger)
    → Desired desired t
    → Within desired consumers
    → Within desired (insert (trigger_key t) t consumers)
Within-insert desired t consumers d w k u e =
    ground (arith, lookup-insert (trigger_key t) k t consumers, eq_iff (trigger_key t) k, w k u)

add_consumer-Started :
    (connects : MqInstance → Bool) (desired : Dict Trigger) (t : Trigger) (s : Service)
    → Desired desired t
    → Within desired s.consumers
    → UniqueKeys s.consumers
    → Started connects desired (t ∷ []) s (add_consumer t s)
unfolding add_consumer
add_consumer-Started connects desired t s d w u =
    elim (Option-cases (lookup (trigger_key t) s.consumers)) [
      | inl i ↦
          let s' = record s { consumers = insert (trigger_key t) t s.consumers } in
          let step : add_consumer t s ≡ (none, s') = rw (add_consumer, i) refl in
          subst (Started connects desired (t ∷ []) s) (sym step) (
            Within-insert desired t s.consumers d w,
            UniqueKeys-insert (trigger_key t) t s.consumers u,
            λ k v e.
                ground
                  (arith, lookup-insert (trigger_key t) k t s.consumers, eq_iff (trigger_key t) k),
            inl (
              refl,
              (
                ground (
                  arith,
                  lookup-insert (trigger_key t) (trigger_key t) t s.consumers,
                  str_eq_refl (trigger_key t),
                ),
                tt,
              ),
            ),
          )
      | inr (running, i) ↦
          let same : running ≡ t = ground (arith, w (trigger_key t) running i) in
          let step : add_consumer t s ≡ (none, s) =
            rw (add_consumer, i, (same_trigger_iff running t).1 same) refl in
          subst (Started connects desired (t ∷ []) s) (sym step)
            (w, u, λ k v e. e, inl (refl, (i ∙ ap some same, tt)))
    ]

start_consumer-Started :
    (connects : MqInstance → Bool) (desired : Dict Trigger) (t : Trigger) (s : Service)
    → Desired desired t
    → Within desired s.consumers
    → UniqueKeys s.consumers
    → Started connects desired (t ∷ []) s (start_consumer connects t s)
unfolding start_consumer broker_for
start_consumer-Started connects desired t s d w u =
    let inst = instance_or_zero t.mq_id (instance_by_id s.instances) in
    elim (Bool-cases (has_key inst.mq_id s.brokers)) [
      | inl b ↦
          let step : start_consumer connects t s ≡ add_consumer t s = rw (start_consumer, b) refl in
          subst (Started connects desired (t ∷ []) s) (sym step)
            (add_consumer-Started connects desired t s d w u)
      | inr b ↦ elim (Bool-cases (connects inst)) [
        | inl c ↦
            let s' = record s { brokers = insert inst.mq_id inst s.brokers } in
            let step : start_consumer connects t s ≡ add_consumer t s' =
              rw (start_consumer, b, c) refl in
            subst (Started connects desired (t ∷ []) s) (sym step)
              (add_consumer-Started connects desired t s' d w u)
        | inr c ↦
            let step : start_consumer connects t s ≡ (some (no_broker inst.mq_id), s) =
              rw (start_consumer, b, c) refl in
            subst (Started connects desired (t ∷ []) s) (sym step)
              (w, u, λ k v e. e, inr (inst, c, refl))
      ]
    ]

Started-then :
    (connects : MqInstance → Bool) (desired : Dict Trigger) (t : Trigger) (ts : List Trigger)
    (s s1 : Service) (result : Option Error × Service)
    → Started connects desired (t ∷ []) s (none, s1)
    → Started connects desired ts s1 result
    → Started connects desired (t ∷ ts) s result
Started-then connects desired t ts s s1 (error, s') (w1, u1, g1, inr (inst, c, e)) _ =
    ground (arith, e)
Started-then connects desired t ts s s1 (error, s') (w1, u1, g1, inl (e1, a1)) (w, u, g, o) = (
  w,
  u,
  λ k v e. g k v (g1 k v e),
  elim o [ inl (e, a) ↦ inl (e, (g (trigger_key t) t a1.0, a)) | inr failed ↦ inr failed ],
)

Started-next :
    (connects : MqInstance → Bool) (desired : Dict Trigger) (t : Trigger) (ts : List Trigger)
    (s : Service) (error : Option Error) (s1 : Service)
    → (Within desired s1.consumers
        → UniqueKeys s1.consumers
        → Started connects desired ts s1 (start_all connects ts s1))
    → Started connects desired (t ∷ []) s (error, s1)
    → Started connects desired
        (t ∷ ts)
        s
        (elim error [ none ↦ start_all connects ts s1 | some e ↦ (some e, s1) ])
Started-next connects desired t ts s none s1 rest first =
    Started-then connects desired t ts s s1 (start_all connects ts s1) first (rest first.0 first.1)
Started-next connects desired t ts s (some e) s1 rest (w, u, g, inl (h, a)) = cc
Started-next connects desired t ts s (some e) s1 rest (w, u, g, inr failed) = (w, u, g, inr failed)

pub start_all-Started :
    (connects : MqInstance → Bool) (desired : Dict Trigger) (ts : List Trigger) (s : Service)
    → All (Desired desired) ts
    → Within desired s.consumers
    → UniqueKeys s.consumers
    → Started connects desired ts s (start_all connects ts s)
unfolding start_all
start_all-Started connects desired [] s d w u = (w, u, λ k v e. e, inl (refl, tt))
start_all-Started connects desired (t ∷ ts) s d w u =
    let result = start_consumer connects t s in
    Started-next connects desired t ts s result.0 result.1
      (start_all-Started connects desired ts result.1 d.1)
      (start_consumer-Started connects desired t s d.0 w u)

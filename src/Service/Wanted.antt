-- ===== src/Service/Wanted.antt =====
-- mqsvc/main.go: what the first loop of `reconcileTriggers` plans, against a description of the
-- wanted triggers that knows no map and no order.
use serverless.Base.{
  ◌≡◌, refl, sym, subst, inl, inr, String, Bool, true, false, not, ◌&&◌, ◌||◌, List, [], ◌∷◌, ◌++◌,
  Option, none, some, Dict, lookup, insert, has_key, any, all, str_eq, eq_iff, arith, lookup-insert,
  if◌then◌else◌, Bool-cases, Option-cases,
}
use serverless.Mq.Types.{MqInstance, Trigger}
use serverless.Service.Triggers.{normalize_trigger}
use serverless.Service.Reconcile.{
  trigger_key, insert_key, sort_keys, Plan, planned, unknown, plan_from,
}

-- What a trigger asks for under a key: itself with its defaults, if it is enabled.
unfoldable pub asked : Dict MqInstance → String → Trigger → Option Trigger
unfolding trigger_key normalize_trigger
asked instances k t =
    if t.enabled && str_eq (trigger_key t) k
    then elim (lookup t.mq_id instances) [
      | none ↦ none
      | some inst ↦ some (normalize_trigger t inst)
    ]
    else none

abbrev pub or_else : Option Trigger → Option Trigger → Option Trigger
or_else (some t) other = some t
or_else none other = other

-- The last of the triggers that asks under the key.
unfoldable pub wanted : Dict MqInstance → List Trigger → String → Option Trigger
unfolding asked
wanted instances [] k = none
wanted instances (t ∷ ts) k = or_else (wanted instances ts k) (asked instances k t)

abbrev pub is_known : Dict MqInstance → Trigger → Bool
is_known instances t = not t.enabled || has_key t.mq_id instances

-- A trigger stands under its own key.
abbrev pub Keyed : Dict Trigger → Type 0
Keyed d = (k : String) (t : Trigger) → lookup k d ≡ some t → trigger_key t ≡ k

-- Every key of the map is among the keys.
abbrev pub Covers : Dict Trigger → List String → Type 0
Covers d ks = (k : String) (t : Trigger) → lookup k d ≡ some t → any (str_eq k) ks ≡ true

any-append :
    (k : String) (xs ys : List String)
    → any (str_eq k) (xs ++ ys) ≡ (any (str_eq k) xs || any (str_eq k) ys)
any-append k [] ys = refl
any-append k (x ∷ xs) ys = ground (arith, any-append k xs ys)

any-insert_key :
    (k j : String) (ks : List String) → any (str_eq k) (insert_key j ks) ≡ any (str_eq k) (j ∷ ks)
unfolding insert_key
any-insert_key k j [] = refl
any-insert_key k j (i ∷ ks) = ground (arith, any-insert_key k j ks)

-- Sorting keeps the keys.
pub any-sort_keys :
    (k : String) (ks : List String) → any (str_eq k) (sort_keys ks) ≡ any (str_eq k) ks
unfolding sort_keys
any-sort_keys k [] = refl
any-sort_keys k (j ∷ ks) = ground (arith, any-insert_key k j (sort_keys ks), any-sort_keys k ks)

Keyed-insert : (t : Trigger) (d : Dict Trigger) → Keyed d → Keyed (insert (trigger_key t) t d)
Keyed-insert t d h k u e =
    ground (arith, lookup-insert (trigger_key t) k t d, eq_iff (trigger_key t) k, h k u)

Covers-insert :
    (j : String) (t : Trigger) (d : Dict Trigger) (ks : List String)
    → Covers d ks
    → Covers (insert j t d) (ks ++ (j ∷ []))
Covers-insert j t d ks h k u e =
    ground (arith, lookup-insert j k t d, eq_iff j k, eq_iff k j, any-append k ks (j ∷ []), h k u)

-- What the plan must be, from a map that is filled and its keys on.
abbrev pub PlannedFrom : Dict MqInstance → List Trigger → Dict Trigger → Plan → Type 0
PlannedFrom instances ts desired plan = elim plan [
  | unknown id mq_id ↦ all (is_known instances) ts ≡ false
  | planned d ks ↦
      (all (is_known instances) ts ≡ true)
      × ((k : String) → lookup k d ≡ or_else (wanted instances ts k) (lookup k desired))
      × Keyed d
      × Covers d ks
]

PlannedFrom-skip :
    (instances : Dict MqInstance) (t : Trigger) (ts : List Trigger) (desired : Dict Trigger)
    (plan : Plan)
    → t.enabled ≡ false
    → PlannedFrom instances ts desired plan
    → PlannedFrom instances (t ∷ ts) desired plan
unfolding wanted asked
PlannedFrom-skip instances t ts desired (unknown id mq_id) e h = ground arith
PlannedFrom-skip instances t ts desired (planned d ks) e (a, b, c, f) =
    (ground arith, λ k. ground (arith, b k), c, f)

PlannedFrom-use :
    (instances : Dict MqInstance) (t : Trigger) (ts : List Trigger) (desired : Dict Trigger)
    (plan : Plan) (inst : MqInstance)
    → t.enabled ≡ true
    → lookup t.mq_id instances ≡ some inst
    → PlannedFrom instances ts (insert (trigger_key t) (normalize_trigger t inst) desired) plan
    → PlannedFrom instances (t ∷ ts) desired plan
unfolding wanted asked
PlannedFrom-use instances t ts desired (unknown id mq_id) inst e i h = ground arith
PlannedFrom-use instances t ts desired (planned d ks) inst e i (a, b, c, f) = (
  ground arith,
  λ k. ground (arith, b k, lookup-insert (trigger_key t) k (normalize_trigger t inst) desired),
  c,
  f,
)

trigger_key-normalize_trigger :
    (t : Trigger) (inst : MqInstance) → trigger_key (normalize_trigger t inst) ≡ trigger_key t
unfolding trigger_key normalize_trigger
trigger_key-normalize_trigger t inst = refl

pub plan_from-PlannedFrom :
    (instances : Dict MqInstance) (ts : List Trigger) (desired : Dict Trigger) (keys : List String)
    → Keyed desired
    → Covers desired keys
    → PlannedFrom instances ts desired (plan_from instances ts desired keys)
unfolding plan_from wanted
plan_from-PlannedFrom instances [] desired keys h c = (refl, λ k. refl, h, c)
plan_from-PlannedFrom instances (t ∷ ts) desired keys h c = elim (Bool-cases t.enabled) [
  | inr e ↦
      let step : plan_from instances (t ∷ ts) desired keys ≡ plan_from instances ts desired keys =
        simp e refl in
      subst (PlannedFrom instances (t ∷ ts) desired) (sym step) (
        PlannedFrom-skip instances t ts desired (plan_from instances ts desired keys) e
          (plan_from-PlannedFrom instances ts desired keys h c))
  | inl e ↦ elim (Option-cases (lookup t.mq_id instances)) [
    | inl i ↦
        let step : plan_from instances (t ∷ ts) desired keys ≡ unknown t.id t.mq_id =
          simp (e, i) refl in
        subst (PlannedFrom instances (t ∷ ts) desired) (sym step) (ground (arith, e, i))
    | inr (inst, i) ↦
        let n = normalize_trigger t inst in
        let key = trigger_key n in
        let next = plan_from instances ts (insert key n desired) (keys ++ (key ∷ [])) in
        let step : plan_from instances (t ∷ ts) desired keys ≡ next = simp (e, i) refl in
        subst (PlannedFrom instances (t ∷ ts) desired) (sym step) (
          PlannedFrom-use instances t ts desired next inst e i (
            plan_from-PlannedFrom instances ts (insert key n desired) (keys ++ (key ∷ []))
              (Keyed-insert n desired h) (Covers-insert key n desired keys c)))
  ]
]

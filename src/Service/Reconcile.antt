-- ===== src/Service/Reconcile.antt =====
-- mqsvc/main.go: the merging of triggers and the reconciliation of consumers with them. A consumer
-- is its trigger; the brokers that connect, and the order of texts that `sort.Strings` uses, are
-- those of the arguments and of code points.
use Prim.Native.String.{◌++◌ as join, compare as compare_text}
use Prim.Native.Nat.{Ordering}
use serverless.Base.{
  String, Bool, true, false, not, List, [], ◌∷◌, ◌++◌, Option, none, some, Dict, lookup, insert,
  has_key, keep, map, str_eq, if◌then◌else◌,
}
use serverless.Mq.Types.{MqInstance, Trigger}
use serverless.Service.Triggers.{normalize_trigger, same_trigger, instance_by_id}

unfoldable pub trigger_key : Trigger → String
trigger_key t = join t.mq_id (join ":" (join t.function (join ":" t.id)))

-- `sort.Strings`, as an insertion sort.
unfoldable pub insert_key : String → List String → List String
insert_key k [] = k ∷ []
insert_key k (j ∷ js) =
    let later = insert_key k js in
    elim (compare_text j k) [ Ordering.lt ↦ j ∷ later | _ ↦ k ∷ j ∷ js ]

unfoldable pub sort_keys : List String → List String
unfolding insert_key
sort_keys [] = []
sort_keys (k ∷ ks) = insert_key k (sort_keys ks)

-- The two loops of `mergeTriggers` that fill the map.
unfoldable pub put_triggers : List Trigger → Dict Trigger → Dict Trigger
unfolding trigger_key
put_triggers [] merged = merged
put_triggers (t ∷ ts) merged = put_triggers ts (insert (trigger_key t) t merged)

-- The triggers of the keys, in their order.
unfoldable pub pick : List String → Dict Trigger → List Trigger
pick [] merged = []
pick (k ∷ ks) merged = elim (lookup k merged) [
  | none ↦ pick ks merged
  | some t ↦ t ∷ pick ks merged
]

unfoldable pub merge_triggers : List Trigger → List Trigger → List Trigger
unfolding put_triggers sort_keys pick
merge_triggers local remote =
    let merged = put_triggers remote (put_triggers local []) in
    pick (sort_keys (map (λ e. e.0) merged)) merged

pub record Service : Type 0 where
  pub instances : List MqInstance
  pub config_triggers : List Trigger
  pub triggers : List Trigger
  pub brokers : Dict MqInstance
  pub consumers : Dict Trigger

pub data Error : Type 0 where
  unknown_mq_id : String → String → Error
  no_broker : String → Error
  being_replaced : String → Error
  sync_failed : Error

-- What the first loop of `reconcileTriggers` ends with.
pub data Plan : Type 0 where
  planned : Dict Trigger → List String → Plan
  unknown : String → String → Plan

unfoldable pub plan_from : Dict MqInstance → List Trigger → Dict Trigger → List String → Plan
unfolding normalize_trigger trigger_key
plan_from instances [] desired keys = planned desired keys
plan_from instances (t ∷ ts) desired keys = elim t.enabled [
  | false ↦ plan_from instances ts desired keys
  | true ↦ elim (lookup t.mq_id instances) [
    | none ↦ unknown t.id t.mq_id
    | some inst ↦
        let n = normalize_trigger t inst in
        plan_from instances ts (insert (trigger_key n) n desired) (keys ++ (trigger_key n ∷ []))
  ]
]

-- A consumer goes on if its trigger is desired as it is; the loop cancels and deletes the others.
abbrev pub is_current : Dict Trigger → String × Trigger → Bool
is_current desired e = elim (lookup e.0 desired) [ none ↦ false | some t ↦ same_trigger e.1 t ]

unfoldable pub drop_stale : Dict Trigger → Dict Trigger → Dict Trigger
drop_stale desired consumers = keep (is_current desired) consumers

-- The keys that are cancelled.
unfoldable pub cancelled : Dict Trigger → Dict Trigger → List String
cancelled desired consumers = map (λ e. e.0) (keep (λ e. not (is_current desired e)) consumers)

-- The triggers to start.
unfoldable pub to_start : List String → Dict Trigger → Dict Trigger → List Trigger
to_start [] desired consumers = []
to_start (k ∷ ks) desired consumers =
    let rest = to_start ks desired consumers in
    elim (lookup k desired) [
      | none ↦ rest
      | some t ↦ elim (lookup k consumers) [
        | none ↦ t ∷ rest
        | some running ↦ if same_trigger running t then rest else t ∷ rest
      ]
    ]

-- `brokerFor`; `connects` says whether a new broker for the instance can be made.
unfoldable pub broker_for :
    (MqInstance → Bool) → MqInstance → Dict MqInstance → Bool × Dict MqInstance
broker_for connects inst brokers =
    if has_key inst.mq_id brokers
    then (true, brokers)
    else if connects inst
    then (true, insert inst.mq_id inst brokers)
    else (false, brokers)

-- The zero value that a missing key of the map gives.
abbrev pub instance_or_zero : String → Dict MqInstance → MqInstance
instance_or_zero id instances = elim (lookup id instances) [
  | none ↦ record { mq_id = ""; broker = ""; url = "" }
  | some inst ↦ inst
]

-- The critical section of `startConsumer`, with a broker at hand.
unfoldable pub add_consumer : Trigger → Service → Option Error × Service
unfolding trigger_key
add_consumer t s = elim (lookup (trigger_key t) s.consumers) [
  | some existing ↦ if same_trigger existing t then (none, s) else (some (being_replaced t.id), s)
  | none ↦ (none, record s { consumers = insert (trigger_key t) t s.consumers })
]

unfoldable pub start_consumer : (MqInstance → Bool) → Trigger → Service → Option Error × Service
unfolding broker_for add_consumer
start_consumer connects t s =
    let inst = instance_or_zero t.mq_id (instance_by_id s.instances) in
    let (has_broker, brokers) = broker_for connects inst s.brokers in
    let s' = record s { brokers = brokers } in
    if has_broker then add_consumer t s' else (some (no_broker inst.mq_id), s')

-- The last loop of `reconcileTriggers`, which ends with the first error.
unfoldable pub start_all : (MqInstance → Bool) → List Trigger → Service → Option Error × Service
unfolding start_consumer
start_all connects [] s = (none, s)
start_all connects (t ∷ ts) s =
    let (error, s') = start_consumer connects t s in
    elim error [ none ↦ start_all connects ts s' | some e ↦ (some e, s') ]

-- `reconcileTriggers`, from the plan on.
unfoldable pub carry_out : (MqInstance → Bool) → Plan → Service → Option Error × Service
unfolding start_all drop_stale to_start sort_keys pick
carry_out connects (unknown id mq_id) s = (some (unknown_mq_id id mq_id), s)
carry_out connects (planned desired keys) s =
    let sorted = sort_keys keys in
    let kept = drop_stale desired s.consumers in
    start_all connects (to_start sorted desired kept)
      (record s { consumers = kept; triggers = pick sorted desired })

unfoldable pub reconcile_triggers :
    (MqInstance → Bool) → List Trigger → Service → Option Error × Service
unfolding plan_from carry_out
reconcile_triggers connects triggers s =
    carry_out connects (plan_from (instance_by_id s.instances) triggers [] []) s

-- `syncTriggers`, with what the gateway's list of triggers came to.
unfoldable pub sync_triggers :
    (MqInstance → Bool) → Option (List Trigger) → Service → Option Error × Service
unfolding merge_triggers reconcile_triggers
sync_triggers connects (some discovered) s =
    reconcile_triggers connects (merge_triggers s.config_triggers discovered) s
sync_triggers connects none s = elim s.config_triggers [
  | [] ↦ (some sync_failed, s)
  | t ∷ ts ↦ reconcile_triggers connects s.config_triggers s
]

-- The end of a consumer's goroutine: it takes its entry out, if it is still that of its trigger.
unfoldable pub consumer_ends : Trigger → Service → Service
unfolding trigger_key
consumer_ends t s = elim (lookup (trigger_key t) s.consumers) [
  | none ↦ s
  | some current ↦
      if same_trigger current t
      then record s { consumers = keep (λ e. not (str_eq e.0 (trigger_key t))) s.consumers }
      else s
]

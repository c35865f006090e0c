-- ===== src/Service/Merging.antt =====
-- mqsvc/main.go: `mergeTriggers`, and `syncTriggers` when the gateway answers.
use serverless.Base.{
  ◌≡◌, refl, ap, sym, subst, ◌∙◌, inl, inr, String, Bool, true, false, List, [], ◌∷◌, ◌++◌, Option,
  none, some, Dict, lookup, insert, has_key, map, any, all, str_eq, eq_iff, arith, lookup-insert,
  UniqueKeys, if◌then◌else◌, Bool-cases, Option-cases,
}
use serverless.Mq.Types.{MqInstance, Trigger}
use serverless.Service.Triggers.{instance_by_id}
use serverless.Service.Reconcile.{
  trigger_key, sort_keys, put_triggers, pick, merge_triggers, Service, sync_triggers,
}
use serverless.Service.Wanted.{wanted, asked, or_else, is_known, Keyed, any-sort_keys}
use serverless.Service.Consumers.{reconcile_triggers-Reconciled}

-- The last trigger of a list with a key, enabled or not.
unfoldable pub last_of : String → List Trigger → Option Trigger
unfolding trigger_key
last_of k [] = none
last_of k (t ∷ ts) = or_else (last_of k ts) (if str_eq (trigger_key t) k then some t else none)

-- What that trigger asks for.
unfoldable pub asked_by : Dict MqInstance → String → Option Trigger → Option Trigger
unfolding asked
asked_by instances k none = none
asked_by instances k (some t) = asked instances k t

lookup-put_triggers :
    (k : String) (ts : List Trigger) (m : Dict Trigger)
    → lookup k (put_triggers ts m) ≡ or_else (last_of k ts) (lookup k m)
unfolding put_triggers last_of
lookup-put_triggers k [] m = refl
lookup-put_triggers k (t ∷ ts) m = ground (
  arith,
  lookup-put_triggers k ts (insert (trigger_key t) t m),
  lookup-insert (trigger_key t) k t m,
)

last_of-append :
    (k : String) (xs ys : List Trigger)
    → last_of k (xs ++ ys) ≡ or_else (last_of k ys) (last_of k xs)
unfolding last_of
last_of-append k [] ys = ground arith
last_of-append k (t ∷ xs) ys = ground (arith, last_of-append k xs ys)

last_of-key :
    (k : String) (ts : List Trigger) (t : Trigger) → last_of k ts ≡ some t → trigger_key t ≡ k
unfolding last_of
last_of-key k [] t e = ground arith
last_of-key k (u ∷ ts) t e = ground (arith, last_of-key k ts t, eq_iff (trigger_key u) k)

any-keys : (k : String) (m : Dict Trigger) → any (str_eq k) (map (λ e. e.0) m) ≡ has_key k m
unfolding lookup
any-keys k [] = refl
any-keys k ((j, t) ∷ m) = ground (arith, any-keys k m, eq_iff k j, eq_iff j k)

asked-other :
    (instances : Dict MqInstance) (k : String) (t : Trigger)
    → str_eq (trigger_key t) k ≡ false
    → asked instances k t ≡ none
unfolding asked
asked-other instances k t e = ground arith

or_else-same : (o : Option Trigger) → or_else o o ≡ o
or_else-same none = refl
or_else-same (some t) = refl

wanted-pick :
    (instances : Dict MqInstance) (k : String) (ks : List String) (m : Dict Trigger)
    → Keyed m
    → wanted instances (pick ks m) k
      ≡ (if any (str_eq k) ks then asked_by instances k (lookup k m) else none)
unfolding wanted pick asked_by
wanted-pick instances k [] m h = refl
wanted-pick instances k (j ∷ ks) m h = elim (Option-cases (lookup j m)) [
  | inl i ↦ ground (arith, wanted-pick instances k ks m h, eq_iff k j, i)
  | inr (t, i) ↦ elim (Bool-cases (str_eq k j)) [
    | inl same ↦ ground (
      arith,
      i,
      same,
      eq_iff k j,
      wanted-pick instances k ks m h,
      or_else-same (asked instances k t),
    )
    | inr other ↦ ground (
      arith,
      i,
      other,
      h j t i,
      eq_iff k j,
      eq_iff (trigger_key t) k,
      wanted-pick instances k ks m h,
      asked-other instances k t,
    )
  ]
]

put_triggers-Keyed :
    (local remote : List Trigger) → Keyed (put_triggers remote (put_triggers local []))
unfolding lookup
put_triggers-Keyed local remote k t e = ground (
  arith,
  lookup-put_triggers k remote (put_triggers local []),
  lookup-put_triggers k local [],
  last_of-key k remote t,
  last_of-key k local t,
)

lookup-merged :
    (local remote : List Trigger) (k : String)
    → lookup k (put_triggers remote (put_triggers local [])) ≡ last_of k (local ++ remote)
unfolding lookup
lookup-merged local remote k = ground (
  arith,
  lookup-put_triggers k remote (put_triggers local []),
  lookup-put_triggers k local [],
  last_of-append k local remote,
)

if_any :
    (instances : Dict MqInstance) (k : String) (ks : List String) (m : Dict Trigger)
    → any (str_eq k) ks ≡ has_key k m
    → (if any (str_eq k) ks then asked_by instances k (lookup k m) else none)
      ≡ asked_by instances k (lookup k m)
unfolding asked_by
if_any instances k ks m e = ground (arith, e)

-- Merging keeps what the last trigger of each key asks for, whichever list it stands in.
pub wanted-merge_triggers :
    (instances : Dict MqInstance) (local remote : List Trigger) (k : String)
    → wanted instances (merge_triggers local remote) k
      ≡ asked_by instances k (last_of k (local ++ remote))
unfolding merge_triggers
wanted-merge_triggers instances local remote k =
    let merged = put_triggers remote (put_triggers local []) in
    let keys = map (λ e. e.0) merged in
    wanted-pick instances k (sort_keys keys) merged (put_triggers-Keyed local remote)
    ∙ if_any instances k (sort_keys keys) merged (any-sort_keys k keys ∙ any-keys k merged)
    ∙ ap (asked_by instances k) (lookup-merged local remote k)

last_of-known :
    (instances : Dict MqInstance) (k : String) (ts : List Trigger) (t : Trigger)
    → all (is_known instances) ts ≡ true
    → last_of k ts ≡ some t
    → is_known instances t ≡ true
unfolding last_of
last_of-known instances k [] t h e = ground arith
last_of-known instances k (u ∷ ts) t h e = elim (Option-cases (last_of k ts)) [
  | inl i ↦ elim (Bool-cases (str_eq (trigger_key u) k)) [
    | inl b ↦
        let same : u ≡ t = ground (arith, e, i, b) in
        subst (λ x. is_known instances x ≡ true) same (ground (arith, h))
    | inr b ↦ ground (arith, e, i, b)
  ]
  | inr (v, i) ↦
      let same : v ≡ t = ground (arith, e, i) in
      last_of-known instances k ts t (ground (arith, h)) (i ∙ ap some same)
]

all-pick :
    (p : Trigger → Bool) (ks : List String) (m : Dict Trigger)
    → ((k : String) (t : Trigger) → lookup k m ≡ some t → p t ≡ true)
    → all p (pick ks m) ≡ true
unfolding pick
all-pick p [] m h = refl
all-pick p (k ∷ ks) m h = elim (Option-cases (lookup k m)) [
  | inl i ↦ ground (arith, i, all-pick p ks m h)
  | inr (t, i) ↦ ground (arith, i, h k t i, all-pick p ks m h)
]

all-merge_triggers :
    (instances : Dict MqInstance) (local remote : List Trigger)
    → all (is_known instances) (local ++ remote) ≡ true
    → all (is_known instances) (merge_triggers local remote) ≡ true
unfolding merge_triggers
all-merge_triggers instances local remote h =
    let merged = put_triggers remote (put_triggers local []) in
    all-pick (is_known instances) (sort_keys (map (λ e. e.0) merged)) merged (λ k t e.
      last_of-known instances k (local ++ remote) t h (sym (lookup-merged local remote k) ∙ e))

-- When the gateway lists its triggers, every broker connects and every enabled trigger names a
-- known instance, `syncTriggers` ends without an error, and the consumer under each key is what the
-- last of the configured and the listed triggers with that key asks for: a listed trigger wins over
-- a configured one, also a disabled one, which has no consumer. No key of the consumers stands
-- twice before the call.
pub sync_triggers-Synced :
    (connects : MqInstance → Bool) (discovered : List Trigger) (s : Service)
    → UniqueKeys s.consumers
    → ((inst : MqInstance) → connects inst ≡ true)
    → all (is_known (instance_by_id s.instances)) (s.config_triggers ++ discovered) ≡ true
    → let (error, s') = sync_triggers connects (some discovered) s in
      (error ≡ none)
      × ((k : String)
          → lookup k s'.consumers
            ≡ asked_by (instance_by_id s.instances) k (last_of k (s.config_triggers ++ discovered)))
unfolding sync_triggers
sync_triggers-Synced connects discovered s u c h =
    let instances = instance_by_id s.instances in
    let merged = merge_triggers s.config_triggers discovered in
    elim (reconcile_triggers-Reconciled connects merged s u) [
      | inl (unknown, same, e) ↦
          ground (arith, unknown, all-merge_triggers instances s.config_triggers discovered h)
      | inr (known, u1, inl (e, l)) ↦
          (e, λ k. l k ∙ wanted-merge_triggers instances s.config_triggers discovered k)
      | inr (known, u1, inr (w, (inst, refused, e))) ↦ ground (arith, refused, c inst)
    ]

-- ===== src/Logs/Fetched.antt =====
-- logdaemon/shared.go: what `fetchLogs` gives, against a description of the collectors' entries.
use serverless.Base.{
  ℤ, pos, ltb_ℤ, pos_part, ◌≡◌, refl, ap, ◌∙◌, inl, inr, String, Bool, false, not, ◌&&◌, ◌||◌, List,
  [], ◌∷◌, ◌++◌, Option, none, some, Dict, lookup, str_eq, eq_iff, any, length, keep, last, ◌-◌,
  sort_by, Sorted, IsLess, Sorted-sort_by, length-keep-sort_by, if◌then◌else◌, arith, Bool-cases,
  Option-cases,
}
use serverless.Logs.Ring.{LogEntry}
use serverless.Logs.Proxy.{
  InstanceInfo, CollectorPod, collectors_from, gather, before, newest, fetch_logs,
}

-- The pod that an instance's lines are asked of, if its node has one.
unfoldable pub pod_of : Dict CollectorPod → InstanceInfo → Option String
pod_of collectors inst =
    if str_eq inst.node_name "" then none else elim (lookup inst.node_name collectors) [
      | none ↦ none
      | some pod ↦ if str_eq pod.pod_name "" then none else some pod.pod_name
    ]

-- A pod is that of one of the instances.
unfoldable pub has_pod : Dict CollectorPod → String → List InstanceInfo → Bool
unfolding pod_of
has_pod collectors p [] = false
has_pod collectors p (inst ∷ rest) =
    elim (pod_of collectors inst) [ none ↦ false | some q ↦ str_eq p q ]
    || has_pod collectors p rest

-- No text stands twice.
abbrev pub Distinct : List String → Type 0
Distinct [] = Unit {0}
Distinct (p ∷ ps) = (any (str_eq p) ps ≡ false) × Distinct ps

-- The entries of the pods that answer, one pod after the other.
abbrev pub entries_of : (String → Option (List LogEntry)) → List String → List LogEntry
entries_of ask [] = []
entries_of ask (p ∷ ps) = elim (ask p) [
  | none ↦ entries_of ask ps
  | some entries ↦ entries ++ entries_of ask ps
]

-- The pods are those of the instances that are not among `seen`, each once, and the entries theirs.
abbrev pub Gathered :
    (String → Option (List LogEntry))
    → Dict CollectorPod
    → List String
    → List InstanceInfo
    → List String
    → List LogEntry
    → Type 0
Gathered ask collectors seen instances pods entries =
    Distinct pods
    × ((p : String)
        → any (str_eq p) pods ≡ (has_pod collectors p instances && not (any (str_eq p) seen)))
    × (entries ≡ entries_of ask pods)

gather-skip :
    (ask : String → Option (List LogEntry)) (collectors : Dict CollectorPod) (seen : List String)
    (inst : InstanceInfo) (rest : List InstanceInfo) (pods : List String)
    → ((p : String)
        → (elim (pod_of collectors inst) [ none ↦ false | some q ↦ str_eq p q ]
            && not (any (str_eq p) seen))
          ≡ false)
    → gather ask collectors seen (inst ∷ rest) ≡ gather ask collectors seen rest
    → Gathered ask collectors seen rest pods (gather ask collectors seen rest)
    → Gathered ask collectors seen (inst ∷ rest) pods (gather ask collectors seen (inst ∷ rest))
unfolding has_pod
gather-skip ask collectors seen inst rest pods h e (d, a, g) =
    (d, λ p. ground (arith, a p, h p), e ∙ g)

gather-next :
    (ask : String → Option (List LogEntry)) (collectors : Dict CollectorPod) (seen : List String)
    (inst : InstanceInfo) (rest : List InstanceInfo) (q : String) (pods : List String)
    → pod_of collectors inst ≡ some q
    → any (str_eq q) seen ≡ false
    → gather ask collectors seen (inst ∷ rest) ≡ elim (ask q) [
      | none ↦ gather ask collectors (q ∷ seen) rest
      | some entries ↦ entries ++ gather ask collectors (q ∷ seen) rest
    ]
    → Gathered ask collectors (q ∷ seen) rest pods (gather ask collectors (q ∷ seen) rest)
    → Gathered ask collectors seen
        (inst ∷ rest)
        (q ∷ pods)
        (gather ask collectors seen (inst ∷ rest))
unfolding has_pod
gather-next ask collectors seen inst rest q pods i fresh e (d, a, g) = (
  (ground (arith, a q, eq_iff q q), d),
  λ p. ground (arith, i, fresh, a p, eq_iff p q),
  e ∙ ap (λ x. elim (ask q) [ none ↦ x | some entries ↦ entries ++ x ]) g,
)

gather_step :
    (ask : String → Option (List LogEntry)) (collectors : Dict CollectorPod) (seen : List String)
    (inst : InstanceInfo) (rest : List InstanceInfo)
    → gather ask collectors seen (inst ∷ rest) ≡ elim (pod_of collectors inst) [
      | none ↦ gather ask collectors seen rest
      | some q ↦ if any (str_eq q) seen then gather ask collectors seen rest else elim (ask q) [
        | none ↦ gather ask collectors (q ∷ seen) rest
        | some entries ↦ entries ++ gather ask collectors (q ∷ seen) rest
      ]
    ]
unfolding gather pod_of
gather_step ask collectors seen inst rest = ground arith

gather-Gathered :
    (ask : String → Option (List LogEntry)) (collectors : Dict CollectorPod) (seen : List String)
    (instances : List InstanceInfo)
    → (pods : List String) × Gathered ask collectors seen instances pods
        (gather ask collectors seen instances)
unfolding gather has_pod
gather-Gathered ask collectors seen [] = ([], (tt, λ p. refl, refl))
gather-Gathered ask collectors seen (inst ∷ rest) = elim (Option-cases (pod_of collectors inst)) [
  | inl i ↦
      let (pods, g) = gather-Gathered ask collectors seen rest in
      let step : gather ask collectors seen (inst ∷ rest) ≡ gather ask collectors seen rest =
        gather_step ask collectors seen inst rest ∙ rw i refl in
      (pods, gather-skip ask collectors seen inst rest pods (λ p. ground (arith, i)) step g)
  | inr (q, i) ↦ elim (Bool-cases (any (str_eq q) seen)) [
    | inl asked ↦
        let (pods, g) = gather-Gathered ask collectors seen rest in
        let step : gather ask collectors seen (inst ∷ rest) ≡ gather ask collectors seen rest =
          gather_step ask collectors seen inst rest ∙ rw (i, asked) refl in
        (
          pods,
          gather-skip ask collectors seen inst rest pods (λ p. ground (arith, i, asked, eq_iff p q))
              step g,
        )
    | inr fresh ↦
        let (pods, g) = gather-Gathered ask collectors (q ∷ seen) rest in
        let step = gather_step ask collectors seen inst rest ∙ rw (i, fresh) refl in
        (q ∷ pods, gather-next ask collectors seen inst rest q pods i fresh step g)
  ]
]

before-IsLess : IsLess before
before-IsLess = record {
  asymmetric = λ a b h. ground (arith, h);
  transitive = λ a b c h k. ground (arith, h, k);
}

-- What `fetchLogs` gives for the answers.
abbrev pub Fetched :
    (String → Option (List LogEntry))
    → ℤ
    → Option (List InstanceInfo)
    → Option (List CollectorPod)
    → Option (List LogEntry)
    → Type 0
Fetched ask n none listed result = result ≡ none
Fetched ask n (some instances) none result = result ≡ none
Fetched ask n (some instances) (some listed) result =
    (pods : List String) × (all : List LogEntry) × Distinct pods
    × ((p : String) → any (str_eq p) pods ≡ has_pod (collectors_from listed []) p instances)
    × Sorted before all
    × ((p : LogEntry → Bool) → length (keep p all) ≡ length (keep p (entries_of ask pods)))
    × (result ≡ some (if ltb_ℤ (pos 0) n then last (pos_part n) all else all))

newest-last :
    (n : ℤ) (all : List LogEntry)
    → newest n all ≡ (if ltb_ℤ (pos 0) n then last (pos_part n) all else all)
unfolding newest
newest-last n all = elim (Bool-cases (ltb_ℤ (pos 0) n)) [
  | inr e ↦ rw e refl
  | inl e ↦ elim (Bool-cases (ltb_ℤ n (pos (length all)))) [
    | inl f ↦ rw (e, f) refl
    | inr f ↦
        let short : length all - pos_part n ≡ 0 = ground (arith, e, f) in rw (e, f, short) refl
  ]
]

-- `fetchLogs` fails exactly if the gateway or Kubernetes does not answer. Otherwise it asks the
-- collectors on the nodes of the function's instances, each once, and gives the newest n of all the
-- entries of those that answer, sorted by time, or all of them if n is not positive; no entry is
-- lost or doubled before that cut.
pub fetch_logs-Fetched :
    (ask : String → Option (List LogEntry)) (n : ℤ) (instances : Option (List InstanceInfo))
    (listed : Option (List CollectorPod))
    → Fetched ask n instances listed (fetch_logs ask n instances listed)
unfolding fetch_logs
fetch_logs-Fetched ask n none listed = refl
fetch_logs-Fetched ask n (some instances) none = refl
fetch_logs-Fetched ask n (some instances) (some listed) =
    let collectors = collectors_from listed [] in
    let (pods, (distinct, asked, same)) = gather-Gathered ask collectors [] instances in
    let entries = gather ask collectors [] instances in
    (
      pods,
      sort_by before entries,
      distinct,
      λ p. ground (arith, asked p),
      Sorted-sort_by before before-IsLess entries,
      λ p. length-keep-sort_by before p entries ∙ ap (λ x. length (keep p x)) same,
      ap some (newest-last n (sort_by before entries)),
    )

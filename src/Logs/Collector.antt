-- ===== src/Logs/Collector.antt =====
-- logdaemon/k8s_collector.go: the pods that a collector follows, and the lines it takes of them. The
-- pods that Kubernetes lists are arguments.
use serverless.Base.{
  ◌≡◌, refl, sym, subst, ◌∙◌, inl, inr, String, Bool, true, false, not, ◌&&◌, ◌||◌, List, [], ◌∷◌,
  ◌++◌, Option, none, some, str_eq, eq_iff, any, if◌then◌else◌, arith, Bool-cases,
}

pub record PodInfo : Type 0 where
  pub name : String
  pub function : String
  pub node_name : String
  pub phase : String

-- The test at the head of the loop of `syncPods`: a running pod of a function on this node.
unfoldable pub is_local : String → PodInfo → Bool
is_local node pod =
    not (
      not (str_eq pod.node_name node) || not (str_eq pod.phase "Running") || str_eq pod.function "")

-- The loop of `syncPods`: the pods that it begins to follow, and the names seen.
unfoldable pub follow_new : String → List PodInfo → List String → List PodInfo × List String
unfolding is_local
follow_new node [] seen = ([], seen)
follow_new node (pod ∷ pods) seen =
    let skipped = follow_new node pods seen in
    let later = follow_new node pods (pod.name ∷ seen) in
    if not (is_local node pod)
    then skipped
    else if any (str_eq pod.name) seen
    then skipped
    else (pod ∷ later.0, later.1)

-- `syncPods`, with what the list of pods came to.
unfoldable pub sync_pods : String → Option (List PodInfo) → List String → List PodInfo × List String
unfolding follow_new
sync_pods node none seen = ([], seen)
sync_pods node (some pods) seen = follow_new node pods seen

-- The rounds of `runCollector`: all pods that it begins to follow.
unfoldable pub run_collector :
    String → List (Option (List PodInfo)) → List String → List PodInfo × List String
unfolding sync_pods
run_collector node [] seen = ([], seen)
run_collector node (listed ∷ rounds) seen =
    let now = sync_pods node listed seen in
    let later = run_collector node rounds now.1 in (now.0 ++ later.0, later.1)

-- Whether a running pod of a function on this node has the name.
abbrev pub is_listed : String → String → List PodInfo → Bool
is_listed node name [] = false
is_listed node name (pod ∷ pods) =
    (is_local node pod && str_eq name pod.name) || is_listed node name pods

abbrev pub is_ever_listed : String → String → List (Option (List PodInfo)) → Bool
is_ever_listed node name [] = false
is_ever_listed node name (none ∷ rounds) = is_ever_listed node name rounds
is_ever_listed node name (some pods ∷ rounds) =
    is_listed node name pods || is_ever_listed node name rounds

abbrev pub has_name : String → List PodInfo → Bool
has_name name = any (λ pod. str_eq name pod.name)

-- The pods are local, no name among them stands twice or in `seen`, and the names seen afterwards
-- are theirs and those seen before.
abbrev pub Follows : String → List String → List PodInfo → List String → Type 0
Follows node seen [] seen' = (name : String) → any (str_eq name) seen' ≡ any (str_eq name) seen
Follows node seen (pod ∷ pods) seen' =
    (is_local node pod ≡ true)
    × (any (str_eq pod.name) seen ≡ false)
    × Follows node (pod.name ∷ seen) pods seen'

follow_new-Follows :
    (node : String) (pods : List PodInfo) (seen : List String)
    → Follows node seen (follow_new node pods seen).0 (follow_new node pods seen).1
unfolding follow_new
follow_new-Follows node [] seen = λ name. refl
follow_new-Follows node (pod ∷ pods) seen = elim (Bool-cases (is_local node pod)) [
  | inr l ↦
      let step : follow_new node (pod ∷ pods) seen ≡ follow_new node pods seen =
        rw (follow_new, l) refl in
      subst (λ r. Follows node seen r.0 r.1) (sym step) (follow_new-Follows node pods seen)
  | inl l ↦ elim (Bool-cases (any (str_eq pod.name) seen)) [
    | inl s ↦
        let step : follow_new node (pod ∷ pods) seen ≡ follow_new node pods seen =
          rw (follow_new, l, s) refl in
        subst (λ r. Follows node seen r.0 r.1) (sym step) (follow_new-Follows node pods seen)
    | inr s ↦
        let later = follow_new node pods (pod.name ∷ seen) in
        let step : follow_new node (pod ∷ pods) seen ≡ (pod ∷ later.0, later.1) =
          rw (follow_new, l, s) refl in
        subst (λ r. Follows node seen r.0 r.1) (sym step)
          (l, s, follow_new-Follows node pods (pod.name ∷ seen))
  ]
]

Follows-same :
    (node : String) (seen middle last : List String) (pods : List PodInfo)
    → ((name : String) → any (str_eq name) middle ≡ any (str_eq name) seen)
    → Follows node middle pods last
    → Follows node seen pods last
Follows-same node seen middle last [] e h = λ name. h name ∙ e name
Follows-same node seen middle last (pod ∷ pods) e (l, s, h) = (
  l,
  sym (e pod.name) ∙ s,
  Follows-same node (pod.name ∷ seen) (pod.name ∷ middle) last pods (λ name. rw (e name) refl) h,
)

Follows-append :
    (node : String) (seen middle last : List String) (front back : List PodInfo)
    → Follows node seen front middle
    → Follows node middle back last
    → Follows node seen (front ++ back) last
Follows-append node seen middle last [] back h k = Follows-same node seen middle last back h k
Follows-append node seen middle last (pod ∷ front) back (l, s, h) k =
    (l, s, Follows-append node (pod.name ∷ seen) middle last front back h k)

Follows-seen :
    (node : String) (seen last : List String) (pods : List PodInfo) (name : String)
    → Follows node seen pods last
    → any (str_eq name) last ≡ (has_name name pods || any (str_eq name) seen)
Follows-seen node seen last [] name h = h name
Follows-seen node seen last (pod ∷ pods) name (l, s, h) =
    ground (arith, Follows-seen node (pod.name ∷ seen) last pods name h)

follow_new-seen :
    (node name : String) (pods : List PodInfo) (seen : List String)
    → any (str_eq name) (follow_new node pods seen).1
      ≡ (is_listed node name pods || any (str_eq name) seen)
unfolding follow_new
follow_new-seen node name [] seen = refl
follow_new-seen node name (pod ∷ pods) seen = ground (
  arith,
  follow_new-seen node name pods seen,
  follow_new-seen node name pods (pod.name ∷ seen),
  eq_iff name pod.name,
)

run_collector-seen :
    (node name : String) (rounds : List (Option (List PodInfo))) (seen : List String)
    → any (str_eq name) (run_collector node rounds seen).1
      ≡ (is_ever_listed node name rounds || any (str_eq name) seen)
unfolding run_collector sync_pods
run_collector-seen node name [] seen = refl
run_collector-seen node name (none ∷ rounds) seen = run_collector-seen node name rounds seen
run_collector-seen node name (some pods ∷ rounds) seen = ground (
  arith,
  follow_new-seen node name pods seen,
  run_collector-seen node name rounds (follow_new node pods seen).1,
)

run_collector-Follows :
    (node : String) (rounds : List (Option (List PodInfo))) (seen : List String)
    → Follows node seen (run_collector node rounds seen).0 (run_collector node rounds seen).1
unfolding run_collector sync_pods
run_collector-Follows node [] seen = λ name. refl
run_collector-Follows node (none ∷ rounds) seen = run_collector-Follows node rounds seen
run_collector-Follows node (some pods ∷ rounds) seen =
    let now = follow_new node pods seen in
    let later = run_collector node rounds now.1 in
    Follows-append node seen now.1 later.1 now.0 later.0 (follow_new-Follows node pods seen)
      (run_collector-Follows node rounds now.1)

-- Over any rounds, a new collector begins to follow only running pods of functions on its node, no
-- name twice, and it follows a name exactly if such a pod was listed in one of the rounds.
pub run_collector-Followed :
    (node : String) (rounds : List (Option (List PodInfo)))
    → let (followed, seen) = run_collector node rounds [] in
      Follows node [] followed seen
      × ((name : String) → has_name name followed ≡ is_ever_listed node name rounds)
run_collector-Followed node rounds =
    let (followed, seen) = run_collector node rounds [] in
    let follows = run_collector-Follows node rounds [] in
    (
      follows,
      λ name. ground (
        arith,
        Follows-seen node [] seen followed name follows,
        run_collector-seen node name rounds [],
      ),
    )

-- ===== src/Backend/Outcome.antt =====
-- gateway/scheduler/k8s_backend.go: what `Start` leaves behind once the pod is created.
use Prim.Native.String.{◌++◌ as join}
use serverless.Base.{
  ◌≡◌, ◌≢◌, refl, sym, subst, ◌∙◌, ◌⊎◌, inl, inr, String, false, List, [], ◌∷◌, none, some, lookup,
  insert, lookup-insert, lookup-erase, str_eq, str_eq_refl, eq_iff, arith, Bool-cases, Sum-cases,
}
use serverless.Scheduler.Types.{FunctionConfig, RuntimeInstance}
use serverless.Backend.Pod.{PodSpec, decimal}
use serverless.Backend.Kubernetes.{
  Poll, get_fails, absent, present, StartError, forward_failed, not_ready, wait_pod_ready,
  wait_ready, Forward, refused, exited, late, forwarded, Delete, delete_failed, Answers, Backend,
  delete_pod, stop, check_ready, start_forward, await_pod,
}

-- Every other pod and forward stays.
abbrev pub Others : String → Backend → Backend → Type 0
Others name b b' =
    (k : String)
    → str_eq name k ≡ false
    → (lookup k b'.pods ≡ lookup k b.pods) × (lookup k b'.forwards ≡ lookup k b.forwards)

-- One of the answers after the creation stops the start.
abbrev pub Stops : Answers → Type 0
Stops answers =
    ((e : StartError) × (wait_pod_ready answers.polls ≡ inl e))
    ⊎ (answers.forward ≢ forwarded)
    ⊎ (wait_ready answers.probes ≡ false)

-- What a start has done once the pod exists.
abbrev pub Outcome :
    Answers → FunctionConfig → PodSpec → (StartError ⊎ RuntimeInstance) × Backend → Type 0
Outcome answers cfg spec (inr inst, b) =
    (inst.id ≡ spec.name)
    × (inst.addr ≡ join "localhost:" (decimal cfg.port))
    × (inst.func_name ≡ cfg.name)
    × (inst.node_name ≢ "")
    × (lookup spec.name b.pods ≡ some spec)
    × (lookup spec.name b.forwards ≡ some cfg.port)
Outcome answers cfg spec (inl e, b) =
    Stops answers
    × (lookup spec.name b.forwards ≡ none)
    × ((answers.delete ≡ delete_failed) ⊎ (lookup spec.name b.pods ≡ none))

-- The outcome, with every other pod and forward as before.
abbrev pub Result :
    Answers → FunctionConfig → PodSpec → Backend → (StartError ⊎ RuntimeInstance) × Backend → Type 0
Result answers cfg spec b (result, b') =
    Outcome answers cfg spec (result, b') × Others spec.name b b'

wait_pod_ready-node :
    (polls : List Poll) (node : String) → wait_pod_ready polls ≡ inr node → node ≢ ""
unfolding wait_pod_ready
wait_pod_ready-node [] node h = ground (arith, h)
wait_pod_ready-node (get_fails ∷ polls) node h = ground (arith, h)
wait_pod_ready-node (absent ∷ polls) node h = wait_pod_ready-node polls node h
wait_pod_ready-node (present status ∷ polls) node h =
    ground (arith, h, wait_pod_ready-node polls node, eq_iff status.node_name "")

-- The backend with the pod that `Start` has created.
abbrev pub with_pod : PodSpec → Backend → Backend
with_pod spec b = record b { pods = insert spec.name spec b.pods }

stop-Outcome :
    (answers : Answers) (cfg : FunctionConfig) (spec : PodSpec) (e : StartError) (b : Backend)
    → Stops answers
    → Outcome answers cfg spec (inl e, (stop answers.delete spec.name b).1)
unfolding stop delete_pod
stop-Outcome answers cfg spec e b h = (
  h,
  ground (arith, lookup-erase spec.name spec.name b.forwards, str_eq_refl spec.name),
  ground (arith, lookup-erase spec.name spec.name b.pods, str_eq_refl spec.name),
)

stop-Others : (answer : Delete) (name : String) (b : Backend) → Others name b (stop answer name b).1
unfolding stop delete_pod
stop-Others answer name b k h =
    ground (arith, h, lookup-erase name k b.pods, lookup-erase name k b.forwards)

stop-Result :
    (answers : Answers) (cfg : FunctionConfig) (spec : PodSpec) (e : StartError) (b : Backend)
    → Stops answers
    → Result answers cfg spec b (inl e, (stop answers.delete spec.name b).1)
stop-Result answers cfg spec e b h =
    (stop-Outcome answers cfg spec e b h, stop-Others answers.delete spec.name b)

check_ready-Result :
    (answers : Answers) (cfg : FunctionConfig) (spec : PodSpec) (node : String) (b : Backend)
    → node ≢ ""
    → lookup spec.name b.pods ≡ some spec
    → lookup spec.name b.forwards ≡ some cfg.port
    → Result answers cfg spec b (check_ready answers cfg spec.name node b)
unfolding check_ready
check_ready-Result answers cfg spec node b n p f = elim (Bool-cases (wait_ready answers.probes)) [
  | inl e ↦ rw e ((refl, refl, refl, n, p, f), λ k h. (refl, refl))
  | inr e ↦ rw e (stop-Result answers cfg spec not_ready b (inr (inr e)))
]

refused_forward :
    (answers : Answers) (cfg : FunctionConfig) (spec : PodSpec) (node : String) (b : Backend)
    → (answers.forward ≡ refused) ⊎ (answers.forward ≡ exited) ⊎ (answers.forward ≡ late)
    → start_forward answers cfg spec.name node b
      ≡ (inl forward_failed, (stop answers.delete spec.name b).1)
unfolding start_forward
refused_forward answers cfg spec node b (inl f) = rw (start_forward, f) refl
refused_forward answers cfg spec node b (inr (inl f)) = rw (start_forward, f) refl
refused_forward answers cfg spec node b (inr (inr f)) = rw (start_forward, f) refl

start_forward-Result :
    (answers : Answers) (cfg : FunctionConfig) (spec : PodSpec) (node : String) (b : Backend)
    (forward : Forward)
    → answers.forward ≡ forward
    → node ≢ ""
    → lookup spec.name b.pods ≡ some spec
    → Result answers cfg spec b (start_forward answers cfg spec.name node b)
unfolding start_forward
start_forward-Result answers cfg spec node b forwarded f n p =
    let b' = record b { forwards = insert spec.name cfg.port b.forwards } in
    let here =
      lookup-insert spec.name spec.name cfg.port b.forwards ∙ simp (str_eq_refl spec.name) refl in
    let (outcome, others) = check_ready-Result answers cfg spec node b' n p here in
    let step : start_forward answers cfg spec.name node b
        ≡ check_ready answers cfg spec.name node b' =
      rw (start_forward, f) refl in
    subst (Result answers cfg spec b) (sym step) (
      outcome,
      λ k h.
          let (pods, forwards) = others k h in
          (pods, forwards ∙ lookup-insert spec.name k cfg.port b.forwards ∙ simp h refl),
    )
start_forward-Result answers cfg spec node b refused f n p =
    subst (Result answers cfg spec b) (sym (refused_forward answers cfg spec node b (inl f)))
      (stop-Result answers cfg spec forward_failed b (inr (inl (λ e. ground (arith, e, f)))))
start_forward-Result answers cfg spec node b exited f n p =
    subst (Result answers cfg spec b) (sym (refused_forward answers cfg spec node b (inr (inl f))))
      (stop-Result answers cfg spec forward_failed b (inr (inl (λ e. ground (arith, e, f)))))
start_forward-Result answers cfg spec node b late f n p =
    subst (Result answers cfg spec b) (sym (refused_forward answers cfg spec node b (inr (inr f))))
      (stop-Result answers cfg spec forward_failed b (inr (inl (λ e. ground (arith, e, f)))))

await_pod-Result :
    (answers : Answers) (cfg : FunctionConfig) (spec : PodSpec) (b : Backend)
    → lookup spec.name b.pods ≡ some spec
    → Result answers cfg spec b (await_pod answers cfg spec.name b)
unfolding await_pod
await_pod-Result answers cfg spec b p = elim (Sum-cases (wait_pod_ready answers.polls)) [
  | inl (e, w) ↦
      let step : await_pod answers cfg spec.name b ≡ (inl e, (stop answers.delete spec.name b).1) =
        rw (await_pod, w) refl in
      subst (Result answers cfg spec b) (sym step) (stop-Result answers cfg spec e b (inl (e, w)))
  | inr (node, w) ↦
      let step : await_pod answers cfg spec.name b ≡ start_forward answers cfg spec.name node b =
        rw (await_pod, w) refl in
      subst (Result answers cfg spec b) (sym step) (
        start_forward-Result answers cfg spec node b answers.forward refl
          (wait_pod_ready-node answers.polls node w) p)
]

pub after_create :
    (answers : Answers) (cfg : FunctionConfig) (spec : PodSpec) (b : Backend)
    → Result answers cfg spec b (await_pod answers cfg spec.name (with_pod spec b))
after_create answers cfg spec b =
    let (outcome, others) =
      await_pod-Result answers cfg spec (with_pod spec b)
        (lookup-insert spec.name spec.name spec b.pods ∙ simp (str_eq_refl spec.name) refl) in
    (
      outcome,
      λ k h.
          let (pods, forwards) = others k h in
          (pods ∙ lookup-insert spec.name k spec b.pods ∙ simp h refl, forwards),
    )

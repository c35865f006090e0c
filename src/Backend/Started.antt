-- ===== src/Backend/Started.antt =====
-- gateway/scheduler/k8s_backend.go: what `Start` leaves behind, for every answer of the clients.
use serverless.Base.{
  ◌≡◌, ◌≢◌, refl, sym, subst, ◌⊎◌, inl, inr, String, Bool, true, false, not, ◌&&◌, str_eq, eq_iff,
  arith, Bool-cases,
}
use serverless.Scheduler.Types.{FunctionConfig, RuntimeInstance}
use serverless.Backend.Pod.{Environment, pod_name, pod_spec}
use serverless.Backend.Kubernetes.{
  StartError, sync_failed, create_failed, Answers, Backend, await_pod, start,
}
use serverless.Backend.Outcome.{Result, with_pod, after_create}

-- The code is to be synced, and that fails.
abbrev pub SyncFails : Answers → FunctionConfig → Type 0
SyncFails answers cfg = (cfg.code_dir ≢ "") × (cfg.code_key ≡ "") × (answers.syncs ≡ false)

-- What `Start` has done: nothing, if the code cannot be synced or the pod not be created, or else
-- the outcome.
abbrev pub Started :
    (String → String)
    → Environment
    → Answers
    → FunctionConfig
    → Backend
    → (StartError ⊎ RuntimeInstance) × Backend
    → Type 0
Started label environment answers cfg b (result, b') =
    (SyncFails answers cfg × (result ≡ inl sync_failed) × (b' ≡ b))
    ⊎ (¬ SyncFails answers cfg
        × (answers.creates ≡ false)
        × (result ≡ inl create_failed)
        × (b' ≡ b))
    ⊎ (¬ SyncFails answers cfg
        × (answers.creates ≡ true)
        × Result answers cfg (pod_spec environment (pod_name label cfg) cfg) b (result, b'))

-- The test of `Start` for it.
abbrev pub sync_fails : Answers → FunctionConfig → Bool
sync_fails answers cfg = not (str_eq cfg.code_dir "") && str_eq cfg.code_key "" && not answers.syncs

sync_fails-SyncFails :
    (answers : Answers) (cfg : FunctionConfig)
    → (sync_fails answers cfg ≡ true → SyncFails answers cfg)
      × (sync_fails answers cfg ≡ false → ¬ SyncFails answers cfg)
sync_fails-SyncFails answers cfg = (
  λ h. ground (arith, h, eq_iff cfg.code_dir "", eq_iff cfg.code_key ""),
  λ h f. ground (arith, h, f, eq_iff cfg.code_dir "", eq_iff cfg.code_key ""),
)

start_split :
    (label : String → String) (environment : Environment) (answers : Answers) (cfg : FunctionConfig)
    (b : Backend)
    → let spec = pod_spec environment (pod_name label cfg) cfg in
      (SyncFails answers cfg × (start label environment answers cfg b ≡ (inl sync_failed, b)))
      ⊎ (¬ SyncFails answers cfg
          × (answers.creates ≡ false)
          × (start label environment answers cfg b ≡ (inl create_failed, b)))
      ⊎ (¬ SyncFails answers cfg
          × (answers.creates ≡ true)
          × (start label environment answers cfg b
              ≡ await_pod answers cfg spec.name (with_pod spec b)))
unfolding start pod_spec
start_split label environment answers cfg b =
    let test = sync_fails-SyncFails answers cfg in
    elim (Bool-cases (sync_fails answers cfg)) [
      | inl e ↦ inl (test.0 e, rw (start, e) refl)
      | inr e ↦ elim (Bool-cases answers.creates) [
        | inl c ↦ inr (inr (test.1 e, c, rw (start, e, c) refl))
        | inr c ↦ inr (inl (test.1 e, c, rw (start, e, c) refl))
      ]
    ]

-- Whatever the clients answer: if the code is to be synced and that fails, `Start` fails and changes
-- nothing, and so it does if the code is no obstacle but the pod is not created. Otherwise, on success the pod stands in the cluster with the function's specification,
-- has a node, and its port is forwarded; on an error, which comes only with a pod that does not get
-- ready, a forward that does not open or an instance that is not healthy in time, no forward of the
-- pod is left, and no pod unless its deletion failed. Every other pod and forward stays.
pub start-Started :
    (label : String → String) (environment : Environment) (answers : Answers) (cfg : FunctionConfig)
    (b : Backend)
    → Started label environment answers cfg b (start label environment answers cfg b)
start-Started label environment answers cfg b =
    let spec = pod_spec environment (pod_name label cfg) cfg in
    elim (start_split label environment answers cfg b) [
      | inl (f, e) ↦ subst (Started label environment answers cfg b) (sym e) (inl (f, refl, refl))
      | inr (inl (f, c, e)) ↦
          subst (Started label environment answers cfg b) (sym e) (inr (inl (f, c, refl, refl)))
      | inr (inr (f, c, e)) ↦
          subst (Started label environment answers cfg b) (sym e)
            (inr (inr (f, c, after_create answers cfg spec b)))
    ]

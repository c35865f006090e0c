-- ===== src/Backend/Kubernetes.antt =====
-- gateway/scheduler/k8s_backend.go: `Start` and `Stop`. The answers of the Kubernetes client, of the
-- port forwarder and of the instance's health check are arguments; the state is the pods of the
-- cluster, as far as those answers say, and the forwards that the backend keeps.
use Prim.Native.String.{◌++◌ as join}
use serverless.Base.{
  ℕ, String, Bool, true, false, not, ◌&&◌, ◌||◌, List, [], ◌∷◌, Option, none, some, Dict, insert,
  erase, str_eq, ◌==◌, any, if◌then◌else◌, ◌⊎◌, inl, inr,
}
use serverless.Scheduler.Types.{FunctionConfig, RuntimeInstance}
use serverless.Backend.Pod.{PodSpec, Environment, decimal, pod_name, pod_spec}

-- What `Get` shows of a pod: its conditions, by type and status, its node and its phase.
pub record PodStatus : Type 0 where
  pub conditions : List (String × String)
  pub node_name : String
  pub phase : String

pub data Poll : Type 0 where
  get_fails : Poll
  absent : Poll
  present : PodStatus → Poll

pub data StartError : Type 0 where
  sync_failed create_failed get_failed no_node finished timed_out forward_failed not_ready :
      StartError

abbrev pub is_ready : PodStatus → Bool
is_ready status = any (λ c. str_eq c.0 "Ready" && str_eq c.1 "True") status.conditions

-- `waitPodReady`, by the polls that it makes before its time is up.
unfoldable pub wait_pod_ready : List Poll → StartError ⊎ String
wait_pod_ready [] = inl timed_out
wait_pod_ready (get_fails ∷ polls) = inl get_failed
wait_pod_ready (absent ∷ polls) = wait_pod_ready polls
wait_pod_ready (present status ∷ polls) =
    let later = wait_pod_ready polls in
    if is_ready status
    then (if str_eq status.node_name "" then inl no_node else inr status.node_name)
    else if str_eq status.phase "Failed" || str_eq status.phase "Succeeded"
    then inl finished
    else later

-- `waitReady` (scheduler.go), by the probes that it makes before its time is up: the status and the
-- trimmed body of an answer.
unfoldable pub wait_ready : List (Option (ℕ × String)) → Bool
wait_ready [] = false
wait_ready (none ∷ probes) = wait_ready probes
wait_ready (some (status, body) ∷ probes) =
    let later = wait_ready probes in if status == 200 && str_eq body "ok" then true else later

-- What the port forwarder comes to, in `startPortForward`.
pub data Forward : Type 0 where
  refused : Forward
  exited : Forward
  late : Forward
  forwarded : Forward

pub data Delete : Type 0 where
  deleted : Delete
  not_found : Delete
  delete_failed : Delete

-- The answers during one `Start`.
pub record Answers : Type 0 where
  pub syncs : Bool
  pub creates : Bool
  pub polls : List Poll
  pub forward : Forward
  pub probes : List (Option (ℕ × String))
  pub delete : Delete

-- The pods of the cluster and the forwards, by the port on this side.
pub record Backend : Type 0 where
  pub pods : Dict PodSpec
  pub forwards : Dict ℕ

-- `deletePod`: whether it gives no error.
unfoldable pub delete_pod : Delete → String → Backend → Bool × Backend
delete_pod deleted name b = (true, record b { pods = erase name b.pods })
delete_pod not_found name b = (true, record b { pods = erase name b.pods })
delete_pod delete_failed name b = (false, b)

unfoldable pub stop : Delete → String → Backend → Bool × Backend
unfolding delete_pod
stop answer name b = delete_pod answer name (record b { forwards = erase name b.forwards })

-- The end of `Start`, with the port forwarded.
unfoldable pub check_ready :
    Answers → FunctionConfig → String → String → Backend → (StartError ⊎ RuntimeInstance) × Backend
unfolding stop wait_ready
check_ready answers cfg name node b =
    if wait_ready answers.probes
    then (
      inr (record {
        id = name;
        addr = join "localhost:" (decimal cfg.port);
        func_name = cfg.name;
        node_name = node;
      }),
      b,
    )
    else (inl not_ready, (stop answers.delete name b).1)

unfoldable pub start_forward :
    Answers → FunctionConfig → String → String → Backend → (StartError ⊎ RuntimeInstance) × Backend
unfolding stop check_ready
start_forward answers cfg name node b = elim answers.forward [
  | forwarded ↦
      check_ready answers cfg name node (record b { forwards = insert name cfg.port b.forwards })
  | _ ↦ (inl forward_failed, (stop answers.delete name b).1)
]

-- `Start` after the creation of the pod.
unfoldable pub await_pod :
    Answers → FunctionConfig → String → Backend → (StartError ⊎ RuntimeInstance) × Backend
unfolding stop wait_pod_ready start_forward
await_pod answers cfg name b = elim (wait_pod_ready answers.polls) [
  | inl e ↦ (inl e, (stop answers.delete name b).1)
  | inr node ↦ start_forward answers cfg name node b
]

unfoldable pub start :
    (String → String)
    → Environment
    → Answers
    → FunctionConfig
    → Backend
    → (StartError ⊎ RuntimeInstance) × Backend
unfolding pod_name pod_spec await_pod
start label environment answers cfg b =
    let name = pod_name label cfg in
    if not (str_eq cfg.code_dir "") && str_eq cfg.code_key "" && not answers.syncs
    then (inl sync_failed, b)
    else if not answers.creates
    then (inl create_failed, b)
    else await_pod answers cfg name
        (record b { pods = insert name (pod_spec environment name cfg) b.pods })

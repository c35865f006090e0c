-- ===== src/Backend/Pod.antt =====
-- gateway/scheduler/k8s_backend.go: the pod of an instance. Of the environment, `gateway_addr` and the
-- like are the variables' values; `label` is `dnsLabel`.
use Prim.Native.String.{◌++◌ as join}
use serverless.Base.{
  ℕ, zero, suc, ◌/◌, ◌%◌, ℤ, pos, neg_part, pos_part, ltb_ℤ, String, [], ◌∷◌, Dict, str_eq, ltb,
  ◌==◌, if◌then◌else◌,
}
use serverless.Scheduler.Types.{FunctionConfig}

abbrev pub digit : ℕ → String
digit n =
    if n == 0
    then "0"
    else if n == 1
    then "1"
    else if n == 2
    then "2"
    else if n == 3
    then "3"
    else if n == 4
    then "4"
    else if n == 5
    then "5"
    else if n == 6
    then "6"
    else if n == 7
    then "7"
    else if n == 8
    then "8"
    else "9"

-- A number of at most 20 digits, as `%d` prints it.
unfoldable pub decimal_from : ℕ → ℕ → String
decimal_from zero n = digit (n % 10)
decimal_from (suc more) n =
    let front = decimal_from more (n / 10) in
    if ltb n 10 then digit n else join front (digit (n % 10))

unfoldable pub decimal : ℕ → String
unfolding decimal_from
decimal n = decimal_from 19 n

abbrev pub decimal_ℤ : ℤ → String
decimal_ℤ z = if ltb_ℤ z (pos 0) then join "-" (decimal (neg_part z)) else decimal (pos_part z)

unfoldable pub pod_name : (String → String) → FunctionConfig → String
unfolding decimal
pod_name label cfg = join "faas-" (join (label cfg.name) (join "-" (decimal cfg.port)))

-- Where the code of the function comes from: an empty directory that an init container fills from
-- the URL, or a directory of the host.
pub data CodeVolume : Type 0 where
  no_volume : CodeVolume
  loaded_from : String → CodeVolume
  host_path : String → CodeVolume

pub record PodSpec : Type 0 where
  pub name : String
  pub labels : Dict String
  pub image : String
  pub env : Dict String
  pub memory : String
  pub code : CodeVolume

-- The variables that `podSpec` reads.
pub record Environment : Type 0 where
  pub gateway_addr : String
  pub gateway_internal_addr : String
  pub internal_api_token : String

abbrev pub default_to : String → String → String
default_to default value = if str_eq value "" then default else value

unfoldable pub pod_spec : Environment → String → FunctionConfig → PodSpec
pod_spec environment name cfg = record {
  name = name;
  labels =
      ("faas.managed-by", "local-faas")
      ∷ ("faas.function", cfg.name)
      ∷ ("faas.instance", name)
      ∷ [];
  image = cfg.image;
  env =
      ("FUNCTION_HANDLER", cfg.handler)
      ∷ ("FUNCTION_RUNTIME", cfg.runtime)
      ∷ ("GATEWAY_ADDR", default_to "host.minikube.internal:8080" environment.gateway_addr)
      ∷ (
        "GATEWAY_INTERNAL_ADDR",
        default_to "host.minikube.internal:8081" environment.gateway_internal_addr,
      )
      ∷ ("INTERNAL_API_TOKEN", environment.internal_api_token)
      ∷ ("CONTAINER_ID", name)
      ∷ [];
  memory = join (decimal_ℤ cfg.memory) "Mi";
  code =
      if str_eq cfg.code_key ""
      then (if str_eq cfg.code_dir "" then no_volume else host_path cfg.code_dir)
      else loaded_from cfg.code_url;
}

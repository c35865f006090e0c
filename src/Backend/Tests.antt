-- ===== src/Backend/Tests.antt =====
-- The backend at concrete answers.
use serverless.Base.{◌≡◌, refl, pos, true, false, [], ◌∷◌, none, some, inr}
use serverless.Scheduler.Types.{FunctionConfig}
use serverless.Backend.Pod.{Environment, pod_name}
use serverless.Backend.Kubernetes.{absent, present, forwarded, deleted, Answers, Backend, start}
use serverless.Backend.Started.{Started, start-Started}

abbrev resize : FunctionConfig
resize = record {
  name = "resize";
  image = "faas-runtime:latest";
  runtime = "python3";
  timeout = pos 30;
  memory = pos 128;
  handler = "handler.handler";
  triggers = [];
  code_dir = "";
  code_key = "resize.zip";
  code_url = "http://minio/resize.zip";
  port = 9010;
}

abbrev environment : Environment
environment = record { gateway_addr = ""; gateway_internal_addr = ""; internal_api_token = "t" }

abbrev answers : Answers
answers = record {
  syncs = false;
  creates = true;
  polls =
      absent
      ∷ present (record { conditions = ("Ready", "False") ∷ []; node_name = ""; phase = "Pending" })
      ∷ present
          (record { conditions = ("Ready", "True") ∷ []; node_name = "n1"; phase = "Running" })
      ∷ [];
  forward = forwarded;
  probes = none ∷ some (200, "ok") ∷ [];
  delete = deleted;
}

abbrev empty : Backend
empty = record { pods = []; forwards = [] }

start-Started_example :
    Started
      (λ name. name)
      environment
      answers
      resize
      empty
      (start (λ name. name) environment answers resize empty)
start-Started_example = start-Started (λ name. name) environment answers resize empty

pod_name_test : pod_name (λ name. name) resize ≡ "faas-resize-9010"
unfolding pod_name
pod_name_test = refl

started_test :
    (start (λ name. name) environment answers resize empty).0
    ≡ inr (record {
      id = "faas-resize-9010";
      addr = "localhost:9010";
      func_name = "resize";
      node_name = "n1";
    })
unfolding start
started_test = refl

-- ===== src/Runtime/Bootstrap.antt =====
-- runtime/cmd/go-bootstrap/main.go: the process that runs a Go function's binary, and a turn of its
-- loop against the runtime. `is_json` is json.Valid, `parse_int` strconv.ParseInt, and `marshal` the JSON of an error with
-- its message; what the binary does is an argument.
use Prim.Native.String.{◌++◌ as join}
use serverless.Base.{
  ℕ, ℤ, ◌⊎◌, inl, inr, String, Bool, true, not, List, [], ◌∷◌, Option, none, some, str_eq, ◌==◌,
  if◌then◌else◌,
}
use serverless.Runtime.Types.{InvokeResult, Invocation, Runtime}
use serverless.Runtime.Queue.{handle_next, handle_response}

-- An answer of the runtime to a poll: `body` is what reading it gives.
pub record NextAnswer : Type 0 where
  pub status : ℕ
  pub body : Option (List ℕ)
  pub request_id : String
  pub deadline_ms : String

pub record InvocationContext : Type 0 where
  pub aws_request_id : String
  pub deadline_ms : String

-- `nextInvocation`; an answer that does not come is none, as is every error.
unfoldable pub next_invocation : Option NextAnswer → Option (List ℕ × InvocationContext)
next_invocation none = none
next_invocation (some answer) = if not (answer.status == 200) then none else elim answer.body [
  | none ↦ none
  | some payload ↦
      if str_eq answer.request_id ""
      then none
      else some
          (payload, record { aws_request_id = answer.request_id; deadline_ms = answer.deadline_ms })
]

-- What the binary does with a payload: it exits with its output, it fails, or it is killed at the
-- deadline.
pub data Run : Type 0 where
  exits : List ℕ → Run
  fails : String → Run
  overruns : Run

-- `runFunctionBinary`: the message of an error, that of a bad deadline without the text at fault, or
-- the output.
unfoldable pub run_function_binary :
    (List ℕ → Bool) → (String → Option ℤ) → Run → String → String ⊎ List ℕ
run_function_binary is_json parse_int run deadline_ms =
    if str_eq deadline_ms "" then inl "missing deadline" else elim (parse_int deadline_ms) [
      | none ↦ inl "invalid deadline"
      | some deadline ↦ elim run [
        | exits out ↦ if is_json out then inr out else inl "function output is not valid JSON"
        | fails message ↦ inl message
        | overruns ↦ inl "function timed out"
      ]
    ]

-- What a turn of the loop posts: the id, the action and the body.
unfoldable pub post_of :
    (List ℕ → Bool)
    → (String → Option ℤ)
    → (String → List ℕ)
    → (List ℕ → Run)
    → List ℕ × InvocationContext
    → String × String × List ℕ
unfolding run_function_binary
post_of is_json parse_int marshal binary (payload, ctx) =
    elim (run_function_binary is_json parse_int (binary payload) ctx.deadline_ms) [
      | inl message ↦ (ctx.aws_request_id, "error", marshal message)
      | inr out ↦ (ctx.aws_request_id, "response", out)
    ]

-- A turn of the loop in `main`: the posts that it makes.
unfoldable pub bootstrap_turn :
    (List ℕ → Bool)
    → (String → Option ℤ)
    → (String → List ℕ)
    → (List ℕ → Run)
    → Option NextAnswer
    → List (String × String × List ℕ)
unfolding next_invocation post_of
bootstrap_turn is_json parse_int marshal binary answer = elim (next_invocation answer) [
  | none ↦ []
  | some polled ↦ post_of is_json parse_int marshal binary polled ∷ []
]

-- The runtime's answer to a poll; `millis` prints a deadline in milliseconds.
abbrev pub answer_of : (ℕ → String) → Option Invocation → NextAnswer
answer_of millis none = record { status = 204; body = some []; request_id = ""; deadline_ms = "" }
answer_of millis (some inv) = record {
  status = 200;
  body = some inv.payload;
  request_id = inv.id;
  deadline_ms = millis inv.deadline;
}

-- `postInvocation`, whose answer the loop only logs.
unfoldable pub post_all : ℤ → (List ℕ → Bool) → List (String × String × List ℕ) → Runtime → Runtime
unfolding handle_response
post_all max_bytes is_json [] s = s
post_all max_bytes is_json ((id, action, body) ∷ posts) s =
    let path = join id (join "/" action) in
    post_all max_bytes is_json posts (handle_response max_bytes is_json true path body s).1

-- A poll, the run of the binary and the post, with nothing in between.
unfoldable pub serve :
    ℤ
    → (List ℕ → Bool)
    → (String → Option ℤ)
    → (String → List ℕ)
    → (ℕ → String)
    → (List ℕ → Run)
    → (ℕ → ℕ)
    → Runtime
    → Runtime
unfolding bootstrap_turn post_all
serve max_bytes is_json parse_int marshal millis binary now s =
    let (polled, s') = handle_next now s in
    post_all max_bytes is_json
      (bootstrap_turn is_json parse_int marshal binary (some (answer_of millis polled))) s'

-- What the request of an invocation gets from a run of the binary.
abbrev pub result_of : (List ℕ → Bool) → (String → List ℕ) → Run → InvokeResult
result_of is_json marshal (exits out) =
    if is_json out
    then record { status_code = 200; body = out }
    else record { status_code = 500; body = marshal "function output is not valid JSON" }
result_of is_json marshal (fails message) = record { status_code = 500; body = marshal message }
result_of is_json marshal overruns = record {
  status_code = 500;
  body = marshal "function timed out";
}

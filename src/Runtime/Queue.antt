-- ===== src/Runtime/Queue.antt =====
-- The handlers of runtime/cmd/runtime/main.go, by their critical sections. The clock, uuid and the
-- environment are arguments; a time is a number of nanoseconds.
use Prim.Native.Char.{code as code_of}
use serverless.Base.{
  pos_part, ℕ, suc, ◌*◌, ℤ, pos, ltb_ℤ, leb_ℤ, wrap64, scale, String, Bool, true, false, not, ◌||◌,
  if◌then◌else◌, List, [], ◌∷◌, ◌++◌, Option, none, some, lookup, insert, erase, ltb, ◌==◌, str_eq,
  length,
}
use serverless.Runtime.Types.{InvokeResult, Invocation, Runtime}

abbrev second : ℕ
second = 1000000000

-- `env` is envInt("RUNTIME_MAX_QUEUE", 128).
unfoldable pub max_queue_size : ℤ → ℤ
max_queue_size env = if leb_ℤ env (pos 0) then pos 128 else env

-- `env` is envInt("MAX_FUNCTION_TIMEOUT_SECONDS", 300); a duration is an int64.
unfoldable pub clamp_timeout : ℤ → ℤ → ℤ
clamp_timeout env timeout =
    let max_seconds = if leb_ℤ env (pos 0) then pos 300 else env in
    let max_timeout = wrap64 (scale second max_seconds) in
    if leb_ℤ timeout (pos 0)
    then pos (30 * second)
    else if ltb_ℤ max_timeout timeout
    then max_timeout
    else timeout

-- The body of a request, read up to the limit.
pub data RequestBody : Type 0 where
  json : List ℕ → RequestBody
  too_large malformed : RequestBody

-- What `handleInvocation` does before it queues: an error's status, or the payload.
pub data Admission : Type 0 where
  refused : ℕ → Admission
  admitted : List ℕ → Admission

-- `empty_object` is the text {}.
abbrev pub empty_object : List ℕ
empty_object = 123 ∷ 125 ∷ []

unfoldable pub admit : Bool → String → RequestBody → Admission
admit is_post event_type body = if not is_post then refused 405 else elim body [
  | json payload ↦ admitted payload
  | too_large ↦ refused 413
  | malformed ↦ if str_eq event_type "mq" then refused 400 else admitted empty_object
]

-- The first critical section of `handleInvocation` with the token it then sends: none if the queue
-- is full (status 503), else the channel that the request waits on.
unfoldable pub enqueue : ℤ → String → List ℕ → String → ℕ → Runtime → Option ℕ × Runtime
unfolding max_queue_size
enqueue env id payload event_type deadline s =
    if leb_ℤ (max_queue_size env) (pos (length s.queue))
    then (none, s)
    else let c = s.next_channel in
      let inv : Invocation = record {
        id = id;
        payload = payload;
        event_type = event_type;
        deadline = deadline;
        result = c;
      } in
      (
        some c,
        record {
          queue = s.queue ++ (inv ∷ []);
          inflight = insert id c s.inflight;
          notify = true;
          channels = λ d. if d == c then none else s.channels d;
          next_channel = suc c;
        },
      )

unfoldable pub remove_queued : String → List Invocation → List Invocation
remove_queued id [] = []
remove_queued id (inv ∷ queue) = if str_eq inv.id id then queue else inv ∷ remove_queued id queue

-- The two halves of the end of `handleInvocation` after the timeout.
unfoldable pub forget : String → Runtime → Runtime
forget id s = record s { inflight = erase id s.inflight }

unfoldable pub remove_queued_invocation : String → Runtime → Runtime
unfolding remove_queued
remove_queued_invocation id s = record s { queue = remove_queued id s.queue }

-- The end of `handleInvocation` with a result: it takes what the channel buffers, if anything.
unfoldable pub receive : ℕ → Runtime → Option InvokeResult × Runtime
receive c s = (s.channels c, record s { channels = λ d. if d == c then none else s.channels d })

-- A critical section of `handleNext`: it takes the oldest invocation off the queue. If that is past
-- its deadline, `forget` follows, outside of the lock.
abbrev pub pop_from : List Invocation → Runtime → Option Invocation × Runtime
pop_from [] s = (none, s)
pop_from (inv ∷ queue) s = (some inv, record s { queue = queue })

unfoldable pub pop : Runtime → Option Invocation × Runtime
pop s = pop_from s.queue s

-- The loop of `handleNext` over the queue, up to its wait, with nobody else at work; `now` gives the
-- clock's readings, by the number of the invocation looked at. None means that the queue has run
-- empty.
unfoldable pub next_from : (ℕ → ℕ) → ℕ → List Invocation → Runtime → Option Invocation × Runtime
next_from now i [] s = (none, record s { queue = [] })
next_from now i (inv ∷ queue) s =
    let later =
      next_from now (suc i) queue
        (record s { queue = queue; inflight = erase inv.id s.inflight }) in
    if ltb inv.deadline (now i) then later else (some inv, record s { queue = queue })

unfoldable pub handle_next : (ℕ → ℕ) → Runtime → Option Invocation × Runtime
unfolding next_from
handle_next now s = next_from now 0 s.queue s

-- The wait of `handleNext` takes the token.
unfoldable pub take_token : Runtime → Runtime
take_token s = record s { notify = false }

-- What `handleResponse` answers. `blocked` is a send on a full channel, which would never return.
pub data Answer : Type 0 where
  status : ℕ → Answer
  blocked : Answer

-- The end of `handleResponse`, from the valid request on.
unfoldable pub deliver : String → InvokeResult → Runtime → Answer × Runtime
deliver id result s = elim (lookup id s.inflight) [
  | none ↦ (status 404, s)
  | some c ↦
      let taken = record s { inflight = erase id s.inflight } in
      elim (s.channels c) [
        | some full ↦ (blocked, taken)
        | none ↦ (
          status 202,
          record taken { channels = λ d. if d == c then some result else s.channels d },
        )
      ]
]

abbrev pub slash : ℕ
slash = 47

-- Go's SplitN of a path at its first slash: the text before it and all after it, or the path alone.
unfoldable pub split_path : String → List String
split_path String.[] = "" ∷ []
split_path (String.◌∷◌ rune rest) =
    let parts = split_path rest in
    if code_of rune == slash
    then "" ∷ rest ∷ []
    else elim parts [ [] ↦ [] | first ∷ more ↦ String.◌∷◌ rune first ∷ more ]

-- The body as MaxBytesReader and ReadAll give it, which a longer one than the limit fails, if it is
-- valid JSON. A negative limit counts as 0.
unfoldable pub read_body : ℤ → (List ℕ → Bool) → List ℕ → Option (List ℕ)
read_body max_bytes is_json body =
    if ltb (pos_part max_bytes) (length body)
    then none
    else if is_json body
    then some body
    else none

-- `handleResponse` of a POST or another request, for the path after its prefix and the body that
-- arrives; `max_bytes` is envInt("RUNTIME_MAX_REQUEST_BYTES", 1<<20) and `is_json` json.Valid.
unfoldable pub handle_response :
    ℤ → (List ℕ → Bool) → Bool → String → List ℕ → Runtime → Answer × Runtime
unfolding split_path read_body deliver
handle_response max_bytes is_json is_post path body s =
    if not is_post then (status 405, s) else elim (split_path path) [
      | id ∷ action ∷ [] ↦
          if not (str_eq action "response" || str_eq action "error")
          then (status 400, s)
          else elim (read_body max_bytes is_json body) [
            | none ↦ (status 400, s)
            | some b ↦
                let code = if str_eq action "error" then 500 else 200 in
                deliver id (record { status_code = code; body = b }) s
          ]
      | _ ↦ (status 400, s)
    ]

-- The command that runs a function, by its runtime.
unfoldable pub bootstrap_command : String → Option (List String)
bootstrap_command runtime =
    if str_eq runtime "" || str_eq runtime "python3"
    then some ("python3" ∷ "/runtime/bootstrap/python3_bootstrap.py" ∷ [])
    else if str_eq runtime "go"
    then some ("/runtime/bootstrap/go-bootstrap" ∷ [])
    else if str_eq runtime "nodejs"
    then some ("node" ∷ "/runtime/bootstrap/nodejs_bootstrap.js" ∷ [])
    else if str_eq runtime "java"
    then some ("java" ∷ "-cp" ∷ "/runtime/bootstrap/java-bootstrap.jar" ∷ "JavaBootstrap" ∷ [])
    else none

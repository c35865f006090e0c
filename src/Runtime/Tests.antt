-- ===== src/Runtime/Tests.antt =====
-- Runs of the runtime, and its theorems at concrete values.
use serverless.Base.{
  Bool, ℕ, ◌≡◌, refl, ◌≢◌, ◌≤ℤ◌, pos, ℤ, List, [], ◌∷◌, Option, none, some, All, length, String,
  true, false, lookup, insert,
}
use serverless.Runtime.Types.{InvokeResult, Invocation, Runtime}
use serverless.Runtime.Queue.{status, blocked, handle_next, handle_response, max_queue_size}
use serverless.Runtime.Answers.{
  Event, arrived, forgotten, unqueued, collected, popped, responded, run, new_runtime,
  run-unblocked,
}
use serverless.Runtime.Polling.{Polled, handle_next-Polled}
use serverless.Runtime.Bootstrap.{Run, exits, serve, post_all}
use serverless.Runtime.Served.{Posted, serve-Answered}
use serverless.Runtime.Limit.{run-bounded}

abbrev ok : InvokeResult
ok = record { status_code = 200; body = 49 ∷ [] }

-- Two requests of one id; the function answers the id twice, and the first request times out.
abbrev crossing : List Event
crossing =
    arrived "a" [] "http" 100
    ∷ arrived "a" [] "http" 200
    ∷ popped
    ∷ forgotten "a"
    ∷ popped
    ∷ responded "a" ok
    ∷ responded "a" ok
    ∷ forgotten "a"
    ∷ unqueued "a"
    ∷ collected 0
    ∷ []

-- The first of the two is past its deadline, and its poll drops the id of both.
crossing_answers :
    (run (pos 128) crossing new_runtime).0
    ≡ none
      ∷ none
      ∷ none
      ∷ none
      ∷ none
      ∷ some (status 404)
      ∷ some (status 404)
      ∷ none
      ∷ none
      ∷ none
      ∷ []
unfolding run serverless.Base.lookup serverless.Base.erase serverless.Base.insert
crossing_answers = refl

run-unblocked_example : All (λ answer. answer ≢ some blocked) (run (pos 128) crossing new_runtime).0
run-unblocked_example = run-unblocked (pos 128) crossing

run-bounded_example :
    pos (length (run (pos 1) crossing new_runtime).1.queue) ≤ℤ max_queue_size (pos 1)
run-bounded_example = run-bounded (pos 1) crossing

abbrev one_waiting : Runtime
one_waiting = (run (pos 128) (arrived "a" [] "http" 100 ∷ []) new_runtime).1

handle_next-Polled_example :
    let (o, t) = handle_next (λ i. 50) one_waiting in Polled (λ i. 50) 0 one_waiting.queue o t
handle_next-Polled_example = handle_next-Polled (λ i. 50) one_waiting

abbrev invocation_a : Invocation
invocation_a = record { id = "a"; payload = []; event_type = "http"; deadline = 100; result = 0 }

-- Deadlines are printed as one text, which is read as its number.
abbrev print_deadline : ℕ → String
print_deadline deadline = "100"

abbrev read_deadline : String → Option ℤ
read_deadline text = some (pos 100)

abbrev to_json : String → List ℕ
to_json message = 34 ∷ 34 ∷ []

-- A binary whose output is no JSON, and a test that refuses nothing else.
abbrev prints_nothing : List ℕ → Run
prints_nothing payload = exits []

abbrev is_text : List ℕ → Bool
is_text [] = false
is_text (b ∷ body) = true

abbrev one_megabyte : ℤ
one_megabyte = pos 1048576

serve-Answered_example :
    Posted one_megabyte "a" 0
      (record { status_code = 500; body = 34 ∷ 34 ∷ [] })
      (handle_next (λ i. 50) one_waiting).1
      (serve one_megabyte is_text read_deadline to_json print_deadline prints_nothing
        (λ i. 50)
        one_waiting)
unfolding run handle_next lookup insert
serve-Answered_example =
    serve-Answered one_megabyte is_text read_deadline to_json print_deadline prints_nothing
      (λ i. 50) invocation_a (pos 100) one_waiting (handle_next (λ i. 50) one_waiting).1 0 refl
      (λ e. cc) (refl, tt) (λ e. cc) refl (λ message. refl) refl refl

-- With a limit of one byte the error is refused too, and the request waits on.
refused_post :
    (serve
        (pos 1)
        is_text
        read_deadline
        to_json
        print_deadline
        prints_nothing
        (λ i. 50)
        one_waiting).channels
      0
    ≡ none
unfolding run serve post_all handle_response handle_next lookup insert
refused_post = refl

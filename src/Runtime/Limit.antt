-- ===== src/Runtime/Limit.antt =====
-- The length of the queue over a run.
use serverless.Base.{
  ℕ, ◌≤◌, ◌≡◌, inl, inr, ℤ, pos, leb_ℤ, ◌≤ℤ◌, String, List, [], ◌∷◌, arith, Bool-cases, length,
  length-append,
}
use serverless.Runtime.Types.{InvokeResult, Invocation, Runtime}
use serverless.Runtime.Queue.{
  max_queue_size, enqueue, remove_queued, forget, remove_queued_invocation, receive, pop,
  take_token, deliver,
}
use serverless.Runtime.Answers.{
  Event, arrived, forgotten, unqueued, collected, popped, woken, responded, step, run, new_runtime,
}

pop-length : (s : Runtime) → length (pop s).1.queue ≤ length s.queue
unfolding pop
pop-length s = ground arith

length-remove_queued :
    (id : String) (queue : List Invocation) → length (remove_queued id queue) ≤ length queue
unfolding remove_queued
length-remove_queued id [] = omega arith
length-remove_queued id (inv ∷ queue) = ground (arith, length-remove_queued id queue)

enqueue-length :
    (env : ℤ) (id : String) (payload : List ℕ) (event_type : String) (deadline : ℕ) (s : Runtime)
    → pos (length s.queue) ≤ℤ max_queue_size env
    → pos (length (enqueue env id payload event_type deadline s).1.queue) ≤ℤ max_queue_size env
unfolding enqueue
enqueue-length env id payload event_type deadline s h =
    elim (Bool-cases (leb_ℤ (max_queue_size env) (pos (length s.queue)))) [
      | inl e ↦ rw (enqueue, e) h
      | inr e ↦
          rw (enqueue, e)
            (ground (
              arith,
              length-append s.queue (
                  record {
                    id = id;
                    payload = payload;
                    event_type = event_type;
                    deadline = deadline;
                    result = s.next_channel;
                  }
                  ∷ []),
            ))
    ]

deliver-queue :
    (id : String) (result : InvokeResult) (s : Runtime) → (deliver id result s).1.queue ≡ s.queue
unfolding deliver
deliver-queue id result s = ground arith

step-length :
    (env : ℤ) (e : Event) (s : Runtime)
    → pos (length s.queue) ≤ℤ max_queue_size env
    → pos (length (step env e s).1.queue) ≤ℤ max_queue_size env
unfolding step enqueue pop forget remove_queued_invocation receive take_token
step-length env (arrived id payload event_type deadline) s h =
    enqueue-length env id payload event_type deadline s h
step-length env (forgotten id) s h = h
step-length env (unqueued id) s h = omega (arith, h, length-remove_queued id s.queue)
step-length env (collected c) s h = h
step-length env popped s h = omega (arith, h, pop-length s)
step-length env woken s h = h
step-length env (responded id result) s h = rw (deliver-queue id result s) h

run-bounded_from :
    (env : ℤ) (es : List Event) (s : Runtime)
    → pos (length s.queue) ≤ℤ max_queue_size env
    → pos (length (run env es s).1.queue) ≤ℤ max_queue_size env
unfolding run
run-bounded_from env [] s h = h
run-bounded_from env (e ∷ es) s h = run-bounded_from env es (step env e s).1 (step-length env e s h)

-- From a new runtime on, whatever the order of the requests' steps, the queue never holds more than
-- the limit that the environment sets, which is 128 if that is not positive.
pub run-bounded :
    (env : ℤ) (es : List Event)
    → pos (length (run env es new_runtime).1.queue) ≤ℤ max_queue_size env
unfolding max_queue_size
run-bounded env es = run-bounded_from env es new_runtime (ground arith)

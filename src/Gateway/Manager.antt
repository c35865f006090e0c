-- ===== src/Gateway/Manager.antt =====
-- gateway/queue/queue.go: the manager's map of queues. A step is one of a request of a function.
use serverless.Base.{
  ℕ, ◌<◌, ◌≡◌, refl, sym, ◌∙◌, ap, ℤ, pos, ◌≤ℤ◌, String, List, [], ◌∷◌, none, some, Dict, lookup,
  insert, lookup-insert, str_eq, eq_iff, if◌then◌else◌, All, arith, Bool-cases, inl, inr, subst,
}
use serverless.Gateway.Queue.{FunctionQueue, Event, step, run, new_queue, Status, queue_status}
use serverless.Gateway.Waiting.{InOrder, request_of, run-InOrder}

-- The queue of a function, or a new one.
abbrev pub queue_of : String → Dict FunctionQueue → FunctionQueue
queue_of name funcs = elim (lookup name funcs) [ none ↦ new_queue | some fq ↦ fq ]

unfoldable pub get : String → Dict FunctionQueue → FunctionQueue × Dict FunctionQueue
get name funcs = elim (lookup name funcs) [
  | some fq ↦ (fq, funcs)
  | none ↦ (new_queue, insert name new_queue funcs)
]

-- The steps of the requests that belong to the function, in their order.
abbrev pub steps_of : String → List (String × Event) → List Event
steps_of name [] = []
steps_of name ((f, e) ∷ steps) =
    if str_eq f name then e ∷ steps_of name steps else steps_of name steps

module _ (max_inflight : ℕ) (max_queue : ℤ) where
  unfoldable pub manager_step : String → Event → Dict FunctionQueue → Dict FunctionQueue
  unfolding get
  manager_step f e funcs =
      let (fq, funcs') = get f funcs in insert f (step max_inflight max_queue e fq).1 funcs'

  unfoldable pub manager_run : List (String × Event) → Dict FunctionQueue → Dict FunctionQueue
  unfolding manager_step
  manager_run [] funcs = funcs
  manager_run ((f, e) ∷ steps) funcs = manager_run steps (manager_step f e funcs)

  -- `Manager.Status`.
  unfoldable pub manager_status : String → Dict FunctionQueue → Status × Dict FunctionQueue
  unfolding get queue_status
  manager_status name funcs =
      let (fq, funcs') = get name funcs in (queue_status max_inflight max_queue name fq, funcs')

  manager_step-queue_of :
      (name f : String) (e : Event) (funcs : Dict FunctionQueue)
      → queue_of name (manager_step f e funcs) ≡ (
          if str_eq f name
          then (step max_inflight max_queue e (queue_of name funcs)).1
          else queue_of name funcs)
  unfolding manager_step
  manager_step-queue_of name f e funcs = ground (
    arith,
    lookup-insert f name (step max_inflight max_queue e new_queue).1 (insert f new_queue funcs),
    lookup-insert f name new_queue funcs,
    lookup-insert f name (step max_inflight max_queue e (queue_of f funcs)).1 funcs,
    eq_iff f name,
  )

  manager_run-queue_of :
      (name : String) (steps : List (String × Event)) (funcs : Dict FunctionQueue)
      → queue_of name (manager_run steps funcs)
        ≡ run max_inflight max_queue (steps_of name steps) (queue_of name funcs)
  unfolding manager_run run
  manager_run-queue_of name [] funcs = refl
  manager_run-queue_of name ((f, e) ∷ steps) funcs =
      let rest = manager_run-queue_of name steps (manager_step f e funcs) in
      let own = manager_step-queue_of name f e funcs in
      elim (Bool-cases (str_eq f name)) [
        | inl s ↦
            let at : queue_of name (manager_step f e funcs)
                ≡ (step max_inflight max_queue e (queue_of name funcs)).1 =
              own ∙ simp s refl in
            let chosen : steps_of name ((f, e) ∷ steps) ≡ e ∷ steps_of name steps = simp s refl in
            rest
            ∙ ap (run max_inflight max_queue (steps_of name steps)) at
            ∙ ap (λ es. run max_inflight max_queue es (queue_of name funcs)) (sym chosen)
        | inr s ↦
            let at : queue_of name (manager_step f e funcs) ≡ queue_of name funcs =
              own ∙ simp s refl in
            let chosen : steps_of name ((f, e) ∷ steps) ≡ steps_of name steps = simp s refl in
            rest
            ∙ ap (run max_inflight max_queue (steps_of name steps)) at
            ∙ ap (λ es. run max_inflight max_queue es (queue_of name funcs)) (sym chosen)
      ]

  steps_of-below :
      (n : ℕ) (name : String) (steps : List (String × Event))
      → All (λ s. request_of s.1 < n) steps
      → All (λ e. request_of e < n) (steps_of name steps)
  steps_of-below n name [] h = tt
  steps_of-below n name ((f, e) ∷ steps) h = ground (arith, steps_of-below n name steps h.1)

  -- From an empty manager on, for a limit on the waiting that is not negative and whatever the order
  -- of the steps of the requests (those with a number below `n`) of any functions: the queue of each
  -- function is what the steps of its own requests make of a new queue, so that no other function's
  -- touch it; its semaphore holds one token for each request at the router or just promoted, never
  -- more than its capacity, and its `queued` is the number of its requests that wait or have not yet
  -- taken themselves off, never more than the limit.
  pub manager_run-InOrder :
      (n : ℕ) (steps : List (String × Event))
      → All (λ s. request_of s.1 < n) steps
      → pos 0 ≤ℤ max_queue
      → (name : String)
      → let fq = queue_of name (manager_run steps []) in
        (fq ≡ run max_inflight max_queue (steps_of name steps) new_queue)
        × InOrder max_inflight max_queue n fq
  unfolding lookup
  manager_run-InOrder n steps h m name =
      let same = manager_run-queue_of name steps [] in
      (
        same,
        subst (InOrder max_inflight max_queue n) (sym same) (
            run-InOrder max_inflight max_queue n (steps_of name steps)
              (steps_of-below n name steps h) m),
      )

-- ===== src/Gateway/Waiting.antt =====
-- The counts of a function's queue are those of its requests.
use serverless.Base.{
  ℕ, zero, suc, ◌+◌, ◌-◌, ◌≤◌, ◌<◌, ◌≡◌, refl, ℤ, pos, ◌≤ℤ◌, List, [], ◌∷◌, ◌==◌, arith, All, sym,
  Bool-cases, inl, inr,
}
use serverless.Gateway.Queue.{
  Stage, arriving, refused_place, waiting, promoted, running, leaving, done, FunctionQueue, move,
  Event, try_place, join_queue, take_place, unqueue, give_up, leave, finish, step, run, new_queue,
}

-- Whether a request holds a token of the semaphore, and whether `queued` counts it.
abbrev pub holds_token : Stage → ℕ
holds_token promoted = 1
holds_token running = 1
holds_token _ = 0

abbrev pub is_queued : Stage → ℕ
is_queued waiting = 1
is_queued promoted = 1
is_queued (leaving how) = 1
is_queued _ = 0

-- The sum over the requests below `n`.
abbrev pub sum_of : (Stage → ℕ) → (ℕ → Stage) → ℕ → ℕ
sum_of f stage zero = 0
sum_of f stage (suc n) = f (stage n) + sum_of f stage n

sum_of-move-outside :
    (f : Stage → ℕ) (stage : ℕ → Stage) (r : ℕ) (to : Stage) (n : ℕ)
    → n ≤ r
    → sum_of f (move r to stage) n ≡ sum_of f stage n
sum_of-move-outside f stage r to zero h = refl
sum_of-move-outside f stage r to (suc n) h =
    ground (arith, sum_of-move-outside f stage r to n (omega arith))

sum_of-move :
    (f : Stage → ℕ) (stage : ℕ → Stage) (r : ℕ) (to : Stage) (n : ℕ)
    → r < n
    → sum_of f (move r to stage) n + f (stage r) ≡ sum_of f stage n + f to
sum_of-move f stage r to zero h = absurd (omega (arith, h))
sum_of-move f stage r to (suc n) h = elim (Bool-cases (n == r)) [
  | inl e ↦
      let at : n ≡ r = ground arith in
      ground (arith, sum_of-move-outside f stage r to n (ground arith))
  | inr e ↦ ground (arith, sum_of-move f stage r to n (ground arith))
]

-- The counters are the numbers of requests, among those below `n`, that hold a token and that are
-- counted as queued; and neither is above its limit.
abbrev pub InOrder : ℕ → ℤ → ℕ → FunctionQueue → Type 0
InOrder max_inflight max_queue n fq =
    (fq.tokens ≡ sum_of holds_token fq.stage n)
    × (fq.queued ≡ sum_of is_queued fq.stage n)
    × (fq.tokens ≤ max_inflight)
    × (pos fq.queued ≤ℤ max_queue)

abbrev pub request_of : Event → ℕ
request_of (try_place r) = r
request_of (join_queue r) = r
request_of (take_place r) = r
request_of (unqueue r) = r
request_of (leave r) = r
request_of (finish r) = r
request_of (give_up r how) = r

module _ (max_inflight : ℕ) (max_queue : ℤ) (n : ℕ) where
  -- A request moves on, and the counters with it.
  InOrder-move :
      (fq : FunctionQueue) (r : ℕ) (to : Stage) (tokens queued : ℕ)
      → r < n
      → InOrder max_inflight max_queue n fq
      → tokens + holds_token (fq.stage r) ≡ fq.tokens + holds_token to
      → queued + is_queued (fq.stage r) ≡ fq.queued + is_queued to
      → tokens ≤ max_inflight
      → pos queued ≤ℤ max_queue
      → InOrder max_inflight max_queue n
          (record fq { tokens = tokens; queued = queued; stage = move r to fq.stage })
  InOrder-move fq r to tokens queued h (a, b, c, d) i j k l = (
    omega (arith, sum_of-move holds_token fq.stage r to n h),
    omega (arith, sum_of-move is_queued fq.stage r to n h),
    k,
    l,
  )

  sum_of_positive :
      (f : Stage → ℕ) (stage : ℕ → Stage) (r k : ℕ) → r < k → f (stage r) ≤ sum_of f stage k
  sum_of_positive f stage r zero h = absurd (omega (arith, h))
  sum_of_positive f stage r (suc k) h = elim (Bool-cases (k == r)) [
    | inl e ↦ let at : k ≡ r = ground arith in rw at (omega arith)
    | inr e ↦ omega (arith, sum_of_positive f stage r k (ground arith))
  ]

  step-InOrder :
      (e : Event) (fq : FunctionQueue)
      → request_of e < n
      → InOrder max_inflight max_queue n fq
      → InOrder max_inflight max_queue n (step max_inflight max_queue e fq).1
  unfolding step
  step-InOrder (try_place r) fq h o = ground (
    arith,
    InOrder-move fq r running (fq.tokens + 1) fq.queued h o,
    InOrder-move fq r refused_place fq.tokens fq.queued h o,
  )
  step-InOrder (join_queue r) fq h o = ground (
    arith,
    InOrder-move fq r done fq.tokens fq.queued h o,
    InOrder-move fq r waiting fq.tokens (fq.queued + 1) h o,
  )
  step-InOrder (take_place r) fq h o =
      ground (arith, InOrder-move fq r promoted (fq.tokens + 1) fq.queued h o)
  step-InOrder (unqueue r) fq h o = ground (
    arith,
    InOrder-move fq r running fq.tokens (fq.queued - 1) h o,
    sum_of_positive is_queued fq.stage r n h,
  )
  step-InOrder (leave r) fq h o = ground (
    arith,
    InOrder-move fq r done fq.tokens (fq.queued - 1) h o,
    sum_of_positive is_queued fq.stage r n h,
  )
  step-InOrder (finish r) fq h o = ground (
    arith,
    InOrder-move fq r done (fq.tokens - 1) fq.queued h o,
    sum_of_positive holds_token fq.stage r n h,
  )
  step-InOrder (give_up r how) fq h o =
      ground (arith, InOrder-move fq r (leaving how) fq.tokens fq.queued h o)

  run-InOrder_from :
      (es : List Event) (fq : FunctionQueue)
      → All (λ e. request_of e < n) es
      → InOrder max_inflight max_queue n fq
      → InOrder max_inflight max_queue n (run max_inflight max_queue es fq)
  unfolding run
  run-InOrder_from [] fq h o = o
  run-InOrder_from (e ∷ es) fq h o =
      run-InOrder_from es (step max_inflight max_queue e fq).1 h.1 (step-InOrder e fq h.0 o)

  no_requests : (f : Stage → ℕ) (k : ℕ) → f arriving ≡ 0 → sum_of f (λ r. arriving) k ≡ 0
  no_requests f zero h = refl
  no_requests f (suc k) h = omega (arith, h, no_requests f k h)

  -- From a new queue on, whatever the order in which the requests (those with a number below `n`)
  -- take their steps: the semaphore holds one token for each request at the router or just promoted,
  -- never more than its capacity, and `queued` is the number of requests that wait or have not yet
  -- taken themselves off, never more than the limit, if the limit is not negative.
  pub run-InOrder :
      (es : List Event)
      → All (λ e. request_of e < n) es
      → pos 0 ≤ℤ max_queue
      → InOrder max_inflight max_queue n (run max_inflight max_queue es new_queue)
  run-InOrder es h m =
      run-InOrder_from es new_queue h
        (sym (no_requests holds_token n refl), sym (no_requests is_queued n refl), omega arith, m)

-- ===== src/Gateway/Queue.antt =====
-- gateway/queue/queue.go: the places of one function, as steps of any number of requests. A request
-- is a number; the semaphore's channel is the number of tokens that it holds.
use serverless.Base.{ℕ, ◌+◌, ◌-◌, ℤ, pos, leb_ℤ, if◌then◌else◌, List, [], ◌∷◌, ltb, ◌==◌, String}

-- The two outcomes of a wait that ends without a place.
pub data End : Type 0 where
  timed_out cancelled : End

-- Where a request stands: before the first select, between that and the queue's lock, among the
-- waiting, with a token of the semaphore but still counted as queued, at the router, after a timeout
-- or the end of its context but still counted as queued, or done.
pub data Stage : Type 0 where
  arriving refused_place waiting promoted running done : Stage
  leaving : End → Stage

pub record FunctionQueue : Type 0 where
  pub tokens : ℕ
  pub queued : ℕ
  pub stage : ℕ → Stage

-- The status codes that `Invoke` itself writes.
pub data Reply : Type 0 where
  silent : Reply
  status : ℕ → Reply

abbrev pub move : ℕ → Stage → (ℕ → Stage) → ℕ → Stage
move r to stage q = if q == r then to else stage q

-- One step of the request `r`. `try_place` is the first select, `join_queue` the critical section on
-- `queued`, `take_place` and `give_up` the cases of the second select, `unqueue` and `leave` the
-- critical sections that follow them, and `finish` the deferred receive.
pub data Event : Type 0 where
  try_place join_queue take_place unqueue leave finish : ℕ → Event
  give_up : ℕ → End → Event

module _ (max_inflight : ℕ) (max_queue : ℤ) where
  -- A step that its request is not ready for does nothing.
  unfoldable pub step : Event → FunctionQueue → Reply × FunctionQueue
  step (try_place r) fq = elim (fq.stage r) [
    | arriving ↦
        if ltb fq.tokens max_inflight
        then (silent, record fq { tokens = fq.tokens + 1; stage = move r running fq.stage })
        else (silent, record fq { stage = move r refused_place fq.stage })
    | _ ↦ (silent, fq)
  ]
  step (join_queue r) fq = elim (fq.stage r) [
    | refused_place ↦
        if leb_ℤ max_queue (pos fq.queued)
        then (status 429, record fq { stage = move r done fq.stage })
        else (silent, record fq { queued = fq.queued + 1; stage = move r waiting fq.stage })
    | _ ↦ (silent, fq)
  ]
  step (take_place r) fq = elim (fq.stage r) [
    | waiting ↦
        if ltb fq.tokens max_inflight
        then (silent, record fq { tokens = fq.tokens + 1; stage = move r promoted fq.stage })
        else (silent, fq)
    | _ ↦ (silent, fq)
  ]
  step (unqueue r) fq = elim (fq.stage r) [
    | promoted ↦ (silent, record fq { queued = fq.queued - 1; stage = move r running fq.stage })
    | _ ↦ (silent, fq)
  ]
  step (give_up r how) fq = elim (fq.stage r) [
    | waiting ↦ (silent, record fq { stage = move r (leaving how) fq.stage })
    | _ ↦ (silent, fq)
  ]
  step (leave r) fq = elim (fq.stage r) [
    | leaving how ↦ (
      elim how [ timed_out ↦ status 503 | cancelled ↦ silent ],
      record fq { queued = fq.queued - 1; stage = move r done fq.stage },
    )
    | _ ↦ (silent, fq)
  ]
  step (finish r) fq = elim (fq.stage r) [
    | running ↦ (silent, record fq { tokens = fq.tokens - 1; stage = move r done fq.stage })
    | _ ↦ (silent, fq)
  ]

  unfoldable pub run : List Event → FunctionQueue → FunctionQueue
  unfolding step
  run [] fq = fq
  run (e ∷ es) fq = run es (step e fq).1

-- The queue that `get` makes for a function it does not know.
abbrev pub new_queue : FunctionQueue
new_queue = record { tokens = 0; queued = 0; stage = λ r. arriving }

-- `Status`.
pub record Status : Type 0 where
  pub function : String
  pub in_flight : ℕ
  pub queued : ℕ
  pub max_inflight : ℕ
  pub max_queue : ℤ

unfoldable pub queue_status : ℕ → ℤ → String → FunctionQueue → Status
queue_status max_inflight max_queue name fq = record {
  function = name;
  in_flight = fq.tokens;
  queued = fq.queued;
  max_inflight = max_inflight;
  max_queue = max_queue;
}

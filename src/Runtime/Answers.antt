-- ===== src/Runtime/Answers.antt =====
-- The steps of the runtime's requests in any order: an answer never blocks, and is given once.
use serverless.Base.{
  ℕ, ◌<◌, ◌≡◌, refl, ◌≢◌, inl, inr, ℤ, pos, leb_ℤ, String, Bool, true, false, List, [], ◌∷◌, Option,
  none, some, lookup, erase, lookup-insert, lookup-erase, str_eq, eq_iff, str_eq_refl, arith,
  Bool-cases, Option-cases, length, All, Dict,
}
use serverless.Runtime.Types.{InvokeResult, Invocation, Runtime}
use serverless.Runtime.Queue.{
  max_queue_size, enqueue, forget, remove_queued_invocation, receive, pop, pop_from, take_token,
  Answer, status, blocked, deliver,
}

-- One step of one request: a critical section under mu, or a call on inflight, notify or a channel.
-- `arrived` holds the id that uuid made, the
-- payload, the event's type and the deadline.
pub data Event : Type 0 where
  arrived : String → List ℕ → String → ℕ → Event
  forgotten unqueued : String → Event
  collected : ℕ → Event
  popped woken : Event
  responded : String → InvokeResult → Event

-- The answer of the step, for a response; `env` is the variable that limits the queue.
unfoldable pub step : ℤ → Event → Runtime → Option Answer × Runtime
unfolding enqueue forget remove_queued_invocation receive pop take_token deliver
step env (arrived id payload event_type deadline) s =
    (none, (enqueue env id payload event_type deadline s).1)
step env (forgotten id) s = (none, forget id s)
step env (unqueued id) s = (none, remove_queued_invocation id s)
step env (collected c) s = (none, (receive c s).1)
step env popped s = (none, (pop s).1)
step env woken s = (none, take_token s)
step env (responded id result) s = let r = deliver id result s in (some r.0, r.1)

-- The answers of a run, and where it ends.
unfoldable pub run : ℤ → List Event → Runtime → List (Option Answer) × Runtime
unfolding step
run env [] s = ([], s)
run env (e ∷ es) s = let r = step env e s in let rest = run env es r.1 in (r.0 ∷ rest.0, rest.1)

abbrev pub new_runtime : Runtime
new_runtime = record {
  queue = [];
  inflight = [];
  notify = false;
  channels = λ c. none;
  next_channel = 0;
}

-- The channels of the ids in flight exist, are empty, and no two ids share one.
abbrev pub EmptyChannels : Runtime → Type 0
EmptyChannels s =
    ((id : String) (c : ℕ)
      → lookup id s.inflight ≡ some c
      → (c < s.next_channel) × (s.channels c ≡ none))
    × ((id other : String) (c : ℕ)
        → lookup id s.inflight ≡ some c
        → lookup other s.inflight ≡ some c
        → str_eq id other ≡ true)

-- Fewer ids in flight, and the same channels.
EmptyChannels-fewer :
    (s : Runtime) (queue : List Invocation) (inflight : Dict ℕ) (notify : Bool)
    → ((id : String) (c : ℕ) → lookup id inflight ≡ some c → lookup id s.inflight ≡ some c)
    → EmptyChannels s
    → EmptyChannels (record s { queue = queue; inflight = inflight; notify = notify })
EmptyChannels-fewer s queue inflight notify fewer (empty, apart) = (
  λ id c e. empty id c (fewer id c e),
  λ id other c e f. apart id other c (fewer id c e) (fewer other c f),
)

erase_fewer :
    (gone id : String) (c : ℕ) (m : Dict ℕ)
    → lookup id (erase gone m) ≡ some c
    → lookup id m ≡ some c
erase_fewer gone id c m h = ground (arith, lookup-erase gone id m)

pop_from-EmptyChannels :
    (queue : List Invocation) (s : Runtime) → EmptyChannels s → EmptyChannels (pop_from queue s).1
pop_from-EmptyChannels [] s h = h
pop_from-EmptyChannels (inv ∷ queue) s h = h

enqueue-EmptyChannels :
    (env : ℤ) (id : String) (payload : List ℕ) (event_type : String) (deadline : ℕ) (s : Runtime)
    → EmptyChannels s
    → EmptyChannels (enqueue env id payload event_type deadline s).1
unfolding enqueue
enqueue-EmptyChannels env id payload event_type deadline s (empty, apart) =
    elim (Bool-cases (leb_ℤ (max_queue_size env) (pos (length s.queue)))) [
      | inl e ↦ rw (enqueue, e) (empty, apart)
      | inr e ↦
          rw (enqueue, e)
            (
              λ k c f. ground (arith, lookup-insert id k s.next_channel s.inflight, empty k c),
              λ k j c f g. ground (
                arith,
                lookup-insert id k s.next_channel s.inflight,
                lookup-insert id j s.next_channel s.inflight,
                empty k c,
                empty j c,
                apart k j c,
                eq_iff id k,
                eq_iff id j,
                eq_iff k j,
              ),
            )
    ]

receive-EmptyChannels : (c : ℕ) (s : Runtime) → EmptyChannels s → EmptyChannels (receive c s).1
unfolding receive
receive-EmptyChannels c s (empty, apart) =
    (λ k d f. ground (arith, empty k d), λ k j d f g. apart k j d f g)

-- A delivery finds the channel empty, and leaves the state in order.
deliver-EmptyChannels :
    (id : String) (result : InvokeResult) (s : Runtime)
    → EmptyChannels s
    → let (answer, t) = deliver id result s in (answer ≢ blocked) × EmptyChannels t
unfolding deliver
deliver-EmptyChannels id result s (empty, apart) = elim (Option-cases (lookup id s.inflight)) [
  | inl e ↦ rw (deliver, e) (λ k. cc, (empty, apart))
  | inr (c, e) ↦
      rw (deliver, e, (empty id c e).1)
        (
          λ k. cc,
          (
            λ k d f.
                ground (arith, lookup-erase id k s.inflight, empty k d, apart id k d, eq_iff id k),
            λ k j d f g.
                ground
                  (arith, lookup-erase id k s.inflight, lookup-erase id j s.inflight, apart k j d),
          ),
        )
]

step-EmptyChannels :
    (env : ℤ) (e : Event) (s : Runtime)
    → EmptyChannels s
    → let (answer, t) = step env e s in (answer ≢ some blocked) × EmptyChannels t
unfolding step pop forget remove_queued_invocation take_token
step-EmptyChannels env (arrived id payload event_type deadline) s h =
    (λ k. cc, enqueue-EmptyChannels env id payload event_type deadline s h)
step-EmptyChannels env (forgotten id) s h = (
  λ k. cc,
  EmptyChannels-fewer s s.queue (erase id s.inflight) s.notify
      (λ k c. erase_fewer id k c s.inflight) h,
)
step-EmptyChannels env (unqueued id) s h = (λ k. cc, h)
step-EmptyChannels env (collected c) s h = (λ k. cc, receive-EmptyChannels c s h)
step-EmptyChannels env popped s h = (λ k. cc, pop_from-EmptyChannels s.queue s h)
step-EmptyChannels env woken s h = (λ k. cc, h)
step-EmptyChannels env (responded id result) s h =
    let (answered, kept) = deliver-EmptyChannels id result s h in (λ k. answered (cc), kept)

run-unblocked_from :
    (env : ℤ) (es : List Event) (s : Runtime)
    → EmptyChannels s
    → All (λ answer. answer ≢ some blocked) (run env es s).0
unfolding run
run-unblocked_from env [] s h = tt
run-unblocked_from env (e ∷ es) s h =
    let (answered, kept) = step-EmptyChannels env e s h in
    (answered, run-unblocked_from env es (step env e s).1 kept)

-- From a new runtime on, whatever the order of the requests' steps: no response ever blocks on the
-- channel of its invocation, also if ids repeat or responses come after a timeout.
pub run-unblocked :
    (env : ℤ) (es : List Event) → All (λ answer. answer ≢ some blocked) (run env es new_runtime).0
unfolding lookup
run-unblocked env es = run-unblocked_from env es new_runtime (λ id c e. cc, λ id other c e f. cc)

deliver_missing :
    (id : String) (result : InvokeResult) (s : Runtime)
    → lookup id s.inflight ≡ none
    → deliver id result s ≡ (status 404, s)
unfolding deliver
deliver_missing id result s e = rw (deliver, e) refl

deliver-gone :
    (id : String) (result : InvokeResult) (s : Runtime)
    → lookup id (deliver id result s).1.inflight ≡ none
unfolding deliver
deliver-gone id result s = elim (Option-cases (lookup id s.inflight)) [
  | inl e ↦ rw (deliver, e) e
  | inr (c, e) ↦ elim (Option-cases (s.channels c)) [
    | inl f ↦ rw (deliver, e, f) (rw (lookup-erase id id s.inflight, str_eq_refl id) refl)
    | inr (full, f) ↦ rw (deliver, e, f) (rw (lookup-erase id id s.inflight, str_eq_refl id) refl)
  ]
]

-- Directly after a response to an id, whatever came of it, a second response to the same id gets
-- status 404 and changes nothing.
pub deliver_twice :
    (id : String) (result later : InvokeResult) (s : Runtime)
    → let t = (deliver id result s).1 in deliver id later t ≡ (status 404, t)
deliver_twice id result later s =
    deliver_missing id later (deliver id result s).1 (deliver-gone id result s)

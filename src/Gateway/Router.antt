-- ===== src/Gateway/Router.antt =====
-- gateway/router/router.go: one invocation, from the request to the reply. The answers of the
-- backend, of the instance and of the readers are arguments.
use serverless.Base.{
  ℕ, ◌≡◌, refl, ◌⊎◌, inl, inr, ℤ, pos, ltb_ℤ, eq_ℤ, ◌≢◌, Bool, [], String, ◌||◌, if◌then◌else◌,
  List, Option, none, some, lookup, subst, sym, ap, Option-cases,
}
use serverless.Scheduler.Types.{FunctionConfig, Container, idle, Scheduler, Error}
use serverless.Scheduler.Pool.{Started, Acquired, got, refused, acquire, release, mark}
use serverless.Scheduler.Pool.Acquire.{set_cell_self, AcquireResult, acquire-AcquireResult}

-- How the exchange with the instance ends: the request cannot be built, no answer comes in time, or
-- an answer with an HTTP status, whose body is not JSON or has a field `statusCode` (0 if it is
-- missing) and a field `body`.
pub data Exchange : Type 0 where
  not_built no_answer : Exchange
  malformed : ℕ → Exchange
  answered : ℕ → ℤ → List ℕ → Exchange

-- What the client of the gateway sees. Go's WriteHeader panics for a code that does not have three
-- digits, which ends the connection without a reply; a code from 100 to 199 but 101 is informational,
-- and the Write after it answers with 200; with 101, 204 and 304 the body is dropped.
pub data Reply : Type 0 where
  failed : ℕ → Reply
  passed : ℤ → List ℕ → Reply
  panicked : Reply

abbrev pub has_no_body : ℤ → Bool
has_no_body code = eq_ℤ code (pos 101) || eq_ℤ code (pos 204) || eq_ℤ code (pos 304)

unfoldable pub write_header : ℤ → List ℕ → Reply
write_header code body =
    if ltb_ℤ code (pos 100) || ltb_ℤ (pos 999) code
    then panicked
    else if has_no_body code
    then passed code []
    else if ltb_ℤ code (pos 200)
    then passed (pos 200) body
    else passed code body

-- The reply for the instance's answer; its HTTP status is not looked at.
unfoldable pub reply_of : Exchange → Reply
unfolding write_header
reply_of not_built = failed 500
reply_of no_answer = failed 502
reply_of (malformed status) = failed 502
reply_of (answered status code body) = write_header code body

-- `Invoke`, with the deferred release. The clock is read at `now` and `later` by Acquire and at
-- `finally` by Release.
unfoldable pub invoke :
    (FunctionConfig → Started)
    → (Container → Exchange)
    → Option (List ℕ)
    → String
    → ℕ
    → ℕ
    → ℕ
    → Scheduler
    → Reply × Scheduler
unfolding reply_of release
invoke start exchange body name now later finally s = elim (lookup name s.functions) [
  | none ↦ (failed 404, s)
  | some cfg ↦ elim body [
    | none ↦ (failed 400, s)
    | some bytes ↦
        let acquired = acquire start name now later s in
        elim acquired.0 [
          | refused e ↦ (failed 503, acquired.1)
          | got p ↦ (reply_of (exchange (acquired.1.heap p)), release p finally acquired.1)
        ]
  ]
]

-- An instance is asked for, and the reply is 503, with the state that Acquire left, if there is none;
-- otherwise the reply is made of what the instance answers, and the instance is idle again.
abbrev pub Dispatched :
    (FunctionConfig → Started)
    → (Container → Exchange)
    → String
    → ℕ
    → ℕ
    → ℕ
    → Scheduler
    → Reply × Scheduler
    → Type 0
Dispatched start exchange name now later finally s (reply, t) =
    ((e : Error) × (acquire start name now later s ≡ (refused e, t))
      × AcquireResult start name now s (refused e, t)
      × (reply ≡ failed 503))
    ⊎ ((p : ℕ) × (u : Scheduler) × (acquire start name now later s ≡ (got p, u))
        × AcquireResult start name now s (got p, u)
        × (reply ≡ reply_of (exchange (u.heap p)))
        × ((t.heap p).state ≡ idle)
        × ((t.heap p).last_used ≡ finally)
        × (t.pool ≡ u.pool)
        × (t.leases ≡ u.leases))

-- What an invocation leaves: nothing changed without a function, a body or an instance but for the
-- scheduler's own bookkeeping of a failed start; otherwise the instance that was acquired is idle
-- again, whatever it answered.
abbrev pub Invoked :
    (FunctionConfig → Started)
    → (Container → Exchange)
    → Option (List ℕ)
    → String
    → ℕ
    → ℕ
    → ℕ
    → Scheduler
    → Reply × Scheduler
    → Type 0
Invoked start exchange body name now later finally s (reply, t) =
    ((lookup name s.functions ≡ none) × (reply ≡ failed 404) × (t ≡ s))
    ⊎ ((lookup name s.functions ≢ none) × (body ≡ none) × (reply ≡ failed 400) × (t ≡ s))
    ⊎ ((lookup name s.functions ≢ none)
        × (body ≢ none)
        × Dispatched start exchange name now later finally s (reply, t))

module _ (start : FunctionConfig → Started) (exchange : Container → Exchange) (name : String)
    (now later finally : ℕ) (s : Scheduler) where
  after_acquire :
      (r : Acquired × Scheduler)
      → acquire start name now later s ≡ r
      → AcquireResult start name now s r
      → Dispatched start exchange name now later finally s (elim r.0 [
        | refused e ↦ (failed 503, r.1)
        | got p ↦ (reply_of (exchange (r.1.heap p)), release p finally r.1)
      ])
  unfolding release mark
  after_acquire (refused e, u) same result = inl (e, same, result, refl)
  after_acquire (got p, u) same result = inr (
    p,
    u,
    same,
    result,
    refl,
    ap (λ c. c.state) (set_cell_self p _ u.heap),
    ap (λ c. c.last_used) (set_cell_self p _ u.heap),
    refl,
    refl,
  )

-- An invocation of an unknown function gets status 404 and changes nothing; of a known one with a
-- body that cannot be read gets 400 and changes nothing; only of a known function with a readable
-- body is an instance asked for. Then, if no instance can be acquired, it gets 503, with the state
-- that Acquire left; and otherwise it gets what the acquired instance's answer gives, and that
-- instance is idle again, used last at the release, with pool and leases as Acquire left them.
pub invoke-Invoked :
    (start : FunctionConfig → Started) (exchange : Container → Exchange) (body : Option (List ℕ))
    (name : String) (now later finally : ℕ) (s : Scheduler)
    → Invoked start exchange body name now later finally s
        (invoke start exchange body name now later finally s)
unfolding invoke
invoke-Invoked start exchange body name now later finally s =
    elim (Option-cases (lookup name s.functions)) [
      | inl e ↦ rw (invoke, e) (inl (refl, refl, refl))
      | inr (cfg, e) ↦
          let known : lookup name s.functions ≢ none = λ h. cc in
          elim (Option-cases body) [
            | inl b ↦ rw (invoke, e, b) (inr (inl ((λ h. cc), refl, refl, refl)))
            | inr (bytes, b) ↦
                let r = acquire start name now later s in
                let serve : invoke start exchange body name now later finally s ≡ (elim r.0 [
                  | refused e ↦ (failed 503, r.1)
                  | got p ↦ (reply_of (exchange (r.1.heap p)), release p finally r.1)
                ]) =
                  rw (invoke, e, b) refl in
                subst (Invoked start exchange body name now later finally s) (sym serve) (
                  inr (
                    inr (
                      known,
                      (λ h. cc),
                      after_acquire start exchange name now later finally s r refl
                          (acquire-AcquireResult start name now later s),
                    )))
          ]
    ]

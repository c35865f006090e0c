-- ===== src/Mq/Worker.antt =====
-- mqsvc/worker.go and mqsvc/gateway_client.go: one message from its reception to its result. The
-- answers of the gateway and of the runtime over HTTP are arguments.
use serverless.Base.{
  ℕ, ◌≡◌, refl, ◌⊎◌, inl, inr, String, Bool, true, false, not, ◌&&◌, ◌||◌, List, [], ◌∷◌, Option,
  none, some, leb, ◌==◌, str_eq, if◌then◌else◌, ℤ, pos, ltb_ℤ, leb_ℤ, ◌+ℤ◌, wrap64, Bool-cases,
  Option-cases, Sum-cases,
}
use serverless.Mq.Types.{Trigger, Message, MessageResult, Grant}
use serverless.Mq.Metrics.{Call, received, acked, retried, dlqed}

-- A Go error: its text, and what `errors.Is` finds in it. The texts that the code formats with a
-- status stand here without it.
pub record Failure : Type 0 where
  pub text : String
  pub is_deadline : Bool
  pub is_canceled : Bool

abbrev pub plain : String → Failure
plain t = record { text = t; is_deadline = false; is_canceled = false }

-- An HTTP exchange: no answer, or a status code with what decoding the body gives.
pub data Exchange (A : Type 0) : Type 0 where
  failed : Failure → Exchange A
  answered : ℕ → (Failure ⊎ A) → Exchange A

-- `GatewayClient.Acquire` and `Triggers`: only 200 is a success, whose body is decoded.
unfoldable pub expect_ok : {A : Type 0} → String → Exchange A → Failure ⊎ A
expect_ok what (failed e) = inl e
expect_ok what (answered status body) = if status == 200 then body else inl (plain what)

-- `GatewayClient.Release`: only 204 is a success, and no body is read.
unfoldable pub release_answer : Exchange Unit → Option Failure
release_answer (failed e) = some e
release_answer (answered status body) =
    if status == 204 then none else some (plain "gateway release returned another status")

-- `shouldDLQ`, with the sum of an int.
unfoldable pub should_dlq : Trigger → Message → Bool
should_dlq trigger msg =
    ltb_ℤ (pos 0) trigger.max_attempts
    && leb_ℤ trigger.max_attempts (wrap64 (msg.attempts +ℤ pos 1))
    && not (str_eq trigger.dlq "")

-- The field `statusCode` of a runtime's response, under the statuses of the exchange.
unfoldable pub invoke_runtime : Option Failure → Exchange ℤ → Option Failure
invoke_runtime (some marshal_error) answer = some marshal_error
invoke_runtime none (failed e) = some e
invoke_runtime none (answered status body) =
    if leb 500 status then some (plain "runtime returned an error status") else elim body [
      | inl e ↦ some e
      | inr code ↦
          if leb_ℤ (pos 500) code then some (plain "function returned an error status") else none
    ]

-- What happens around one message: the gateway's answers, the runtime's, and whether the
-- invocation's context has passed its deadline or is cancelled when the runtime has answered.
pub record Surroundings : Type 0 where
  pub acquire : Exchange Grant
  pub marshal_error : Option Failure
  pub runtime : Exchange ℤ
  pub context_deadline : Bool
  pub context_canceled : Bool
  pub release : String → Exchange Unit

-- The result, the calls of the metrics in order, and the statuses sent with a release.
pub record Handled : Type 0 where
  pub result : MessageResult
  pub calls : List Call
  pub releases : List String

abbrev pub retry_result : String → MessageResult
retry_result reason = record { ack = false; dlq = false; reason = reason }

abbrev pub dlq_result : String → MessageResult
dlq_result reason = record { ack = false; dlq = true; reason = reason }

abbrev pub ack_result : MessageResult
ack_result = record { ack = true; dlq = false; reason = "" }

-- The end of a failed attempt, in the dead letters or as a retry.
unfoldable pub give_up : Trigger → Message → String → List String → Handled
unfolding should_dlq
give_up trigger msg reason releases =
    if should_dlq trigger msg
    then record {
      result = dlq_result reason;
      calls = received ∷ dlqed reason ∷ [];
      releases = releases;
    }
    else record {
      result = retry_result reason;
      calls = received ∷ retried reason ∷ [];
      releases = releases;
    }

-- The status that the lease of a failed invocation is released with.
unfoldable pub failure_status : Surroundings → Failure → String
failure_status w e =
    if e.is_deadline || w.context_deadline
    then "timeout"
    else if e.is_canceled || w.context_canceled
    then "abandoned"
    else "error"

-- The release of the lease, and what follows if it succeeds.
unfoldable pub after_release : Surroundings → String → (List String → Handled) → Handled
unfolding release_answer
after_release w status next = elim (release_answer (w.release status)) [
  | some e ↦ record {
    result = retry_result e.text;
    calls = received ∷ retried e.text ∷ [];
    releases = status ∷ [];
  }
  | none ↦ next (status ∷ [])
]

unfoldable pub handle_message : Surroundings → Trigger → Message → Handled
unfolding expect_ok give_up invoke_runtime failure_status after_release
handle_message w trigger msg =
    elim (expect_ok "gateway acquire returned another status" w.acquire) [
      | inl e ↦ give_up trigger msg e.text []
      | inr lease ↦ elim (invoke_runtime w.marshal_error w.runtime) [
        | some e ↦ after_release w (failure_status w e) (give_up trigger msg e.text)
        | none ↦ after_release w "success" (λ releases. record {
          result = ack_result;
          calls = received ∷ acked ∷ [];
          releases = releases;
        })
      ]
    ]

-- The call that counts a result.
abbrev pub call_of : MessageResult → Call
call_of r = if r.ack then acked else if r.dlq then dlqed r.reason else retried r.reason

-- The statuses of the release for an answer of the runtime.
abbrev pub releases_of : Surroundings → List String
releases_of w = elim (expect_ok "gateway acquire returned another status" w.acquire) [
  | inl e ↦ []
  | inr lease ↦ elim (invoke_runtime w.marshal_error w.runtime) [
    | some e ↦ failure_status w e ∷ []
    | none ↦ "success" ∷ []
  ]
]

-- Everything went well: a lease, an invocation without an error, and the release.
abbrev pub succeeds : Surroundings → Bool
succeeds w = elim (expect_ok "gateway acquire returned another status" w.acquire) [
  | inl e ↦ false
  | inr lease ↦ elim (invoke_runtime w.marshal_error w.runtime) [
    | some e ↦ false
    | none ↦ elim (release_answer (w.release "success")) [ some e ↦ false | none ↦ true ]
  ]
]

-- What `HandleMessage` promises: it counts the message as received and then counts exactly the
-- result it returns; a lease that it got is released once, with the status of the invocation, and
-- without a lease nothing is released; the message is acknowledged exactly if the lease, the
-- invocation and the release with "success" all worked; and only a message that `shouldDLQ` lets go
-- is sent to the dead letters.
abbrev pub HandledRight : Surroundings → Trigger → Message → Handled → Type 0
HandledRight w trigger msg h =
    (h.calls ≡ received ∷ call_of h.result ∷ [])
    × (h.releases ≡ releases_of w)
    × (h.result.ack ≡ succeeds w)
    × (h.result.dlq ≡ true → (should_dlq trigger msg ≡ true) × (h.result.ack ≡ false))

give_up-calls :
    (trigger : Trigger) (msg : Message) (reason : String) (rs : List String)
    → let h = give_up trigger msg reason rs in
      (h.calls ≡ received ∷ call_of h.result ∷ [])
      × (h.releases ≡ rs)
      × (h.result.ack ≡ false)
      × (h.result.dlq ≡ true → (should_dlq trigger msg ≡ true) × (h.result.ack ≡ false))
unfolding give_up
give_up-calls trigger msg reason rs = elim (Bool-cases (should_dlq trigger msg)) [
  | inl e ↦ rw e (refl, refl, refl, λ _. (refl, refl))
  | inr e ↦ rw e (refl, refl, refl, λ k. cc)
]

after_failure :
    (w : Surroundings) (trigger : Trigger) (msg : Message) (status reason : String)
    → let h = after_release w status (give_up trigger msg reason) in
      (h.calls ≡ received ∷ call_of h.result ∷ [])
      × (h.releases ≡ status ∷ [])
      × (h.result.ack ≡ false)
      × (h.result.dlq ≡ true → (should_dlq trigger msg ≡ true) × (h.result.ack ≡ false))
unfolding after_release
after_failure w trigger msg status reason =
    elim (Option-cases (release_answer (w.release status))) [
      | inl r ↦ rw (after_release, r) (give_up-calls trigger msg reason (status ∷ []))
      | inr (e, r) ↦ rw (after_release, r) (refl, refl, refl, λ k. cc)
    ]

after_success :
    (w : Surroundings) (trigger : Trigger) (msg : Message)
    → let h = after_release w "success" (λ releases. record {
      result = ack_result;
      calls = received ∷ acked ∷ [];
      releases = releases;
    }) in
      (h.calls ≡ received ∷ call_of h.result ∷ [])
      × (h.releases ≡ "success" ∷ [])
      × (h.result.ack
          ≡ elim (release_answer (w.release "success")) [ some e ↦ false | none ↦ true ])
      × (h.result.dlq ≡ true → (should_dlq trigger msg ≡ true) × (h.result.ack ≡ false))
unfolding after_release
after_success w trigger msg = elim (Option-cases (release_answer (w.release "success"))) [
  | inl r ↦ rw (after_release, r) (refl, refl, refl, λ k. cc)
  | inr (e, r) ↦ rw (after_release, r) (refl, refl, refl, λ k. cc)
]

-- `HandleMessage` first counts the message as received and then counts exactly the result that it
-- returns. It releases nothing if it got no lease, and otherwise releases the lease once: with
-- "success" if the invocation gave no error, else with "timeout", "abandoned" or "error" by the
-- cause. It acknowledges exactly if the lease was granted, the invocation gave no error and the
-- release worked. It sends to the dead letters only what `shouldDLQ` lets go.
pub handle_message-HandledRight :
    (w : Surroundings) (trigger : Trigger) (msg : Message)
    → HandledRight w trigger msg (handle_message w trigger msg)
unfolding handle_message
handle_message-HandledRight w trigger msg =
    elim (Sum-cases (expect_ok "gateway acquire returned another status" w.acquire)) [
      | inl (e, a) ↦
          let (calls, none_released, not_acked, dead) = give_up-calls trigger msg e.text [] in
          rw (handle_message, releases_of, succeeds, a) (calls, none_released, not_acked, dead)
      | inr (lease, a) ↦ elim (Option-cases (invoke_runtime w.marshal_error w.runtime)) [
        | inr (e, i) ↦
            let (calls, released, not_acked, dead) =
              after_failure w trigger msg (failure_status w e) e.text in
            rw (handle_message, releases_of, succeeds, a, i) (calls, released, not_acked, dead)
        | inl i ↦
            let (calls, released, is_ack, dead) = after_success w trigger msg in
            rw (handle_message, releases_of, succeeds, a, i) (calls, released, is_ack, dead)
      ]
    ]

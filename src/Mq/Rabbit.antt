-- ===== src/Mq/Rabbit.antt =====
-- mqsvc/rabbitmq.go: the settlement of a delivery, the header that counts the attempts, and the
-- waits of Subscribe. What the AMQP client answers is an argument.
use serverless.Base.{
  ℕ, zero, suc, ◌+◌, ◌-◌, ◌*◌, ◌%◌, ◌≤◌, ◌<◌, ◌^◌, ◌≡◌, refl, inl, inr, String, Bool, true, false,
  List, [], ◌∷◌, ◌++◌, none, some, arith, ltb, str_eq, if◌then◌else◌, ℤ, pos, negsuc, ◌+ℤ◌, wrap64,
  Bool-cases, Dict, lookup, insert, lookup-insert, sub_ℕ,
}
use serverless.Mq.Types.{Trigger, Message, MessageResult}

-- A header's value as the AMQP client decodes it; `other` is any other type, with its text.
pub data HeaderValue : Type 0 where
  int int32 int64 : ℤ → HeaderValue
  text other : String → HeaderValue

pub record Delivery : Type 0 where
  pub message_id : String
  pub delivery_tag : ℕ
  pub content_type : String
  pub body : List ℕ
  pub headers : Dict HeaderValue

pub record Publishing : Type 0 where
  pub content_type : String
  pub message_id : String
  pub body : List ℕ
  pub persistent : Bool
  pub headers : Dict HeaderValue

-- The conversion to int32: the low 32 bits, with the sign.
unfoldable pub to_int32 : ℤ → ℤ
to_int32 (pos n) = let r = n % 2 ^ 32 in if ltb r (2 ^ 31) then pos r else sub_ℕ r (2 ^ 32)
to_int32 (negsuc n) =
    let r = n % 2 ^ 32 in if ltb r (2 ^ 31) then negsuc r else pos (2 ^ 32 - 1 - r)

abbrev pub attempts_header : String
attempts_header = "x-faas-attempts"

module _ (atoi : String → ℤ) where
  -- `atoi` is the first result of strconv.Atoi.
  unfoldable pub attempts_from_headers : Dict HeaderValue → ℤ
  attempts_from_headers headers = elim (lookup attempts_header headers) [
    | none ↦ pos 0
    | some value ↦ elim value [
      | int v ↦ v
      | int32 v ↦ v
      | int64 v ↦ v
      | text v ↦ atoi v
      | other v ↦ pos 0
    ]
  ]

-- The copy of the headers, with the attempts and, if there is one, the reason.
unfoldable pub publishing_for_delivery : Delivery → String → ℤ → String → Publishing
publishing_for_delivery d message_id attempts reason =
    let headers = insert attempts_header (int32 (to_int32 attempts)) d.headers in
    record {
      content_type = d.content_type;
      message_id = message_id;
      body = d.body;
      persistent = true;
      headers = if str_eq reason "" then headers else insert "x-faas-reason" (text reason) headers;
    }

-- How the wait for the broker's confirmation ends.
pub data Confirmation : Type 0 where
  confirmed : Bool → Confirmation
  context_done timed_out : Confirmation

-- What the client answers to the four calls of `publishWithConfirm`; true is an error.
pub record PublishAnswers : Type 0 where
  pub channel_fails : Bool
  pub confirm_fails : Bool
  pub publish_fails : Bool
  pub confirmation : Confirmation

-- What reaches the broker: a message in a queue, an acknowledgement, or a rejection that asks for
-- the message to be queued again.
pub data Action : Type 0 where
  publish : String → Publishing → Action
  ack : Action
  nack : Bool → Action

-- Whether it worked, with what was sent.
unfoldable pub publish_with_confirm : PublishAnswers → String → Publishing → Bool × List Action
publish_with_confirm a queue p =
    if a.channel_fails
    then (false, [])
    else if a.confirm_fails
    then (false, [])
    else if a.publish_fails
    then (false, [])
    else elim a.confirmation [
      | confirmed ok ↦ (ok, publish queue p ∷ [])
      | context_done ↦ (false, publish queue p ∷ [])
      | timed_out ↦ (false, publish queue p ∷ [])
    ]

-- Acknowledged if the message was republished, else queued again.
unfoldable pub settle_published : Bool × List Action → List Action
settle_published (true, sent) = sent ++ (ack ∷ [])
settle_published (false, sent) = sent ++ (nack true ∷ [])

-- The end of `handleDelivery`, from the handler's result on; `interrupted` says that the context
-- ended during the backoff before a retry.
unfoldable pub settle_delivery :
    PublishAnswers → Bool → Trigger → Delivery → Message → MessageResult → List Action
unfolding publishing_for_delivery publish_with_confirm settle_published
settle_delivery a interrupted trigger d msg result =
    let again = publishing_for_delivery d msg.id (wrap64 (msg.attempts +ℤ pos 1)) result.reason in
    if result.ack
    then ack ∷ []
    else if result.dlq
    then if str_eq trigger.dlq ""
      then nack true ∷ []
      else settle_published (publish_with_confirm a trigger.dlq again)
    else if interrupted
    then nack true ∷ []
    else settle_published (publish_with_confirm a trigger.queue again)

module _ (atoi : String → ℤ) (id_for : String → ℕ → String) (print : HeaderValue → String) where
  -- `print` is fmt.Sprint.
  unfoldable pub string_headers : Dict HeaderValue → Dict String
  string_headers [] = []
  string_headers ((k, v) ∷ headers) = (k, print v) ∷ string_headers headers

  -- The message of a delivery; `id_for` joins the trigger's id and the delivery's tag with a dash.
  unfoldable pub message_of : Trigger → Delivery → Message
  unfolding attempts_from_headers string_headers
  message_of trigger d = record {
    id = if str_eq d.message_id "" then id_for trigger.id d.delivery_tag else d.message_id;
    body = d.body;
    headers = string_headers d.headers;
    attempts = attempts_from_headers atoi d.headers;
  }

  unfoldable pub handle_delivery :
      PublishAnswers → Bool → Trigger → (Message → MessageResult) → Delivery → List Action
  unfolding message_of settle_delivery
  handle_delivery a interrupted trigger handler d =
      let msg = message_of trigger d in settle_delivery a interrupted trigger d msg (handler msg)

-- How often the delivery is settled.
abbrev pub settlements : List Action → ℕ
settlements [] = 0
settlements (publish q p ∷ rest) = settlements rest
settlements (ack ∷ rest) = suc (settlements rest)
settlements (nack again ∷ rest) = suc (settlements rest)

-- The copies of the message that the broker holds after the actions: those published and the
-- delivery itself, unless it was acknowledged.
abbrev pub copies : List Action → ℕ
copies [] = 0
copies (publish q p ∷ rest) = suc (copies rest)
copies (ack ∷ rest) = copies rest
copies (nack true ∷ rest) = suc (copies rest)
copies (nack false ∷ rest) = copies rest

-- Every publication of the list is this one, to this queue.
abbrev pub Publishes : String → Publishing → List Action → Type 0
Publishes q p [] = Unit
Publishes q p (publish r o ∷ rest) = (r ≡ q) × (o ≡ p) × Publishes q p rest
Publishes q p (ack ∷ rest) = Publishes q p rest
Publishes q p (nack again ∷ rest) = Publishes q p rest

-- Where a message that is not acknowledged goes.
abbrev pub destination : Trigger → MessageResult → String
destination trigger result = if result.dlq then trigger.dlq else trigger.queue

-- How a delivery is settled.
abbrev pub Settled : Trigger → Delivery → Message → MessageResult → List Action → Type 0
Settled trigger d msg result actions =
    (settlements actions ≡ 1)
    × (result.ack ≡ true → actions ≡ ack ∷ [])
    × (result.ack ≡ false → 1 ≤ copies actions)
    × (copies actions ≤ 2)
    × Publishes (destination trigger result)
        (publishing_for_delivery d msg.id (wrap64 (msg.attempts +ℤ pos 1)) result.reason) actions

settle_published-Settled :
    (a : PublishAnswers) (q : String) (p : Publishing)
    → let actions = settle_published (publish_with_confirm a q p) in
      (settlements actions ≡ 1)
      × (1 ≤ copies actions)
      × (copies actions ≤ 2)
      × Publishes q p actions
unfolding settle_published publish_with_confirm
settle_published-Settled a q p = ground arith

-- For every answer of the broker's client, a delivery is settled exactly once. If the handler
-- acknowledged, that is all that happens; otherwise the broker still holds the message, once or
-- (after a publication that was not confirmed in time) twice, so that it is not lost. Whatever is
-- published is the message with its attempts increased by one, in the dead letter queue if the
-- result says so and in the trigger's own queue if not.
pub settle_delivery-Settled :
    (a : PublishAnswers) (interrupted : Bool) (trigger : Trigger) (d : Delivery) (msg : Message)
    (result : MessageResult)
    → Settled trigger d msg result (settle_delivery a interrupted trigger d msg result)
unfolding settle_delivery
settle_delivery-Settled a interrupted trigger d msg result =
    let again = publishing_for_delivery d msg.id (wrap64 (msg.attempts +ℤ pos 1)) result.reason in
    ground (
      arith,
      settle_published-Settled a trigger.dlq again,
      settle_published-Settled a trigger.queue again,
    )

to_int32_id : (n : ℕ) → n < 2 ^ 31 → to_int32 (pos n) ≡ pos n
unfolding to_int32
to_int32_id n h = ground arith

-- The attempts written to a message are those read from it, below 2^31.
pub attempts_from_headers-publishing_for_delivery :
    (atoi : String → ℤ) (d : Delivery) (id : String) (n : ℕ) (reason : String)
    → n < 2 ^ 31
    → attempts_from_headers atoi (publishing_for_delivery d id (pos n) reason).headers ≡ pos n
unfolding attempts_from_headers publishing_for_delivery
attempts_from_headers-publishing_for_delivery atoi d id n reason h =
    let stamp = int32 (to_int32 (pos n)) in
    elim (Bool-cases (str_eq reason "")) [
      | inl e ↦
          rw
            (
              attempts_from_headers,
              publishing_for_delivery,
              e,
              lookup-insert attempts_header attempts_header stamp d.headers,
            )
            (to_int32_id n h)
      | inr e ↦
          rw
            (
              attempts_from_headers,
              publishing_for_delivery,
              e,
              lookup-insert "x-faas-reason" attempts_header (text reason)
                  (insert attempts_header stamp d.headers),
              lookup-insert attempts_header attempts_header stamp d.headers,
            )
            (to_int32_id n h)
    ]

-- The wait in `Subscribe` after a failure, in seconds, and the next one.
unfoldable pub next_backoff : ℕ → ℕ
next_backoff backoff = if ltb backoff 30 then backoff * 2 else backoff

-- The wait after the failure number `n`, from 0.
unfoldable pub backoff_at : ℕ → ℕ
unfolding next_backoff
backoff_at zero = 2
backoff_at (suc n) = next_backoff (backoff_at n)

backoff_at_late : (n : ℕ) → backoff_at (suc (suc (suc (suc n)))) ≡ 32
unfolding backoff_at
backoff_at_late zero = refl
backoff_at_late (suc n) = rw (backoff_at_late n) refl

-- Subscribe waits 2, 4, 8, 16 seconds after its first four failures, and 32 seconds after every
-- later one.
pub backoff_at_lem : (n : ℕ) → backoff_at n ≡ (if ltb n 4 then 2 ^ (n + 1) else 32)
unfolding backoff_at
backoff_at_lem zero = refl
backoff_at_lem (suc zero) = refl
backoff_at_lem (suc (suc zero)) = refl
backoff_at_lem (suc (suc (suc zero))) = refl
backoff_at_lem (suc (suc (suc (suc n)))) = ground (arith, backoff_at_late n)

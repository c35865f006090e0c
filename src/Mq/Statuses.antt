-- ===== src/Mq/Statuses.antt =====
-- The statuses that mqsvc releases a lease with, and those that the gateway takes.
use serverless.Base.{◌≡◌, refl, true, ◌||◌, All, inl, inr, Sum-cases, Option-cases, Bool-cases}
use serverless.Scheduler.Lease.{is_valid_lease_status}
use serverless.Mq.Types.{Trigger, Message}
use serverless.Mq.Worker.{
  Failure, Surroundings, expect_ok, invoke_runtime, failure_status, releases_of, handle_message,
  handle_message-HandledRight,
}

failure_status_valid :
    (w : Surroundings) (e : Failure) → is_valid_lease_status (failure_status w e) ≡ true
unfolding failure_status is_valid_lease_status
failure_status_valid w e = elim (Bool-cases (e.is_deadline || w.context_deadline)) [
  | inl h ↦ rw (failure_status, h) refl
  | inr h ↦ elim (Bool-cases (e.is_canceled || w.context_canceled)) [
    | inl k ↦ rw (failure_status, h, k) refl
    | inr k ↦ rw (failure_status, h, k) refl
  ]
]

releases_of_valid :
    (w : Surroundings) → All (λ status. is_valid_lease_status status ≡ true) (releases_of w)
unfolding is_valid_lease_status
releases_of_valid w =
    elim (Sum-cases (expect_ok "gateway acquire returned another status" w.acquire)) [
      | inl (e, a) ↦ rw (releases_of, a) tt
      | inr (lease, a) ↦ elim (Option-cases (invoke_runtime w.marshal_error w.runtime)) [
        | inr (e, i) ↦ rw (releases_of, a, i) (failure_status_valid w e, tt)
        | inl i ↦ rw (releases_of, a, i) (refl, tt)
      ]
    ]

-- Every status that HandleMessage releases a lease with is one that the gateway's ReleaseInstance
-- accepts, so that no release of it fails for its status.
pub handle_message_valid :
    (w : Surroundings) (trigger : Trigger) (msg : Message)
    → All (λ status. is_valid_lease_status status ≡ true) (handle_message w trigger msg).releases
handle_message_valid w trigger msg =
    let (calls, released, ack, dead) = handle_message-HandledRight w trigger msg in
    rw released (releases_of_valid w)

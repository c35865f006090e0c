-- ===== src/Runtime/Polling.antt =====
-- What a poll of `handleNext` takes off the queue.
use serverless.Base.{
  ℕ, suc, ◌+◌, ◌≡◌, refl, inl, inr, true, false, List, [], ◌∷◌, ◌++◌, Option, none, some, erase,
  arith, ltb, Bool-cases, length,
}
use serverless.Runtime.Types.{Invocation, Runtime}
use serverless.Runtime.Queue.{next_from, handle_next}

-- The invocations that the loop passes over, from the reading number `i` on.
abbrev pub Expired : (ℕ → ℕ) → ℕ → List Invocation → Type 0
Expired now i [] = Unit
Expired now i (inv ∷ rest) = (ltb inv.deadline (now i) ≡ true) × Expired now (suc i) rest

-- What a poll gives for a queue: the first invocation that is not past its deadline, leaving those
-- behind it in their order; or nothing, if all are past theirs.
abbrev pub Polled : (ℕ → ℕ) → ℕ → List Invocation → Option Invocation → Runtime → Type 0
Polled now i queue none t = Expired now i queue × (t.queue ≡ [])
Polled now i queue (some inv) t =
    (gone : List Invocation) × (queue ≡ gone ++ (inv ∷ t.queue))
    × Expired now i gone
    × (ltb inv.deadline (now (i + length gone)) ≡ false)

Polled-later :
    (now : ℕ → ℕ) (i : ℕ) (inv : Invocation) (queue : List Invocation) (o : Option Invocation)
    (t : Runtime)
    → ltb inv.deadline (now i) ≡ true
    → Polled now (suc i) queue o t
    → Polled now i (inv ∷ queue) o t
Polled-later now i inv queue none t e (all_gone, empty) = ((e, all_gone), empty)
Polled-later now i inv queue (some found) t e (gone, split, passed, live) = (
  inv ∷ gone,
  rw split refl,
  (e, passed),
  let turn : i + length (inv ∷ gone) ≡ suc i + length gone = omega arith in rw turn live,
)

next_from-Polled :
    (now : ℕ → ℕ) (i : ℕ) (queue : List Invocation) (s : Runtime)
    → let (o, t) = next_from now i queue s in Polled now i queue o t
unfolding next_from
next_from-Polled now i [] s = (tt, refl)
next_from-Polled now i (inv ∷ queue) s = elim (Bool-cases (ltb inv.deadline (now i))) [
  | inl e ↦
      rw (next_from, e)
        (Polled-later now i inv queue _ _ e (
          next_from-Polled now (suc i) queue
            (record s { queue = queue; inflight = erase inv.id s.inflight })))
  | inr e ↦ rw (next_from, e) ([], refl, tt, let turn : i + 0 ≡ i = omega arith in rw turn e)
]

-- A poll gives the oldest queued invocation whose deadline has not passed at its turn; it takes off
-- the queue that one and the ones before it, all past their deadline, and keeps the others in their
-- order. It gives none only if every queued invocation was past its deadline, and then the queue is
-- empty.
pub handle_next-Polled :
    (now : ℕ → ℕ) (s : Runtime) → let (o, t) = handle_next now s in Polled now 0 s.queue o t
unfolding handle_next
handle_next-Polled now s = next_from-Polled now 0 s.queue s

-- ===== src/Agent/Health.antt =====
-- runtime/cmd/agent/main.go: `handleHealth`. The answers to its tries are arguments.
use serverless.Base.{
  ℕ, zero, suc, ◌+◌, ◌≤◌, ◌<◌, ◌≡◌, refl, sym, subst, ◌⊎◌, inl, inr, [], arith, ◌==◌, Bool-cases,
  ==_iff,
}
use serverless.Agent.Proxy.{
  Response, Answer, not_built, failed, answered, Reply, http_error, relayed,
}

-- What a try number i comes to, `later` being what the tries after it come to: the reply, and the
-- number of requests made.
unfoldable pub decide : Answer → ℕ → Reply × ℕ → Reply × ℕ
decide not_built i later = (http_error "failed to build health request" 500, i)
decide failed i later = later
decide (answered response) i later =
    (relayed (record { status = response.status; headers = []; body = response.body }), i + 1)

-- The loop, with `left` tries to go.
unfoldable pub health_tries : (ℕ → Answer) → ℕ → ℕ → Reply × ℕ
unfolding decide
health_tries tries i zero = (http_error "runtime unavailable" 503, i)
health_tries tries i (suc left) = decide (tries i) i (health_tries tries (i + 1) left)

unfoldable pub handle_health : (ℕ → Answer) → Reply × ℕ
unfolding health_tries
handle_health tries = health_tries tries 0 3

-- The tries from i on, before k, fail.
abbrev pub Fails : (ℕ → Answer) → ℕ → ℕ → Type 0
Fails tries i k = (j : ℕ) → i ≤ j → j < k → tries j ≡ failed

-- What the tries from i to n come to: they all fail, or the first that does not decides.
abbrev pub Tried : (ℕ → Answer) → ℕ → ℕ → Reply × ℕ → Type 0
Tried tries i n (reply, requests) =
    (Fails tries i n × (requests ≡ n) × (reply ≡ http_error "runtime unavailable" 503))
    ⊎ ((k : ℕ) × (i ≤ k)
        × (k < n)
        × Fails tries i k
        × (((tries k ≡ not_built)
              × (requests ≡ k)
              × (reply ≡ http_error "failed to build health request" 500))
            ⊎ ((response : Response) × (tries k ≡ answered response)
                × (requests ≡ k + 1)
                × (reply
                    ≡ relayed (record {
                      status = response.status;
                      headers = [];
                      body = response.body;
                    })))))

Fails-none : (tries : ℕ → Answer) (i : ℕ) → Fails tries i i
Fails-none tries i j h k = absurd (omega (arith, h, k))

Fails-one :
    (tries : ℕ → Answer) (i k : ℕ) → tries i ≡ failed → Fails tries (i + 1) k → Fails tries i k
Fails-one tries i k e f j h l = elim (Bool-cases (j == i)) [
  | inl same ↦ subst (λ x. tries x ≡ failed) (sym ((==_iff j i).0 same)) e
  | inr other ↦ f j (ground (arith, h, other)) l
]

decide-Tried :
    (tries : ℕ → Answer) (i n : ℕ) (a : Answer) (later : Reply × ℕ)
    → i < n
    → tries i ≡ a
    → Tried tries (i + 1) n later
    → Tried tries i n (decide a i later)
unfolding decide
decide-Tried tries i n not_built later l e h =
    inr (i, omega arith, l, Fails-none tries i, inl (e, refl, refl))
decide-Tried tries i n (answered response) later l e h =
    inr (i, omega arith, l, Fails-none tries i, inr (response, e, refl, refl))
decide-Tried tries i n failed later l e (inl (f, r, p)) = inl (Fails-one tries i n e f, r, p)
decide-Tried tries i n failed later l e (inr (k, b, c, f, o)) =
    inr (k, omega (arith, b), c, Fails-one tries i k e f, o)

health_tries-Tried :
    (tries : ℕ → Answer) (i left n : ℕ) → n ≡ i + left → Tried tries i n (health_tries tries i left)
unfolding health_tries
health_tries-Tried tries i zero n h =
    inl (λ j a b. absurd (omega (arith, h, a, b)), omega (arith, h), refl)
health_tries-Tried tries i (suc left) n h =
    decide-Tried tries i n (tries i) (health_tries tries (i + 1) left) (omega (arith, h)) refl
      (health_tries-Tried tries (i + 1) left n (omega (arith, h)))

-- `handleHealth` ends after at most three tries: the first whose request is not built or to which
-- the runtime answers decides, with status 500 or the status and the body of the answer; with none
-- it replies with status 503 after three failed requests.
pub handle_health-Tried : (tries : ℕ → Answer) → Tried tries 0 3 (handle_health tries)
unfolding handle_health
handle_health-Tried tries = health_tries-Tried tries 0 3 3 refl

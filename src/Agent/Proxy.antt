-- ===== src/Agent/Proxy.antt =====
-- runtime/cmd/agent/main.go: the HTTP handlers. The answers of the runtime are arguments: a body is
-- a list of bytes, and headers are a function from names to values.
use serverless.Base.{
  ℕ, ◌≡◌, refl, sym, subst, ◌≢◌, ◌⊎◌, inl, inr, String, false, not, List, [], ◌∷◌, Option, none,
  some, Dict, ltb, str_eq, eq_iff, if◌then◌else◌, arith, Bool-cases, Option-cases,
}
use Prim.Native.String.{◌++◌ as join}
use serverless.Agent.Metrics.{Agent, record_latency}

-- A request: `body` is what reading it gives within the limit, if that works.
pub record Request : Type 0 where
  pub method : String
  pub body : Option (List ℕ)
  pub headers : String → String

-- The request to the runtime.
pub record Upstream : Type 0 where
  pub method : String
  pub url : String
  pub headers : Dict String
  pub body : List ℕ

pub record Response : Type 0 where
  pub status : ℕ
  pub headers : Dict String
  pub body : List ℕ

-- What comes of a request to the runtime.
pub data Answer : Type 0 where
  not_built : Answer
  failed : Answer
  answered : Response → Answer

-- `http.Error`, and a relayed response.
pub data Reply : Type 0 where
  http_error : String → ℕ → Reply
  relayed : Response → Reply

unfoldable pub forwarded : (String → String) → Dict String
forwarded headers =
    ("Content-Type", headers "Content-Type")
    ∷ ("X-Function-Name", headers "X-Function-Name")
    ∷ ("X-Function-Timeout", headers "X-Function-Timeout")
    ∷ ("X-Event-Type", headers "X-Event-Type")
    ∷ ("X-Trigger-ID", headers "X-Trigger-ID")
    ∷ ("X-Message-ID", headers "X-Message-ID")
    ∷ []

unfoldable pub sent : Request → String → List ℕ → Upstream
unfolding forwarded
sent r path body = record {
  method = "POST";
  url = join "http://localhost:9000" path;
  headers = forwarded r.headers;
  body = body;
}

-- `client` is the runtime behind the HTTP client, and `latency` the time that its answer takes.
module _ {F : Type 0} (client : Upstream → Answer) (latency : F) where
  unfoldable pub relay : Answer → Agent F → Reply × Agent F
  relay not_built a = (http_error "failed to build upstream request" 500, a)
  relay failed a = (http_error "upstream unavailable" 502, record_latency latency false a)
  relay (answered response) a =
      (relayed response, record_latency latency (ltb response.status 500) a)

  unfoldable pub proxy_invocation : Request → String → Agent F → Reply × Agent F
  unfolding sent relay
  proxy_invocation r path a =
      if not (str_eq r.method "POST")
      then (http_error "method not allowed" 405, a)
      else elim r.body [
        | none ↦ (http_error "failed to read body" 400, a)
        | some body ↦ relay (client (sent r path body)) a
      ]

  -- Either the request does not reach the runtime, with an error and nothing recorded, or it is
  -- recorded once: as a success exactly if the runtime answered with a status below 500.
  abbrev pub Proxied : Request → String → Agent F → Reply × Agent F → Type 0
  Proxied r path a (reply, a') =
      ((a' ≡ a)
        × (((r.method ≢ "POST") × (reply ≡ http_error "method not allowed" 405))
            ⊎ ((r.body ≡ none) × (reply ≡ http_error "failed to read body" 400))
            ⊎ (reply ≡ http_error "failed to build upstream request" 500)))
      ⊎ ((r.method ≡ "POST")
          × ((body : List ℕ) × (r.body ≡ some body)
              × (let answer = client (sent r path body) in
                  ((answer ≡ failed)
                    × (reply ≡ http_error "upstream unavailable" 502)
                    × (a' ≡ record_latency latency false a))
                  ⊎ ((response : Response) × (answer ≡ answered response)
                      × (reply ≡ relayed response)
                      × (a' ≡ record_latency latency (ltb response.status 500) a)))))

  relay-Proxied :
      (r : Request) (path : String) (a : Agent F) (body : List ℕ) (answer : Answer)
      → r.method ≡ "POST"
      → r.body ≡ some body
      → client (sent r path body) ≡ answer
      → Proxied r path a (relay answer a)
  unfolding relay
  relay-Proxied r path a body not_built m b e = inl (refl, inr (inr refl))
  relay-Proxied r path a body failed m b e = inr (m, (body, b, inl (e, refl, refl)))
  relay-Proxied r path a body (answered response) m b e =
      inr (m, (body, b, inr (response, e, refl, refl)))

  -- Either an invocation does not reach the runtime, because it is no POST, its body cannot be read
  -- or the request cannot be built, and then it gets status 405, 400 or 500 and nothing is recorded;
  -- or the body is sent on with the six forwarded headers and is recorded once: as an error, with
  -- status 502, if the runtime does not answer, and otherwise as a success exactly if the status of
  -- the answer, which is relayed, is below 500.
  pub proxy_invocation-Proxied :
      (r : Request) (path : String) (a : Agent F) → Proxied r path a (proxy_invocation r path a)
  unfolding proxy_invocation
  proxy_invocation-Proxied r path a = elim (Bool-cases (str_eq r.method "POST")) [
    | inl m ↦ elim (Option-cases r.body) [
      | inl b ↦
          let step : proxy_invocation r path a ≡ (http_error "failed to read body" 400, a) =
            rw (proxy_invocation, m, b) refl in
          subst (Proxied r path a) (sym step) (inl (refl, inr (inl (b, refl))))
      | inr (body, b) ↦
          let step : proxy_invocation r path a ≡ relay (client (sent r path body)) a =
            rw (proxy_invocation, m, b) refl in
          subst (Proxied r path a) (sym step)
            (relay-Proxied r path a body _ ((eq_iff r.method "POST").0 m) b refl)
    ]
    | inr m ↦
        let step : proxy_invocation r path a ≡ (http_error "method not allowed" 405, a) =
          rw (proxy_invocation, m) refl in
        subst (Proxied r path a) (sym step)
          (inl (refl, inl (ground (arith, m, eq_iff r.method "POST"), refl)))
  ]

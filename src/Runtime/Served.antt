-- ===== src/Runtime/Served.antt =====
-- The process of a Go function against the runtime: an invocation gets what its binary came to.
use Prim.Native.String.{◌++◌ as join}
use Prim.Native.String.append
use serverless.Base.{
  All, codes, Bool, Bool-cases, ltb, length, pos_part, ◌≤◌, ◌<◌, ◌⊎◌, arith, ℕ, ℤ, ◌≡◌, ◌≢◌, refl,
  sym, ap, subst, String, true, false, List, [], ◌∷◌, Option, none, some, lookup, erase,
  if◌then◌else◌, str_eq-ne, ◌==◌, ==_iff, inl, inr,
}
use serverless.Runtime.Types.{InvokeResult, Invocation, Runtime}
use serverless.Runtime.Queue.{
  handle_next, handle_response, deliver, slash, split_path, read_body, status,
}
use serverless.Runtime.Bootstrap.{
  Run, exits, fails, overruns, next_invocation, run_function_binary, post_of, bootstrap_turn,
  answer_of, post_all, serve, result_of,
}

-- The channel c holds the result, the invocation is no longer in flight, and nothing else changes.
abbrev pub Answered : String → ℕ → InvokeResult → Runtime → Runtime → Type 0
Answered id c result s t =
    (t.channels c ≡ some result)
    × ((d : ℕ) → (d == c) ≡ false → t.channels d ≡ s.channels d)
    × ((k : String) → lookup k t.inflight ≡ lookup k (erase id s.inflight))
    × (t.queue ≡ s.queue)

deliver-Answered :
    (id : String) (result : InvokeResult) (c : ℕ) (s : Runtime)
    → lookup id s.inflight ≡ some c
    → s.channels c ≡ none
    → Answered id c result s (deliver id result s).1
unfolding deliver
deliver-Answered id result c s l e =
    let t : Runtime = record s {
      inflight = erase id s.inflight;
      channels = λ d. if d == c then some result else s.channels d;
    } in
    let step : (deliver id result s).1 ≡ t = rw (deliver, l, e) refl in
    subst (Answered id c result s) (sym step)
      (simp ((==_iff c c).1 refl) refl, λ d h. simp h refl, λ k. refl, refl)

-- What comes of a post: the request has its result, or the runtime refuses a body above its limit,
-- and nothing has changed.
abbrev pub Posted : ℤ → String → ℕ → InvokeResult → Runtime → Runtime → Type 0
Posted max_bytes id c result s t =
    ((length result.body ≤ pos_part max_bytes) × Answered id c result s t)
    ⊎ ((pos_part max_bytes < length result.body) × (t ≡ s))

-- No slash in a text.
abbrev pub IsSegment : String → Type 0
IsSegment id = All (λ c. (c == slash) ≡ false) (codes id)

split_path_lem :
    (id action : String) → IsSegment id → split_path (join id (join "/" action)) ≡ id ∷ action ∷ []
unfolding split_path
split_path_lem String.[] action h =
    rw (append.nil (join "/" action), append.cons "/" String.[] action, append.nil action) refl
split_path_lem (String.◌∷◌ c rest) action (h, hs) =
    rw (append.cons c rest (join "/" action), h, split_path_lem rest action hs) refl

-- The action that a post names for an output or an error, and the status that it stands for.
abbrev action_of : Bool → String
action_of true = "response"
action_of false = "error"

abbrev status_of_action : Bool → ℕ
status_of_action true = 200
status_of_action false = 500

module _ (max_bytes : ℤ) (is_json : List ℕ → Bool) where
  read_body-cases :
      (body : List ℕ)
      → is_json body ≡ true
      → ((length body ≤ pos_part max_bytes) × (read_body max_bytes is_json body ≡ some body))
        ⊎ ((pos_part max_bytes < length body) × (read_body max_bytes is_json body ≡ none))
  unfolding read_body
  read_body-cases body v = elim (Bool-cases (ltb (pos_part max_bytes) (length body))) [
    | inl e ↦ inr (ground (arith, e), rw (read_body, e) refl)
    | inr e ↦ inl (ground (arith, e), rw (read_body, e, v) refl)
  ]

  handle_response_lem :
      (good : Bool) (id : String) (body : List ℕ) (s : Runtime) (read : Option (List ℕ))
      → IsSegment id
      → read_body max_bytes is_json body ≡ read
      → handle_response max_bytes is_json true (join id (join "/" (action_of good))) body s
        ≡ (elim read [
          | none ↦ (status 400, s)
          | some b ↦ deliver id (record { status_code = status_of_action good; body = b }) s
        ])
  unfolding handle_response
  handle_response_lem true id body s read h r =
      rw (handle_response, split_path_lem id "response" h, r) refl
  handle_response_lem false id body s read h r =
      rw (handle_response, split_path_lem id "error" h, r) refl

  post_all-Posted :
      (good : Bool) (id : String) (body : List ℕ) (c : ℕ) (s : Runtime)
      → IsSegment id
      → is_json body ≡ true
      → lookup id s.inflight ≡ some c
      → s.channels c ≡ none
      → Posted max_bytes id c
          (record { status_code = status_of_action good; body = body })
          s
          (post_all max_bytes is_json ((id, action_of good, body) ∷ []) s)
  unfolding post_all
  post_all-Posted good id body c s h v l e =
      let result : InvokeResult = record { status_code = status_of_action good; body = body } in
      elim (read_body-cases body v) [
        | inl (fits, r) ↦ inl (
          fits,
          subst (λ x. Answered id c result s x.1)
              (sym (handle_response_lem good id body s (some body) h r))
              (deliver-Answered id result c s l e),
        )
        | inr (above, r) ↦ inr (above, ap (λ x. x.1) (handle_response_lem good id body s none h r))
      ]

module _ (max_bytes : ℤ) (is_json : List ℕ → Bool) (parse_int : String → Option ℤ)
    (marshal : String → List ℕ) (millis : ℕ → String) where
  -- What a run of the binary is posted as: whether it is a response, and the body.
  abbrev post_for : Run → Bool × List ℕ
  post_for (exits out) =
      if is_json out then (true, out) else (false, marshal "function output is not valid JSON")
  post_for (fails message) = (false, marshal message)
  post_for overruns = (false, marshal "function timed out")

  abbrev to_post : String → Bool × List ℕ → String × String × List ℕ
  to_post id (good, body) = (id, action_of good, body)

  abbrev to_result : Bool × List ℕ → InvokeResult
  to_result (good, body) = record { status_code = status_of_action good; body = body }

  run_function_binary_lem :
      (run : Run) (id deadline_ms : String) (deadline : ℤ)
      → deadline_ms ≢ ""
      → parse_int deadline_ms ≡ some deadline
      → (elim (run_function_binary is_json parse_int run deadline_ms) [
        | inl message ↦ (id, "error", marshal message)
        | inr out ↦ (id, "response", out)
      ])
        ≡ to_post id (post_for run)
  unfolding run_function_binary
  run_function_binary_lem (exits out) id deadline_ms deadline m p =
      elim (Bool-cases (is_json out)) [
        | inl v ↦ rw (str_eq-ne deadline_ms "" m, p, v) refl
        | inr v ↦ rw (str_eq-ne deadline_ms "" m, p, v) refl
      ]
  run_function_binary_lem (fails message) id deadline_ms deadline m p =
      rw (str_eq-ne deadline_ms "" m, p) refl
  run_function_binary_lem overruns id deadline_ms deadline m p =
      rw (str_eq-ne deadline_ms "" m, p) refl

  bootstrap_turn_lem :
      (binary : List ℕ → Run) (inv : Invocation) (deadline : ℤ)
      → inv.id ≢ ""
      → millis inv.deadline ≢ ""
      → parse_int (millis inv.deadline) ≡ some deadline
      → bootstrap_turn is_json parse_int marshal binary (some (answer_of millis (some inv)))
        ≡ to_post inv.id (post_for (binary inv.payload)) ∷ []
  unfolding bootstrap_turn next_invocation post_of
  bootstrap_turn_lem binary inv deadline i m p =
      rw (bootstrap_turn, str_eq-ne inv.id "" i)
        (ap (λ x. x ∷ [])
          (run_function_binary_lem (binary inv.payload) inv.id (millis inv.deadline) deadline m p))

  post_for-json :
      (run : Run)
      → ((message : String) → is_json (marshal message) ≡ true)
      → is_json (post_for run).1 ≡ true
  post_for-json (exits out) j = elim (Bool-cases (is_json out)) [
    | inl v ↦ rw v v
    | inr v ↦ rw v (j "function output is not valid JSON")
  ]
  post_for-json (fails message) j = j message
  post_for-json overruns j = j "function timed out"

  post_for-result : (run : Run) → to_result (post_for run) ≡ result_of is_json marshal run
  post_for-result (exits out) = elim (Bool-cases (is_json out)) [
    | inl v ↦ rw v refl
    | inr v ↦ rw v refl
  ]
  post_for-result (fails message) = refl
  post_for-result overruns = refl

  -- If a poll of the Go process takes an invocation off the queue whose request still waits on an
  -- empty channel, then the process runs the binary and posts, with no other step in between, the
  -- output, if that is valid JSON, and otherwise an error. If the body that it posts is not longer
  -- than the runtime's limit, the channel then holds that body, with status 200 for the output and
  -- 500 for an error, the invocation is no longer in flight, and the other channels, the other
  -- invocations in flight and the queue are as the poll left them; if it is longer, everything is as
  -- the poll left it, so that the request goes on waiting. The id of the invocation is not empty and
  -- has no slash, its deadline is printed as a number, and what marshal gives is valid JSON.
  pub serve-Answered :
      (binary : List ℕ → Run) (now : ℕ → ℕ) (inv : Invocation) (deadline : ℤ) (s s' : Runtime)
      (c : ℕ)
      → handle_next now s ≡ (some inv, s')
      → inv.id ≢ ""
      → IsSegment inv.id
      → millis inv.deadline ≢ ""
      → parse_int (millis inv.deadline) ≡ some deadline
      → ((message : String) → is_json (marshal message) ≡ true)
      → lookup inv.id s'.inflight ≡ some c
      → s'.channels c ≡ none
      → Posted max_bytes inv.id c
          (result_of is_json marshal (binary inv.payload))
          s'
          (serve max_bytes is_json parse_int marshal millis binary now s)
  unfolding serve
  serve-Answered binary now inv deadline s s' c h i g m p j l e =
      let run = binary inv.payload in
      let posts = bootstrap_turn_lem binary inv deadline i m p in
      let step : serve max_bytes is_json parse_int marshal millis binary now s
          ≡ post_all max_bytes is_json (to_post inv.id (post_for run) ∷ []) s' =
        rw (serve, h, posts) refl in
      let posted =
        post_all-Posted max_bytes is_json (post_for run).0 inv.id (post_for run).1 c s' g
          (post_for-json run j) l e in
      subst (λ t. Posted max_bytes inv.id c (result_of is_json marshal run) s' t) (sym step)
        (subst
          (λ r.
            Posted max_bytes inv.id c r s'
              (post_all max_bytes is_json (to_post inv.id (post_for run) ∷ []) s'))
          (post_for-result run) posted)

-- ===== src/Agent/Window.antt =====
-- runtime/cmd/agent/main.go: what an agent holds after any invocations.
use serverless.Base.{
  ℕ, zero, suc, ◌+◌, ◌-◌, ◌%◌, ◌^◌, ◌≤◌, ◌≡◌, refl, ap, sym, ◌∙◌, Bool, true, false, List, [], ◌∷◌,
  ◌++◌, ltb, if◌then◌else◌, length, length-append, length-drop, drop, last, map, map-append, keep,
  not, arith, Bool-cases, inl, inr, append-nil, append_assoc,
}
use serverless.Agent.Metrics.{
  Agent, max_latency_window, plus_one, new_agent, cut_window, record_latency,
}

-- A counter that follows a number modulo 2^64 does so after a step.
counted :
    (b : Bool) (m c n : ℕ)
    → m ≡ c % 2 ^ 64
    → n ≡ c + (if b then 1 else 0)
    → (if b then plus_one m else m) ≡ n % 2 ^ 64
counted true m c n h k = omega (arith, h, k)
counted false m c n h k = omega (arith, h, k)

if_not : (b : Bool) (m : ℕ) → (if b then m else plus_one m) ≡ (if not b then plus_one m else m)
if_not true m = refl
if_not false m = refl

module _ {F : Type 0} where
  drop-append : (k : ℕ) (xs ys : List F) → k ≤ length xs → drop k (xs ++ ys) ≡ drop k xs ++ ys
  drop-append zero xs ys h = refl
  drop-append (suc k) [] ys h = absurd (omega (arith, h))
  drop-append (suc k) (x ∷ xs) ys h = drop-append k xs ys (omega (arith, h))

  drop-drop : (j k n : ℕ) (xs : List F) → n ≡ k + j → drop j (drop k xs) ≡ drop n xs
  drop-drop j zero n xs h = let same : n ≡ j = omega (arith, h) in rw same refl
  drop-drop j (suc k) zero xs h = absurd (omega (arith, h))
  drop-drop zero (suc k) (suc n) [] h = refl
  drop-drop (suc j) (suc k) (suc n) [] h = refl
  drop-drop j (suc k) (suc n) (x ∷ xs) h = drop-drop j k n xs (omega (arith, h))

  cut_window_lem : (xs : List F) → cut_window xs ≡ last max_latency_window xs
  unfolding cut_window
  cut_window_lem xs = elim (Bool-cases (ltb max_latency_window (length xs))) [
    | inl e ↦ rw e refl
    | inr e ↦
        let short : length xs - max_latency_window ≡ 0 = ground (arith, e) in rw (e, short) refl
  ]

  -- Cutting after each value keeps the last 1000 of all of them.
  cut_window-last :
      (xs : List F) (x : F)
      → cut_window (last max_latency_window xs ++ (x ∷ []))
        ≡ last max_latency_window (xs ++ (x ∷ []))
  cut_window-last xs x =
      let k = length xs - max_latency_window in
      let longer = length-append xs (x ∷ []) in
      let whole = drop-append k xs (x ∷ []) (omega arith) in
      let kept = length-drop k (xs ++ (x ∷ [])) in
      ap cut_window (sym whole)
      ∙ cut_window_lem (drop k (xs ++ (x ∷ [])))
      ∙ drop-drop (length (drop k (xs ++ (x ∷ []))) - max_latency_window) k
          (length (xs ++ (x ∷ [])) - max_latency_window) (xs ++ (x ∷ []))
          (omega (arith, longer, kept))

  -- The invocations of a history, in its order: each with its latency and whether it succeeded.
  unfoldable pub run : List (F × Bool) → Agent F → Agent F
  unfolding record_latency
  run [] a = a
  run ((latency, success) ∷ rest) a = run rest (record_latency latency success a)

  -- What an agent holds after the invocations.
  abbrev pub Recorded : List (F × Bool) → Agent F → Type 0
  Recorded history a =
      (a.latencies ≡ last max_latency_window (map (λ e. e.0) history))
      × (a.invocations ≡ length history % 2 ^ 64)
      × (a.successes ≡ length (keep (λ e. e.1) history) % 2 ^ 64)
      × (a.errors ≡ length (keep (λ e. not e.1) history) % 2 ^ 64)

  length-keep-append :
      (p : F × Bool → Bool) (xs : List (F × Bool)) (x : F × Bool)
      → length (keep p (xs ++ (x ∷ []))) ≡ length (keep p xs) + (if p x then 1 else 0)
  length-keep-append p [] x = ground arith
  length-keep-append p (y ∷ xs) x = ground (arith, length-keep-append p xs x)

  record_latency-Recorded :
      (latency : F) (success : Bool) (history : List (F × Bool)) (a : Agent F)
      → Recorded history a
      → Recorded (history ++ ((latency, success) ∷ [])) (record_latency latency success a)
  unfolding record_latency
  record_latency-Recorded latency success history a (l, i, s, e) =
      let one : F × Bool = (latency, success) in
      (
        rw (l, map-append (λ x. x.0) history (one ∷ []))
            (cut_window-last (map (λ x. x.0) history) latency),
        omega (arith, length-append history (one ∷ []), i),
        counted success a.successes _ _ s (length-keep-append (λ x. x.1) history one),
        if_not success a.errors
            ∙ counted (not success) a.errors _ _ e (length-keep-append (λ x. not x.1) history one),
      )

  run-Recorded_from :
      (rest history : List (F × Bool)) (a : Agent F)
      → Recorded history a
      → Recorded (history ++ rest) (run rest a)
  unfolding run
  run-Recorded_from [] history a h = rw (append-nil history) h
  run-Recorded_from ((latency, success) ∷ rest) history a h =
      rw (← append_assoc history ((latency, success) ∷ []) rest) (
        run-Recorded_from rest (history ++ ((latency, success) ∷ []))
          (record_latency latency success a) (record_latency-Recorded latency success history a h))

  -- After any invocations, a new agent holds the latencies of the last 1000 of them, or of all if
  -- there are fewer, in their order, and its counters are the numbers of the invocations, of the
  -- successes and of the failures, modulo 2^64.
  pub run-Recorded : (history : List (F × Bool)) → Recorded history (run history new_agent)
  run-Recorded history = run-Recorded_from history [] new_agent (refl, refl, refl, refl)

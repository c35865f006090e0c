-- ===== src/Scaler/Bounds.antt =====
-- The bounds that the scaler keeps.
use serverless.Base.{
  ℕ, zero, suc, ◌+◌, ◌*◌, ◌/◌, ◌≤◌, ◌<◌, ◌^◌, ◌≡◌, refl, ℤ, pos, negsuc, ◌+ℤ◌, ◌≤ℤ◌, ◌<ℤ◌, wrap64,
  ltb_ℤ, pos_part, String, true, false, arith, if◌then◌else◌, lookup, lookup-insert, some, str_eq,
  str_eq_refl, subst, ◌⊎◌, Bool-cases, inl, inr,
}
use native.Mathlib.Nat.{div-add-mod, mod-lt, mul_comm, mul-le-mul_right}
use serverless.Scaler.Types.{
  Floats, Policy, Action, scale_up, scale_down, stay, ScaleDecision, Scaler,
}
use serverless.Scaler.Policy.{
  ceil_div, utilisation, is_hot, target_of, adjust, clamp_replicas, desired_replicas, choose_action,
  requests_of, evaluate,
}

wrap64_small : (n : ℕ) → n < 2 ^ 63 → wrap64 (pos n) ≡ pos n
unfolding wrap64
wrap64_small n h = ground arith

pos_sum : (n d : ℕ) → pos n +ℤ pos d ≡ pos (n + d)
unfolding ◌+ℤ◌
pos_sum n d = ground arith

pos_pred : (n d : ℕ) → pos (suc n + d) +ℤ negsuc 0 ≡ pos (n + d)
unfolding ◌+ℤ◌
pos_pred n d = ground arith

ceil_div_pos : (n d : ℕ) → suc n + d < 2 ^ 63 → ceil_div (pos (suc n)) (pos d) ≡ pos ((n + d) / d)
unfolding ceil_div
ceil_div_pos n d h =
    rw
      (
        ceil_div,
        pos_sum (suc n) d,
        wrap64_small (suc n + d) h,
        pos_pred n d,
        wrap64_small (n + d) (omega arith),
      )
      (ground arith)

quotient_covers : (n d : ℕ) → 0 < d → n < (n + d) / d * d
quotient_covers n d h =
    omega (arith, div-add-mod (n + d) d, mod-lt (n + d) h, mul_comm d ((n + d) / d))

-- The number of replicas of `target` places each that the demand needs, rounded up: `n` places fit
-- into that many replicas.
ceil_div_covers :
    (n d : ℕ) → 0 < d → n + d < 2 ^ 63 → (q : ℕ) × (ceil_div (pos n) (pos d) ≡ pos q) × (n ≤ q * d)
unfolding ceil_div
ceil_div_covers zero d h b = (0, refl, omega arith)
ceil_div_covers (suc n) d h b = ((n + d) / d, ceil_div_pos n d b, quotient_covers n d h)

module _ (F : Floats) (s : Scaler F) where
  -- The clamp keeps to the maximum, and to the minimum where that is not above it; what lies between
  -- stays, and what is raised to the minimum is not lowered below the value.
  clamp_replicas_range :
      (x : ℤ)
      → (clamp_replicas F s x ≤ℤ s.max_replicas)
        × (s.min_replicas ≤ℤ s.max_replicas → s.min_replicas ≤ℤ clamp_replicas F s x)
        × (clamp_replicas F s x <ℤ s.max_replicas → x ≤ℤ clamp_replicas F s x)
  unfolding clamp_replicas
  clamp_replicas_range x = ground arith

  -- The adjustments never lower the number.
  adjust_raises :
      (pol : Policy F) (total : ℕ) (busy queued : ℤ) (p99 err_pct : F.Float) (x : ℤ)
      → total + 1 < 2 ^ 63
      → x ≤ℤ adjust F pol (pos total) busy queued p99 err_pct x
  unfolding adjust
  adjust_raises pol total busy queued p99 err_pct x b =
      ground (arith, pos_sum total 1, wrap64_small (total + 1) b)

  -- Whatever the metrics are, the desired number of replicas is at most the maximum, and at least
  -- the minimum if the minimum is not above the maximum.
  pub desired_replicas_range :
      (total busy queued : ℤ) (p99 err_pct : F.Float)
      → let desired = desired_replicas F s total busy queued p99 err_pct in
        (desired ≤ℤ s.max_replicas) × (s.min_replicas ≤ℤ s.max_replicas → s.min_replicas ≤ℤ desired)
  unfolding desired_replicas
  desired_replicas_range total busy queued p99 err_pct =
      let range = clamp_replicas_range (
        let x = ceil_div (wrap64 (busy +ℤ queued)) (target_of F s.pol) in
        if ltb_ℤ (pos 0) total then adjust F s.pol total busy queued p99 err_pct x else x) in
      (range.0, range.1)

  raised_below :
      (x : ℤ) (total : ℕ) (busy queued : ℤ) (p99 err_pct : F.Float)
      → total + 1 < 2 ^ 63
      → let y =
          if ltb_ℤ (pos 0) (pos total)
          then adjust F s.pol (pos total) busy queued p99 err_pct x
          else x in
        clamp_replicas F s y <ℤ s.max_replicas → x ≤ℤ clamp_replicas F s y
  raised_below x total busy queued p99 err_pct b below =
      let raises = adjust_raises s.pol total busy queued p99 err_pct x b in
      elim (Bool-cases (ltb_ℤ (pos 0) (pos total))) [
        | inl e ↦ rw e (
            let y = adjust F s.pol (pos total) busy queued p99 err_pct x in
            omega (arith, raises, (clamp_replicas_range y).2 (rw e at below)))
        | inr e ↦ rw e ((clamp_replicas_range x).2 (rw e at below))
      ]

  desired_replicas_raises :
      (total : ℕ) (busy queued : ℤ) (p99 err_pct : F.Float)
      → total + 1 < 2 ^ 63
      → let desired = desired_replicas F s (pos total) busy queued p99 err_pct in
        desired <ℤ s.max_replicas
        → ceil_div (wrap64 (busy +ℤ queued)) (target_of F s.pol) ≤ℤ desired
  unfolding desired_replicas
  desired_replicas_raises total busy queued p99 err_pct b below =
      raised_below (ceil_div (wrap64 (busy +ℤ queued)) (target_of F s.pol)) total busy queued p99
        err_pct b below

  -- Unless the maximum stops it, the scaler wants enough replicas for every request that is running
  -- or queued, at the target concurrency (which counts as 1 where it is not positive): for numbers
  -- whose sums fit into an int.
  pub desired_replicas_covers :
      (total busy queued d : ℕ) (p99 err_pct : F.Float)
      → target_of F s.pol ≡ pos d
      → 0 < d
      → busy + queued + d < 2 ^ 63
      → total + 1 < 2 ^ 63
      → let desired = desired_replicas F s (pos total) (pos busy) (pos queued) p99 err_pct in
        desired <ℤ s.max_replicas → busy + queued ≤ pos_part desired * d
  desired_replicas_covers total busy queued d p99 err_pct t h b b' below =
      let desired = desired_replicas F s (pos total) (pos busy) (pos queued) p99 err_pct in
      let (q, exact, fits) = ceil_div_covers (busy + queued) d h b in
      let sum : wrap64 (pos busy +ℤ pos queued) ≡ pos (busy + queued) =
        rw (pos_sum busy queued) (wrap64_small (busy + queued) (omega arith)) in
      let rounded : ceil_div (wrap64 (pos busy +ℤ pos queued)) (target_of F s.pol) ≡ pos q =
        rw (sum, t) exact in
      let enough : pos q ≤ℤ desired =
        subst (λ z. z ≤ℤ desired) rounded
          (desired_replicas_raises total (pos busy) (pos queued) p99 err_pct b' below) in
      let least : q ≤ pos_part desired = omega (arith, enough) in
      omega (arith, fits, mul-le-mul_right d least)

  -- A function with running instances, fewer than the maximum, of which the utilisation, the p99
  -- latency or the error rate passes its limit, wants more replicas than it has.
  pub desired_replicas_hot :
      (total : ℕ) (busy queued : ℤ) (p99 err_pct : F.Float)
      → 0 < total
      → total + 1 < 2 ^ 63
      → pos total <ℤ s.max_replicas
      → is_hot F s.pol (utilisation F busy (pos total)) p99 err_pct ≡ true
      → pos total <ℤ desired_replicas F s (pos total) busy queued p99 err_pct
  unfolding desired_replicas adjust clamp_replicas
  desired_replicas_hot total busy queued p99 err_pct h b room hot =
      ground (arith, pos_sum total 1, wrap64_small (total + 1) b)

  -- What `evaluate` asks for: one more instance exactly if more are desired than there are, which
  -- leaves the total at most at the maximum; one fewer exactly if fewer are desired and one is idle,
  -- which leaves it at least at the minimum; and nothing else.
  abbrev pub Decided : ℤ → ℤ → ℤ → Action → Type 0
  Decided desired total idle scale_up = (total <ℤ desired) × (total <ℤ s.max_replicas)
  Decided desired total idle scale_down =
      (desired <ℤ total)
      × (pos 0 <ℤ idle)
      × (s.min_replicas ≤ℤ s.max_replicas → s.min_replicas <ℤ total)
  Decided desired total idle stay =
      (desired ≤ℤ total) × (total ≤ℤ desired) ⊎ (desired <ℤ total) × (idle ≤ℤ pos 0)

  choose_action-Decided :
      (desired total idle : ℤ)
      → desired ≤ℤ s.max_replicas
      → (s.min_replicas ≤ℤ s.max_replicas → s.min_replicas ≤ℤ desired)
      → Decided desired total idle (choose_action F desired total idle)
  unfolding choose_action
  choose_action-Decided desired total idle high low = ground arith

  -- `evaluate` asks the gateway for one more instance only if the function has fewer than the
  -- maximum and fewer than desired, and for one fewer only if it has more than desired, one of them
  -- idle, and more than the minimum (if the minimum is not above the maximum); it asks for nothing
  -- only if it has as many as desired, or more but none idle. It makes at most that one request,
  -- stores the decision under the function's name and leaves the other decisions alone.
  pub evaluate-Decided :
      (func_name : String) (busy idle queued : ℤ) (p99 err_pct : F.Float)
      → let total = wrap64 (busy +ℤ idle) in
        let desired = desired_replicas F s total busy queued p99 err_pct in
        let (requests, after) = evaluate F s func_name busy idle queued p99 err_pct in
        (d : ScaleDecision) × (lookup func_name after.decisions ≡ some d)
        × (d.desired ≡ desired)
        × Decided desired total idle d.action
        × (requests ≡ requests_of F d.action)
        × ((k : String)
            → str_eq func_name k ≡ false
            → lookup k after.decisions ≡ lookup k s.decisions)
  unfolding evaluate
  evaluate-Decided func_name busy idle queued p99 err_pct =
      let total = wrap64 (busy +ℤ idle) in
      let desired = desired_replicas F s total busy queued p99 err_pct in
      let (high, low) = desired_replicas_range total busy queued p99 err_pct in
      let d : ScaleDecision = record {
        func_name = func_name;
        action = choose_action F desired total idle;
        busy = busy;
        idle = idle;
        desired = desired;
      } in
      (
        d,
        rw (lookup-insert func_name func_name d s.decisions, str_eq_refl func_name) refl,
        refl,
        choose_action-Decided desired total idle high low,
        refl,
        λ k ne. rw (lookup-insert func_name k d s.decisions, ne) refl,
      )

-- ===== src/Scaler/Policy.antt =====
-- `ceilDiv`, `desiredReplicas` and `evaluate`. Integers are 64-bit words with a sign, as in Go.
use serverless.Base.{
  ◌/◌, ℤ, pos, negsuc, sub_ℕ, ◌+ℤ◌, wrap64, ltb_ℤ, leb_ℤ, eq_ℤ, String, Bool, ◌&&◌, ◌||◌,
  if◌then◌else◌, insert, suc, List, [], ◌∷◌,
}
use serverless.Scaler.Types.{
  Floats, Policy, Action, scale_up, scale_down, stay, ScaleDecision, Scaler,
}

-- Go's division, which cuts towards zero. Division by zero does not occur: the divisor is a target.
abbrev pub quotient : ℤ → ℤ → ℤ
quotient (pos n) (pos d) = pos (n / d)
quotient (pos n) (negsuc d) = sub_ℕ 0 (n / suc d)
quotient (negsuc n) (pos d) = sub_ℕ 0 (suc n / d)
quotient (negsuc n) (negsuc d) = pos (suc n / suc d)

unfoldable pub ceil_div : ℤ → ℤ → ℤ
ceil_div n d = if leb_ℤ n (pos 0) then pos 0 else quotient (wrap64 (wrap64 (n +ℤ d) +ℤ negsuc 0)) d

module _ (F : Floats) where
  -- The share of busy instances, in percent.
  abbrev pub utilisation : ℤ → ℤ → F.Float
  utilisation busy total = F.times (F.divide (F.of_int busy) (F.of_int total)) F.hundred

  abbrev pub target_of : Policy F → ℤ
  target_of pol = if leb_ℤ pol.target_concurrency (pos 0) then pos 1 else pol.target_concurrency

  -- The test that asks for one more instance.
  abbrev pub is_hot : Policy F → F.Float → F.Float → F.Float → Bool
  is_hot pol util p99 err_pct =
      F.greater_equal util pol.scale_up_util_pct
      || F.greater p99 pol.scale_up_p99_ms
      || F.greater_equal err_pct pol.scale_up_err_pct

  -- The two adjustments under `total > 0`.
  unfoldable pub adjust : Policy F → ℤ → ℤ → ℤ → F.Float → F.Float → ℤ → ℤ
  adjust pol total busy queued p99 err_pct desired =
      let util = utilisation busy total in
      let raised =
        if is_hot pol util p99 err_pct && leb_ℤ desired total
        then wrap64 (total +ℤ pos 1)
        else desired in
      if eq_ℤ queued (pos 0) && F.greater_equal util pol.scale_down_util_pct && ltb_ℤ raised total
      then total
      else raised

  -- The last two tests.
  unfoldable pub clamp_replicas : Scaler F → ℤ → ℤ
  clamp_replicas s desired =
      let low = if ltb_ℤ desired s.min_replicas then s.min_replicas else desired in
      if ltb_ℤ s.max_replicas low then s.max_replicas else low

  unfoldable pub desired_replicas : Scaler F → ℤ → ℤ → ℤ → F.Float → F.Float → ℤ
  unfolding ceil_div adjust clamp_replicas
  desired_replicas s total busy queued p99 err_pct =
      let desired = ceil_div (wrap64 (busy +ℤ queued)) (target_of s.pol) in
      clamp_replicas s (
        if ltb_ℤ (pos 0) total then adjust s.pol total busy queued p99 err_pct desired else desired)

  -- The `switch` of `evaluate`.
  unfoldable pub choose_action : ℤ → ℤ → ℤ → Action
  choose_action desired total idle =
      if ltb_ℤ total desired
      then scale_up
      else if ltb_ℤ desired total && ltb_ℤ (pos 0) idle
      then scale_down
      else stay

  -- The paths below /internal that `evaluate` posts to.
  abbrev pub requests_of : Action → List Action
  requests_of scale_up = scale_up ∷ []
  requests_of scale_down = scale_down ∷ []
  requests_of stay = []

  -- `evaluate`, from the gateway's answers on: the requests it makes, and the scaler after it.
  unfoldable pub evaluate :
      Scaler F → String → ℤ → ℤ → ℤ → F.Float → F.Float → List Action × Scaler F
  unfolding desired_replicas choose_action
  evaluate s func_name busy idle queued p99 err_pct =
      let total = wrap64 (busy +ℤ idle) in
      let desired = desired_replicas s total busy queued p99 err_pct in
      let action = choose_action desired total idle in
      let d : ScaleDecision = record {
        func_name = func_name;
        action = action;
        busy = busy;
        idle = idle;
        desired = desired;
      } in
      (requests_of action, record s { decisions = insert func_name d s.decisions })

-- ===== src/Scheduler/Lease/Timeout.antt =====
-- The clamp on a lease's timeout.
use serverless.Base.{◌≡◌, ℤ, pos, ◌≤ℤ◌, ◌<ℤ◌, arith}
use serverless.Scheduler.Lease.{clamp_lease_timeout, or_if_nonpos}

-- The limit that applies: the function's timeout if it is positive, else the configured maximum
-- if that is positive, else 300 seconds.
abbrev pub limit : ℤ → ℤ → ℤ
limit env_max function_timeout = or_if_nonpos (or_if_nonpos function_timeout env_max) (pos 300)

-- The timeout of a lease is at least one second and at most the limit that applies, whatever was
-- asked for; a request inside that range is granted as it stands, and a request above the limit
-- gets the limit.
pub clamp_lease_timeout_range :
    (env_max requested ft : ℤ)
    → (pos 1 ≤ℤ clamp_lease_timeout env_max requested ft)
      × (clamp_lease_timeout env_max requested ft ≤ℤ limit env_max ft)
      × (pos 1 ≤ℤ requested
          → requested ≤ℤ limit env_max ft
          → clamp_lease_timeout env_max requested ft ≡ requested)
      × (limit env_max ft <ℤ requested
          → clamp_lease_timeout env_max requested ft ≡ limit env_max ft)
unfolding clamp_lease_timeout
clamp_lease_timeout_range env_max requested ft =
    (ground arith, ground arith, λ a b. ground arith, λ a. ground arith)

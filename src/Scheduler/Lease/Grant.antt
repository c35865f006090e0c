-- ===== src/Scheduler/Lease/Grant.antt =====
-- What `AcquireInstance` grants.
use serverless.Base.{
  ℕ, ◌≡◌, refl, sym, subst, ◌⊎◌, inl, inr, ℤ, String, none, some, lookup, lookup-insert, str_eq,
  if◌then◌else◌, Option-cases,
}
use serverless.Scheduler.Types.{
  FunctionConfig, AcquireInstanceRequest, InstanceLease, Scheduler, Error, busy, function_not_found,
}
use serverless.Scheduler.Pool.{Started, Acquired, got, refused, acquire}
use serverless.Scheduler.Pool.Acquire.{AcquireResult, acquire-AcquireResult}
use serverless.Scheduler.Lease.{
  clamp_lease_timeout, validate_acquire_trigger, make_lease, new_record, record_lease, Granted,
  granted, denied, grant_lease, acquire_instance,
}

module _ (env_max : ℤ) (start : FunctionConfig → Started) (fresh_id : String)
    (req : AcquireInstanceRequest) (now later at : ℕ) (s : Scheduler) where
  -- The lease of the instance that was acquired.
  pub record Grants (lease : InstanceLease) (t : Scheduler) : Type 0 where
    pub config : FunctionConfig
    pub registered : lookup req.function s.functions ≡ some config
    pub allowed : validate_acquire_trigger config req ≡ none
    pub target : ℕ
    pub acquired : Scheduler
    pub result : AcquireResult start req.function now s (got target, acquired)
    pub is_busy : (t.heap target).state ≡ busy
    pub contents :
        lease
        ≡ make_lease fresh_id req
            (clamp_lease_timeout env_max req.timeout_seconds config.timeout)
            (acquired.heap target)
    pub recorded :
        (k : String)
        → lookup k t.leases ≡ (
            if str_eq fresh_id k
            then some (new_record lease target at)
            else lookup k acquired.leases)
    pub heap : t.heap ≡ acquired.heap
    pub pool : t.pool ≡ acquired.pool

  -- Why a request is denied.
  abbrev pub Denies : Error → Scheduler → Type 0
  Denies e t =
      (lookup req.function s.functions ≡ none)
      ⊎ ((cfg : FunctionConfig) × (lookup req.function s.functions ≡ some cfg)
          × (validate_acquire_trigger cfg req ≡ some e))
      ⊎ AcquireResult start req.function now s (refused e, t)

  abbrev pub GrantResult : Granted × Scheduler → Type 0
  GrantResult (granted lease, t) = Grants lease t
  GrantResult (denied e, t) =
      (t.pool ≡ s.pool) × (t.heap ≡ s.heap) × (t.leases ≡ s.leases) × Denies e t

  grant_lease-GrantResult :
      (cfg : FunctionConfig) (r : Acquired × Scheduler)
      → lookup req.function s.functions ≡ some cfg
      → validate_acquire_trigger cfg req ≡ none
      → AcquireResult start req.function now s r
      → GrantResult (grant_lease env_max fresh_id req cfg at r)
  unfolding grant_lease record_lease
  grant_lease-GrantResult cfg (refused e, t) registered allowed result =
      (result.0, result.1, result.2, inr (inr result))
  grant_lease-GrantResult cfg (got p, u) registered allowed result =
      let lease =
        make_lease fresh_id req (clamp_lease_timeout env_max req.timeout_seconds cfg.timeout)
          (u.heap p) in
      record {
        config = cfg;
        registered = registered;
        allowed = allowed;
        target = p;
        acquired = u;
        result = result;
        is_busy = result.0;
        contents = refl;
        recorded = λ k. lookup-insert fresh_id k (new_record lease p at) u.leases;
        heap = refl;
        pool = refl;
      }

  -- AcquireInstance grants a lease only for a registered function whose triggers allow the request:
  -- it holds the request's fields, the clamped timeout and the address of the instance that Acquire
  -- gave, which is busy, and it is recorded under the fresh id, every other lease staying as Acquire
  -- left it. Otherwise it denies the request, because the function is unknown, the trigger is not
  -- allowed or no instance could be acquired, and leaves pool, instances and leases as they were.
  pub acquire_instance-GrantResult :
      GrantResult (acquire_instance env_max start fresh_id req now later at s)
  unfolding acquire_instance
  acquire_instance-GrantResult = elim (Option-cases (lookup req.function s.functions)) [
    | inl e ↦
        let missing : acquire_instance env_max start fresh_id req now later at s
            ≡ (denied (function_not_found req.function), s) =
          rw (acquire_instance, e) refl in
        subst GrantResult (sym missing) (refl, refl, refl, inl e)
    | inr (cfg, e) ↦ elim (Option-cases (validate_acquire_trigger cfg req)) [
      | inr (why, v) ↦
          let refusal : acquire_instance env_max start fresh_id req now later at s
              ≡ (denied why, s) =
            rw (acquire_instance, e, v) refl in
          subst GrantResult (sym refusal) (refl, refl, refl, inr (inl (cfg, e, v)))
      | inl v ↦
          let r = acquire start req.function now later s in
          let grants : acquire_instance env_max start fresh_id req now later at s
              ≡ grant_lease env_max fresh_id req cfg at r =
            rw (acquire_instance, e, v) refl in
          subst GrantResult (sym grants) (
            grant_lease-GrantResult cfg r e v
              (acquire-AcquireResult start req.function now later s))
    ]
  ]

-- ===== src/Gateway/Routes.antt =====
-- gateway/entrypoints/leases.go and the check of the token in mux.go: the internal routes through
-- which mqsvc gets and gives back leases.
use serverless.Base.{
  ℕ, ℤ, String, Bool, true, false, not, ◌||◌, if◌then◌else◌, Option, none, some, any, ◌==◌, codes,
  str_eq,
}
use serverless.Scheduler.Types.{
  FunctionConfig, AcquireInstanceRequest, Scheduler, Error, function_not_found, invalid_trigger,
  lease_not_found, invalid_lease_status,
}
use serverless.Scheduler.Pool.{Started}
use serverless.Scheduler.Lease.{
  Granted, granted, denied, acquire_instance, Released, freed, rejected, release_instance,
}

-- The parts of a request that the routes look at. `token` is the header Authorization without its
-- prefix, `segment` the path between the route's prefix and its suffix, if it has the suffix.
pub record Request (A : Type 0) : Type 0 where
  pub token : Option String
  pub is_post : Bool
  pub segment : Option String
  pub body : Option A

abbrev pub slash : ℕ
slash = 47

-- `!ok || name == "" || strings.Contains(name, "/")`
unfoldable pub is_bad_segment : Option String → Bool
is_bad_segment none = true
is_bad_segment (some name) = str_eq name "" || any (λ c. c == slash) (codes name)

-- `withInternalAuth`, which is not in the way if no token is set.
unfoldable pub is_authorized : String → Option String → Bool
is_authorized secret given =
    str_eq secret "" || elim given [ none ↦ false | some token ↦ str_eq token secret ]

-- `writeAcquireError` and `writeReleaseError`.
unfoldable pub acquire_error_status : Error → ℕ
acquire_error_status (function_not_found name) = 404
acquire_error_status invalid_trigger = 400
acquire_error_status _ = 503

unfoldable pub release_error_status : Error → ℕ
release_error_status (invalid_lease_status s) = 400
release_error_status (lease_not_found id) = 404
release_error_status _ = 500

abbrev pub segment_of : Option String → String
segment_of none = ""
segment_of (some name) = name

abbrev pub granted_status : Granted × Scheduler → ℕ × Scheduler
granted_status (granted lease, t) = (200, t)
granted_status (denied e, t) = (acquire_error_status e, t)

abbrev pub released_status : Released × Scheduler → ℕ × Scheduler
released_status (freed stop, t) = (204, t)
released_status (rejected e, t) = (release_error_status e, t)

-- The route of an acquire request; the function in the path overrides the body's.
unfoldable pub acquire_route :
    String
    → ℤ
    → (FunctionConfig → Started)
    → String
    → Request AcquireInstanceRequest
    → ℕ
    → ℕ
    → ℕ
    → Scheduler
    → ℕ × Scheduler
unfolding is_authorized is_bad_segment acquire_instance acquire_error_status
acquire_route secret env_max start fresh_id req now later at s =
    if not (is_authorized secret req.token)
    then (401, s)
    else if not req.is_post
    then (405, s)
    else if is_bad_segment req.segment
    then (404, s)
    else elim req.body [
      | none ↦ (400, s)
      | some body ↦
          let asked = record body { function = segment_of req.segment } in
          granted_status (acquire_instance env_max start fresh_id asked now later at s)
    ]

-- The route of a release; an empty status stands for success.
unfoldable pub release_route : String → Request String → ℕ → Scheduler → ℕ × Scheduler
unfolding is_authorized is_bad_segment release_instance release_error_status
release_route secret req now s =
    if not (is_authorized secret req.token)
    then (401, s)
    else if not req.is_post
    then (405, s)
    else if is_bad_segment req.segment
    then (404, s)
    else elim req.body [
      | none ↦ (400, s)
      | some given ↦
          let status = if str_eq given "" then "success" else given in
          released_status (release_instance (segment_of req.segment) status now s)
    ]

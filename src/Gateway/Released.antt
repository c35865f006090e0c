-- ===== src/Gateway/Released.antt =====
-- What the route of a release answers (gateway/entrypoints/leases.go), by the tests of the request.
use serverless.Base.{
  subst, sym, ==_iff, eq_iff, All, Bool-cases, lookup, List, [], ◌∷◌, ℕ, ◌≡◌, refl, ◌≢◌, ◌⊎◌, inl,
  inr, String, true, false, if◌then◌else◌, Option, none, some, any, ◌==◌, codes, str_eq, arith,
  Option-cases,
}
use serverless.Scheduler.Types.{LeaseRecord, Scheduler, lease_not_found, invalid_lease_status}
use serverless.Scheduler.Lease.{
  is_valid_lease_status, release_locked, release_found, ends_instance, Released, freed, rejected,
  release_instance,
}
use serverless.Gateway.Routes.{
  Request, slash, is_bad_segment, is_authorized, release_error_status, segment_of, released_status,
  release_route,
}

-- The status that a release is made with.
abbrev pub status_of : Option String → String
status_of none = "success"
status_of (some given) = if str_eq given "" then "success" else given

-- The request carries the token, or none is asked for.
abbrev pub IsAllowed : String → Option String → Type 0
IsAllowed secret given = (secret ≡ "") ⊎ (given ≡ some secret)

-- The path names one segment that is not empty and has no slash in it.
abbrev pub IsNamed : Option String → Type 0
IsNamed none = ⊥
IsNamed (some name) = (name ≢ "") × All (λ c. c ≢ slash) (codes name)

-- Why a release with a valid body was refused, by its code.
abbrev pub RefusedWith : String → String → Scheduler → ℕ → Type 0
RefusedWith id status s code =
    ((code ≡ 400) × (is_valid_lease_status status ≡ false))
    ⊎ ((code ≡ 404)
        × (is_valid_lease_status status ≡ true)
        × ((lookup id s.leases ≡ none)
            ⊎ ((r : LeaseRecord) × (lookup id s.leases ≡ some r) × (r.released ≡ true))))

-- What the route answers to a request with the token, the method, a path and a body, for the release
-- of the lease `id` with the status: 204 if it is released, or why not, and nothing is changed then.
abbrev pub Handled : String → String → ℕ → Scheduler → ℕ × Scheduler → Type 0
Handled id status now s (code, t) =
    ((code ≡ 204) × ((stop : Option String) × (release_instance id status now s ≡ (freed stop, t))))
    ⊎ (RefusedWith id status s code × (t ≡ s))

-- What the route answers, by the first of its tests that a request fails.
abbrev pub RouteReleased : String → Request String → ℕ → Scheduler → ℕ × Scheduler → Type 0
RouteReleased secret req now s (code, t) =
    (¬ IsAllowed secret req.token × (code ≡ 401) × (t ≡ s))
    ⊎ (IsAllowed secret req.token
        × (((req.is_post ≡ false) × (code ≡ 405) × (t ≡ s))
            ⊎ ((req.is_post ≡ true)
                × ((¬ IsNamed req.segment × (code ≡ 404) × (t ≡ s))
                    ⊎ (IsNamed req.segment
                        × (((req.body ≡ none) × (code ≡ 400) × (t ≡ s))
                            ⊎ ((req.body ≢ none)
                                × Handled (segment_of req.segment) (status_of req.body) now s
                                    (code, t))))))))

is_authorized-IsAllowed :
    (secret : String) (given : Option String)
    → (is_authorized secret given ≡ true → IsAllowed secret given)
      × (is_authorized secret given ≡ false → ¬ IsAllowed secret given)
unfolding is_authorized
is_authorized-IsAllowed secret none =
    (λ h. ground (arith, h, eq_iff secret ""), λ h f. ground (arith, h, f, eq_iff secret ""))
is_authorized-IsAllowed secret (some token) = (
  λ h. ground (arith, h, eq_iff secret "", eq_iff token secret),
  λ h f. ground (arith, h, f, eq_iff secret "", eq_iff token secret),
)

no_slash :
    (cs : List ℕ)
    → (any (λ c. c == slash) cs ≡ false → All (λ c. c ≢ slash) cs)
      × (any (λ c. c == slash) cs ≡ true → ¬ All (λ c. c ≢ slash) cs)
no_slash [] = (λ h. tt, λ h f. cc)
no_slash (c ∷ cs) =
    let (clear, found) = no_slash cs in
    elim (Bool-cases (c == slash)) [
      | inl e ↦ (λ h. ground (arith, e, h), λ h f. f.0 ((==_iff c slash).0 e))
      | inr e ↦ (
        λ h. (λ x. ground (arith, e, x), clear (ground (arith, e, h))),
        λ h f. found (ground (arith, e, h)) f.1,
      )
    ]

is_bad_segment-IsNamed :
    (segment : Option String)
    → (is_bad_segment segment ≡ true → ¬ IsNamed segment)
      × (is_bad_segment segment ≡ false → IsNamed segment)
unfolding is_bad_segment
is_bad_segment-IsNamed none = (λ h f. f, λ h. cc)
is_bad_segment-IsNamed (some name) =
    let (clear, found) = no_slash (codes name) in
    elim (Bool-cases (str_eq name "")) [
      | inl e ↦ (λ h f. f.0 ((eq_iff name "").0 e), λ h. ground (arith, e, h))
      | inr e ↦ (
        λ h f. found (ground (arith, e, h)) f.1,
        λ h. (λ x. ground (arith, e, x, eq_iff name ""), clear (ground (arith, e, h))),
      )
    ]

-- Why a release is refused.
abbrev Outcome : String → String → Scheduler → Released × Scheduler → Type 0
Outcome id status s (freed stop, t) = Unit
Outcome id status s (rejected e, t) = RefusedWith id status s (release_error_status e) × (t ≡ s)

release_found-Outcome :
    (id status : String) (now : ℕ) (r : LeaseRecord) (s : Scheduler)
    → Outcome id status s (release_found id status now r s)
unfolding release_found
release_found-Outcome id status now r s = elim (Bool-cases (ends_instance status)) [
  | inl e ↦ rw e tt
  | inr e ↦ rw e tt
]

release_locked-Outcome :
    (id status : String) (now : ℕ) (s : Scheduler)
    → is_valid_lease_status status ≡ true
    → Outcome id status s (release_locked id status now s)
unfolding release_locked release_error_status
release_locked-Outcome id status now s v = elim (Option-cases (lookup id s.leases)) [
  | inl e ↦
      let step : release_locked id status now s ≡ (rejected (lease_not_found id), s) =
        rw (release_locked, e) refl in
      subst (Outcome id status s) (sym step) (inr (refl, v, inl e), refl)
  | inr (r, e) ↦ elim (Bool-cases r.released) [
    | inl h ↦
        let step : release_locked id status now s ≡ (rejected (lease_not_found id), s) =
          rw (release_locked, e, h) refl in
        subst (Outcome id status s) (sym step) (inr (refl, v, inr (r, e, h)), refl)
    | inr h ↦
        let step : release_locked id status now s ≡ release_found id status now r s =
          rw (release_locked, e, h) refl in
        subst (Outcome id status s) (sym step) (release_found-Outcome id status now r s)
  ]
]

release_instance-Outcome :
    (id status : String) (now : ℕ) (s : Scheduler)
    → Outcome id status s (release_instance id status now s)
unfolding release_instance release_error_status
release_instance-Outcome id status now s = elim (Bool-cases (is_valid_lease_status status)) [
  | inl v ↦
      let step : release_instance id status now s ≡ release_locked id status now s =
        rw (release_instance, v) refl in
      subst (Outcome id status s) (sym step) (release_locked-Outcome id status now s v)
  | inr v ↦
      let step : release_instance id status now s ≡ (rejected (invalid_lease_status status), s) =
        rw (release_instance, v) refl in
      subst (Outcome id status s) (sym step) (inl (refl, v), refl)
]

released_status-Handled :
    (id status : String) (now : ℕ) (s : Scheduler) (r : Released × Scheduler)
    → release_instance id status now s ≡ r
    → Outcome id status s r
    → Handled id status now s (released_status r)
released_status-Handled id status now s (freed stop, t) same o = inl (refl, (stop, same))
released_status-Handled id status now s (rejected e, t) same o = inr o

-- The end of the route.
abbrev answer_body : String → Option String → ℕ → Scheduler → ℕ × Scheduler
answer_body id body now s = elim body [
  | none ↦ (400, s)
  | some given ↦
      let status = if str_eq given "" then "success" else given in
      released_status (release_instance id status now s)
]

answer_body-Handled :
    (id : String) (body : Option String) (now : ℕ) (s : Scheduler)
    → let r = answer_body id body now s in
      ((body ≡ none) × (r.0 ≡ 400) × (r.1 ≡ s))
      ⊎ ((body ≢ none) × Handled id (status_of body) now s r)
answer_body-Handled id none now s = inl (refl, refl, refl)
answer_body-Handled id (some given) now s =
    let status = if str_eq given "" then "success" else given in
    inr (
      (λ h. cc),
      released_status-Handled id status now s (release_instance id status now s) refl
          (release_instance-Outcome id status now s),
    )

-- The route of a release, by the first test that the request fails: without the token, where one is
-- set, the code is 401, with another method than POST 405, with a path that does not name one
-- segment 404, and with no readable body 400. Otherwise, with the status "success" standing for an
-- empty one, the code is 204, and the scheduler what the release leaves, if the lease is released;
-- 400 if the status is not one of the four; and 404 if it is and the lease is unknown or marked
-- released. With any code but 204 the scheduler is unchanged.
pub release_route-RouteReleased :
    (secret : String) (req : Request String) (now : ℕ) (s : Scheduler)
    → RouteReleased secret req now s (release_route secret req now s)
unfolding release_route
release_route-RouteReleased secret req now s =
    let allowed = is_authorized-IsAllowed secret req.token in
    let named = is_bad_segment-IsNamed req.segment in
    let id = segment_of req.segment in
    elim (Bool-cases (is_authorized secret req.token)) [
      | inr a ↦
          let step : release_route secret req now s ≡ (401, s) = rw (release_route, a) refl in
          subst (RouteReleased secret req now s) (sym step) (inl (allowed.1 a, refl, refl))
      | inl a ↦ elim (Bool-cases req.is_post) [
        | inr p ↦
            let step : release_route secret req now s ≡ (405, s) = rw (release_route, a, p) refl in
            subst (RouteReleased secret req now s) (sym step)
              (inr (allowed.0 a, inl (p, refl, refl)))
        | inl p ↦ elim (Bool-cases (is_bad_segment req.segment)) [
          | inl b ↦
              let step : release_route secret req now s ≡ (404, s) =
                rw (release_route, a, p, b) refl in
              subst (RouteReleased secret req now s) (sym step)
                (inr (allowed.0 a, inr (p, inl (named.0 b, refl, refl))))
          | inr b ↦
              let step : release_route secret req now s ≡ answer_body id req.body now s =
                rw (release_route, a, p, b) refl in
              subst (RouteReleased secret req now s) (sym step)
                (inr (allowed.0 a, inr (p, inr (named.1 b, answer_body-Handled id req.body now s))))
        ]
      ]
    ]

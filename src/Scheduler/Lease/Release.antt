-- ===== src/Scheduler/Lease/Release.antt =====
-- What `ReleaseInstance` and the reaping of leases leave behind.
use serverless.Base.{
  ℕ, ap, ◌==◌, ◌||◌, ◌++◌, ◌≡◌, refl, ◌≢◌, ◌⊎◌, inl, inr, String, Bool, true, false, List, [], ◌∷◌,
  Option, none, some, lookup, erase, lookup-erase, str_eq, str_eq_refl, arith, Bool-cases,
  Option-cases, if◌then◌else◌, All,
}
use serverless.Scheduler.Types.{
  LeaseRecord, Container, idle, Scheduler, lease_not_found, invalid_lease_status,
}
use serverless.Scheduler.Pool.{mark, pool_of}
use serverless.Scheduler.Pool.Acquire.{set_cell_self, set_cell_ne, pool_of-insert}
use serverless.Scheduler.Lease.{
  ends_instance, is_valid_lease_status, remove_instance, remove_target, Released, freed, rejected,
  release_found, release_locked, release_instance,
}

-- The test of `removeInstanceLocked`: the same object, or one with the same id.
abbrev pub is_target : (ℕ → Container) → ℕ → ℕ → Bool
is_target h p c = c == p || str_eq (h c).id (h p).id

-- `after` is `before` without the first instance that passes the test, if one does.
abbrev pub Without : (ℕ → Container) → ℕ → List ℕ → List ℕ → Type 0
Without h p before after =
    (All (λ c. is_target h p c ≡ false) before × (after ≡ before))
    ⊎ ((xs : List ℕ) × (c : ℕ) × (ys : List ℕ) × (before ≡ xs ++ (c ∷ ys))
        × (after ≡ xs ++ ys)
        × All (λ q. is_target h p q ≡ false) xs
        × (is_target h p c ≡ true))

-- The scheduler after a release that ends the instance, and after one that gives it back.
abbrev pub Ended : LeaseRecord → Scheduler → Option String → Scheduler → Type 0
Ended r s stop t =
    let name = (s.heap r.target).func_name in
    (stop ≡ (if str_eq (s.heap r.target).id "" then none else some (s.heap r.target).id))
    × (t.heap ≡ s.heap)
    × Without s.heap r.target (pool_of name s) (pool_of name t)

abbrev pub GivenBack : ℕ → LeaseRecord → Scheduler → Option String → Scheduler → Type 0
GivenBack now r s stop t =
    (stop ≡ none)
    × (t.pool ≡ s.pool)
    × ((t.heap r.target).state ≡ idle)
    × ((t.heap r.target).last_used ≡ now)
    × ((p : ℕ) → p ≢ r.target → t.heap p ≡ s.heap p)

abbrev pub Effect : Bool → ℕ → LeaseRecord → Scheduler → Option String → Scheduler → Type 0
Effect true now r s stop t = Ended r s stop t
Effect false now r s stop t = GivenBack now r s stop t

abbrev pub ReleaseResult : String → String → ℕ → Scheduler → Released × Scheduler → Type 0
ReleaseResult id status now s (rejected e, t) =
    (t ≡ s)
    × ((is_valid_lease_status status ≡ false)
        ⊎ (lookup id s.leases ≡ none)
        ⊎ ((r : LeaseRecord) × (lookup id s.leases ≡ some r) × (r.released ≡ true)))
ReleaseResult id status now s (freed stop, t) =
    (r : LeaseRecord) × (lookup id s.leases ≡ some r)
    × ((k : String) → lookup k t.leases ≡ (if str_eq id k then none else lookup k s.leases))
    × Effect (ends_instance status) now r s stop t

-- What the loop answers, as `Without` says.
abbrev WithoutOption : (ℕ → Container) → ℕ → List ℕ → Option (List ℕ) → Type 0
WithoutOption h p ps none = All (λ c. is_target h p c ≡ false) ps
WithoutOption h p ps (some qs) = Without h p ps qs

without_later :
    (h : ℕ → Container) (p c : ℕ) (ps : List ℕ) (r : Option (List ℕ))
    → is_target h p c ≡ false
    → WithoutOption h p ps r
    → WithoutOption h p (c ∷ ps) (elim r [ none ↦ none | some qs ↦ some (c ∷ qs) ])
without_later h p c ps none e w = (e, w)
without_later h p c ps (some qs) e (inl (none_match, same)) = inl ((e, none_match), rw same)
without_later h p c ps (some qs) e (inr (xs, d, ys, a, b, before, hit)) =
    inr (c ∷ xs, d, ys, rw a, rw b, (e, before), hit)

remove_target-Without :
    (h : ℕ → Container) (p : ℕ) (ps : List ℕ) → WithoutOption h p ps (remove_target h p ps)
unfolding remove_target
remove_target-Without h p [] = tt
remove_target-Without h p (c ∷ ps) = elim (Bool-cases (is_target h p c)) [
  | inl e ↦ rw e (inr ([], c, ps, refl, refl, tt, e))
  | inr e ↦ rw e (without_later h p c ps (remove_target h p ps) e (remove_target-Without h p ps))
]

remove_instance-Without :
    (p : ℕ) (s : Scheduler)
    → let name = (s.heap p).func_name in
      Without s.heap p (pool_of name s) (pool_of name (remove_instance p s))
unfolding remove_instance
remove_instance-Without p s =
    let name = (s.heap p).func_name in
    let w = remove_target-Without s.heap p (pool_of name s) in
    elim (Option-cases (remove_target s.heap p (pool_of name s))) [
      | inl e ↦ rw (e, remove_instance) (inl (rw e at w, refl))
      | inr (cs, e) ↦ rw (e, remove_instance, pool_of-insert name cs s) (rw e at w)
    ]

pub remove_instance-heap :
    (p : ℕ) (s : Scheduler)
    → ((remove_instance p s).heap ≡ s.heap) × ((remove_instance p s).leases ≡ s.leases)
unfolding remove_instance
remove_instance-heap p s = (ground arith, ground arith)

release_found-Result :
    (id status : String) (now : ℕ) (r : LeaseRecord) (s : Scheduler)
    → lookup id s.leases ≡ some r
    → ReleaseResult id status now s (release_found id status now r s)
unfolding release_found mark
release_found-Result id status now r s e =
    let s' : Scheduler = record s { leases = erase id s.leases } in
    let (same_heap, same_leases) = remove_instance-heap r.target s' in
    elim (Bool-cases (ends_instance status)) [
      | inl h ↦ rw h (
        r,
        e,
        λ k. rw same_leases (lookup-erase id k s.leases),
        rw h (refl, same_heap, remove_instance-Without r.target s'),
      )
      | inr h ↦ rw h (
        r,
        e,
        λ k. lookup-erase id k s.leases,
        rw h (
          refl,
          refl,
          ap (λ c. c.state) (set_cell_self r.target _ s.heap),
          ap (λ c. c.last_used) (set_cell_self r.target _ s.heap),
          λ p ne. set_cell_ne r.target p _ s.heap ne,
        ),
      )
    ]

release_locked-Result :
    (id status : String) (now : ℕ) (s : Scheduler)
    → ReleaseResult id status now s (release_locked id status now s)
unfolding release_locked
release_locked-Result id status now s = elim (Option-cases (lookup id s.leases)) [
  | inl e ↦ rw (e, release_locked) (refl, inr (inl e))
  | inr (r, e) ↦ elim (Bool-cases r.released) [
    | inl h ↦ rw (e, release_locked, h) (refl, inr (inr (r, e, h)))
    | inr h ↦ rw (e, release_locked, h) (release_found-Result id status now r s e)
  ]
]

-- `ReleaseInstance` fails, changing nothing, only for a status that is not one of the four or a
-- lease that is unknown or marked released. Otherwise just that lease is gone, and: with status
-- "timeout" or "abandoned" the first instance of the pool that is the leased one, or has its id, is
-- taken out and the leased one's id, if it is not empty, is to be stopped, no object being written; with "success" or "error" nothing
-- is stopped, the pool stays, and the instance becomes idle as of now, the others staying as they
-- are.
pub release_instance-Result :
    (id status : String) (now : ℕ) (s : Scheduler)
    → ReleaseResult id status now s (release_instance id status now s)
unfolding release_instance
release_instance-Result id status now s = elim (Bool-cases (is_valid_lease_status status)) [
  | inl h ↦ rw h (release_locked-Result id status now s)
  | inr h ↦ rw h (refl, inl h)
]

release_missing :
    (id status : String) (now : ℕ) (s : Scheduler)
    → lookup id s.leases ≡ none
    → release_instance id status now s ≡ (
      rejected (
          if is_valid_lease_status status then lease_not_found id else invalid_lease_status status),
      s,
    )
unfolding release_instance release_locked
release_missing id status now s e = ground arith

freed-gone :
    (id status : String) (now : ℕ) (s : Scheduler) (r : Released × Scheduler) (stop : Option String)
    → ReleaseResult id status now s r
    → r.0 ≡ freed stop
    → lookup id r.1.leases ≡ none
freed-gone id status now s (rejected e, t) stop v h = cc
freed-gone id status now s (freed x, t) stop (r, _, leases, _) h = rw (leases id, str_eq_refl id)

-- After a release that succeeded, the same lease cannot be released again: with any status, at any
-- time, the second call fails and changes nothing.
pub release_twice :
    (id status status' : String) (now later : ℕ) (s : Scheduler) (stop : Option String)
    → (release_instance id status now s).0 ≡ freed stop
    → let t = (release_instance id status now s).1 in
      release_instance id status' later t ≡ (
        rejected (
            if is_valid_lease_status status'
            then lease_not_found id
            else invalid_lease_status status'),
        t,
      )
release_twice id status status' now later s stop h =
    release_missing id status' later _
      (freed-gone id status now s _ stop (release_instance-Result id status now s) h)

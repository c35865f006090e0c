-- ===== src/Scheduler/Lease/Reap.antt =====
-- `reapExpiredLeases` removes the expired leases and no other.
use serverless.Base.{
  ℕ, ◌≡◌, refl, ◌∙◌, inl, inr, pos, ltb_ℤ, String, Bool, false, List, [], ◌∷◌, Option, none, some,
  Dict, lookup, erase, lookup-erase, UniqueKeys, str_eq, eq_iff, arith, Bool-cases, Option-cases,
  if◌then◌else◌, any, ◌&&◌, All,
}
use serverless.Scheduler.Types.{LeaseRecord, Scheduler}
use serverless.Scheduler.Pool.{mark}
use serverless.Scheduler.Lease.{
  ends_instance, release_found, release_locked, reap_list, reap_expired_leases,
}
use serverless.Scheduler.Lease.Release.{remove_instance-heap}

-- The reaping of leases.
abbrev pub Unreleased : Dict LeaseRecord → Type 0
Unreleased = All (λ e. e.1.released ≡ false)

abbrev pub is_expired : ℕ → LeaseRecord → Bool
is_expired now r = ltb_ℤ r.deadline (pos now)

abbrev pub still_live : ℕ → Option LeaseRecord → Option LeaseRecord
still_live now none = none
still_live now (some r) = if is_expired now r then none else some r

Unreleased-lookup :
    (id : String) (m : Dict LeaseRecord) (r : LeaseRecord)
    → Unreleased m
    → lookup id m ≡ some r
    → r.released ≡ false
unfolding lookup
Unreleased-lookup id [] r u e = cc
Unreleased-lookup id ((j, x) ∷ m) r u e = ground (arith, Unreleased-lookup id m r u.1)

Unreleased-erase : (id : String) (m : Dict LeaseRecord) → Unreleased m → Unreleased (erase id m)
unfolding erase
Unreleased-erase id [] u = tt
Unreleased-erase id ((j, x) ∷ m) u = ground (arith, Unreleased-erase id m u.1)

release_found-leases :
    (id status : String) (now : ℕ) (r : LeaseRecord) (s : Scheduler)
    → (release_found id status now r s).1.leases ≡ erase id s.leases
unfolding release_found mark
release_found-leases id status now r s =
    let s' : Scheduler = record s { leases = erase id s.leases } in
    elim (Bool-cases (ends_instance status)) [
      | inl h ↦ rw h (remove_instance-heap r.target s').1
      | inr h ↦ rw h
    ]

-- A release of an unreleased lease, from the point of view of the leases.
record Frees (id : String) (s t : Scheduler) : Type 0 where
  unreleased : Unreleased t.leases
  lookups : (k : String) → lookup k t.leases ≡ (if str_eq id k then none else lookup k s.leases)

missing-Frees :
    (id : String) (s : Scheduler) → Unreleased s.leases → lookup id s.leases ≡ none → Frees id s s
missing-Frees id s u e = record { unreleased = u; lookups = λ k. ground (arith, eq_iff id k) }

release_found-Frees :
    (id status : String) (now : ℕ) (r : LeaseRecord) (s : Scheduler)
    → Unreleased s.leases
    → Frees id s (release_found id status now r s).1
release_found-Frees id status now r s u =
    let e = release_found-leases id status now r s in
    record {
      unreleased = rw e (Unreleased-erase id s.leases u);
      lookups = λ k. rw e (lookup-erase id k s.leases);
    }

release_locked-Frees :
    (id status : String) (now : ℕ) (s : Scheduler)
    → Unreleased s.leases
    → Frees id s (release_locked id status now s).1
unfolding release_locked
release_locked-Frees id status now s u = elim (Option-cases (lookup id s.leases)) [
  | inl e ↦ rw (e, release_locked) (missing-Frees id s u e)
  | inr (r, e) ↦
      rw (e, release_locked, Unreleased-lookup id s.leases r u e)
        (release_found-Frees id status now r s u)
]

-- The key of an expired entry of the list.
abbrev is_due : ℕ → String → String × LeaseRecord → Bool
is_due now k (id, r) = str_eq id k && is_expired now r

reap_list-lookup :
    (es : List (String × LeaseRecord)) (now : ℕ) (s : Scheduler) (k : String)
    → Unreleased s.leases
    → lookup k (reap_list es now s).1.leases
      ≡ (if any (is_due now k) es then none else lookup k s.leases)
unfolding reap_list
reap_list-lookup [] now s k u = refl
reap_list-lookup ((id, r) ∷ es) now s k u = elim (Bool-cases (is_expired now r)) [
  | inl h ↦
      let f = release_locked-Frees id "timeout" now s u in
      rw h (
        ground (
          arith,
          f.lookups k,
          reap_list-lookup es now (release_locked id "timeout" now s).1 k f.unreleased,
        ))
  | inr h ↦ rw h (ground (arith, reap_list-lookup es now s k u))
]

not_due :
    (now : ℕ) (k : String) (m : Dict LeaseRecord) → lookup k m ≡ none → any (is_due now k) m ≡ false
unfolding lookup
not_due now k [] e = refl
not_due now k ((j, r) ∷ m) e = ground (arith, not_due now k m)

due-lookup :
    (now : ℕ) (k : String) (m : Dict LeaseRecord)
    → UniqueKeys m
    → (if any (is_due now k) m then none else lookup k m) ≡ still_live now (lookup k m)
unfolding lookup
due-lookup now k [] h = refl
due-lookup now k ((j, r) ∷ m) h =
    ground (arith, eq_iff j k, not_due now k m, due-lookup now k m h.1)

-- After the reaping of leases exactly those remain whose deadline had not passed, unchanged, if
-- no key of the map stands twice and no record in it is marked released.
pub reap_expired_leases-lookup :
    (now : ℕ) (s : Scheduler) (k : String)
    → UniqueKeys s.leases
    → Unreleased s.leases
    → lookup k (reap_expired_leases now s).1.leases ≡ still_live now (lookup k s.leases)
unfolding reap_expired_leases
reap_expired_leases-lookup now s k unique u =
    reap_list-lookup s.leases now s k u ∙ due-lookup now k s.leases unique

-- ===== src/Scheduler/Shrink/Oldest.antt =====
-- `RemoveIdle` takes the instance that has been idle longest, and not before two minutes.
use serverless.Base.{
  ℕ, suc, ◌+◌, ◌*◌, ◌≤◌, ◌<◌, ◌≡◌, refl, String, true, false, List, [], ◌∷◌, ◌++◌, append_assoc,
  append-nil, Option, none, some, length, length-append, get_elem?, get_elem?-append,
  get_elem?-length, All, All-append, All-map, insert, ltb, arith, Bool-cases, inl, inr,
}
use mathlib.Core.Path.{subst₂}
use serverless.Scheduler.Types.{Container, Scheduler}
use serverless.Scheduler.Pool.{is_idle, minute, pool_of}
use serverless.Scheduler.Shrink.{remove_at, older, find_oldest, drop_oldest, remove_idle}

length_snoc : (pre : List ℕ) (p : ℕ) → length (pre ++ (p ∷ [])) ≡ suc (length pre)
length_snoc pre p = omega (arith, length-append pre (p ∷ []))

module _ (h : ℕ → Container) where
  -- `p` was used no later than `q`, if `q` is idle.
  abbrev pub NotAfter : ℕ → ℕ → Type 0
  NotAfter p q = is_idle (h q).state ≡ true → (h p).last_used ≤ (h q).last_used

  abbrev pub IsInUse : ℕ → Type 0
  IsInUse q = is_idle (h q).state ≡ false

  -- `best` is the idle instance among `ps` that was used first, with its index.
  abbrev pub IsOldest : List ℕ → Option (ℕ × ℕ) → Type 0
  IsOldest ps none = All IsInUse ps
  IsOldest ps (some (i, p)) =
      (get_elem? ps i ≡ some p) × (is_idle (h p).state ≡ true) × All (NotAfter p) ps

  new_best-IsOldest :
      (pre : List ℕ) (p : ℕ)
      → is_idle (h p).state ≡ true
      → All (NotAfter p) pre
      → IsOldest (pre ++ (p ∷ [])) (some (length pre, p))
  new_best-IsOldest pre p e least = (
    get_elem?-length pre [] p,
    e,
    All-append (NotAfter p) pre (p ∷ []) least (λ _. omega arith, tt),
  )

  old_best-IsOldest :
      (pre : List ℕ) (p j q : ℕ)
      → NotAfter q p
      → IsOldest pre (some (j, q))
      → IsOldest (pre ++ (p ∷ [])) (some (j, q))
  old_best-IsOldest pre p j q n (at, e, least) =
      (get_elem?-append pre (p ∷ []) j at, e, All-append (NotAfter q) pre (p ∷ []) least (n, tt))

  older-IsOldest :
      (pre : List ℕ) (best : Option (ℕ × ℕ)) (p : ℕ)
      → IsOldest pre best
      → IsOldest (pre ++ (p ∷ [])) (older h (length pre) p best)
  unfolding older
  older-IsOldest pre none p v = elim (Bool-cases (is_idle (h p).state)) [
    | inl e ↦ rw e (
        new_best-IsOldest pre p e
          (All-map {P = IsInUse} {Q = NotAfter p} (λ q n y. ground arith) pre v))
    | inr e ↦ rw e (All-append IsInUse pre (p ∷ []) v (e, tt))
  ]
  older-IsOldest pre (some (j, q)) p v = elim (Bool-cases (is_idle (h p).state)) [
    | inr e ↦ rw e (old_best-IsOldest pre p j q (λ y. ground arith) v)
    | inl e ↦ elim (Bool-cases (ltb (h p).last_used (h q).last_used)) [
      | inl lt ↦
          rw (e, lt)
            (new_best-IsOldest pre p e
              (All-map {P = NotAfter q} {Q = NotAfter p} (λ r n y. ground (arith, n y)) pre v.2))
      | inr ge ↦ rw (e, ge) (old_best-IsOldest pre p j q (λ _. ground arith) v)
    ]
  ]

  find_oldest-IsOldest :
      (ps pre : List ℕ) (best : Option (ℕ × ℕ))
      → IsOldest pre best
      → IsOldest (pre ++ ps) (find_oldest h (length pre) best ps)
  unfolding find_oldest
  find_oldest-IsOldest [] pre best v = rw append-nil v
  find_oldest-IsOldest (p ∷ ps) pre best v =
      subst₂ (λ all i. IsOldest all (find_oldest h i (older h (length pre) p best) ps))
        (append_assoc pre (p ∷ []) ps) (length_snoc pre p)
        (find_oldest-IsOldest ps (pre ++ (p ∷ [])) (older h (length pre) p best)
          (older-IsOldest pre best p v))

-- If idle, then for less than two minutes.
abbrev pub IsRecent : (ℕ → Container) → ℕ → ℕ → Type 0
IsRecent h now p = is_idle (h p).state ≡ true → now < (h p).last_used + 2 * minute

-- What `RemoveIdle` has done, by whether it stops an instance.
abbrev pub Removed : String → ℕ → Scheduler → Option String × Scheduler → Type 0
Removed name now s (none, t) = (t ≡ s) × All (IsRecent s.heap now) (pool_of name s)
Removed name now s (some id, t) =
    (i : ℕ) × (p : ℕ) × (get_elem? (pool_of name s) i ≡ some p)
    × (is_idle (s.heap p).state ≡ true)
    × All (NotAfter s.heap p) (pool_of name s)
    × ((s.heap p).last_used + 2 * minute ≤ now)
    × (id ≡ (s.heap p).id)
    × (t ≡ record s { pool = insert name (remove_at i (pool_of name s)) s.pool })

drop_oldest-Removed :
    (name : String) (now : ℕ) (best : Option (ℕ × ℕ)) (s : Scheduler)
    → IsOldest s.heap (pool_of name s) best
    → Removed name now s (drop_oldest name now best s)
unfolding drop_oldest
drop_oldest-Removed name now none s v = (
  refl,
  All-map {P = IsInUse s.heap} {Q = IsRecent s.heap now} (λ p n y. ground arith) (pool_of name s) v,
)
drop_oldest-Removed name now (some (i, p)) s (at, e, least) =
    elim (Bool-cases (ltb now ((s.heap p).last_used + 2 * minute))) [
      | inl lt ↦ rw lt (
        refl,
        All-map {P = NotAfter s.heap p} {Q = IsRecent s.heap now} (λ q n y. ground (arith, n y))
            (pool_of name s) least,
      )
      | inr ge ↦ rw ge (i, p, at, e, least, ground arith, refl, refl)
    ]

-- `RemoveIdle` leaves the scheduler as it is exactly when no idle instance of the function was
-- last used two minutes ago or more; otherwise it removes from that function's pool, and stops, one
-- idle instance that was used no later than any other idle one, at least two minutes ago.
pub remove_idle-Removed :
    (name : String) (now : ℕ) (s : Scheduler) → Removed name now s (remove_idle name now s)
unfolding remove_idle
remove_idle-Removed name now s =
    drop_oldest-Removed name now _ s (find_oldest-IsOldest s.heap (pool_of name s) [] none tt)

-- ===== src/Scheduler/World/Counts.antt =====
-- How often an instance stands among the holders and the targets of the leases.
use serverless.Base.{
  ℕ, ◌+◌, ◌≤◌, ◌≡◌, String, true, List, [], ◌∷◌, some, Dict, lookup, insert, erase, ◌==◌, arith,
  if◌then◌else◌,
}
use serverless.Scheduler.Types.{LeaseRecord}
use serverless.Scheduler.World.{count, drop_one, holds, targets}

pub count-drop_one :
    (p q : ℕ) (l : List ℕ)
    → holds q l ≡ true
    → count p (drop_one q l) + (if p == q then 1 else 0) ≡ count p l
count-drop_one p q [] h = cc
count-drop_one p q (x ∷ l) h = ground (arith, count-drop_one p q l)

pub count-insert-le :
    (p : ℕ) (k : String) (r : LeaseRecord) (m : Dict LeaseRecord)
    → count p (targets (insert k r m)) ≤ count p (targets m) + (if p == r.target then 1 else 0)
unfolding insert
count-insert-le p k r [] = ground arith
count-insert-le p k r ((j, x) ∷ m) = ground (arith, count-insert-le p k r m)

pub count-erase-le :
    (p : ℕ) (k : String) (m : Dict LeaseRecord)
    → count p (targets (erase k m)) ≤ count p (targets m)
unfolding erase
count-erase-le p k [] = omega arith
count-erase-le p k ((j, x) ∷ m) = ground (arith, count-erase-le p k m)

-- A lease that goes gives its instance back.
pub count-erase :
    (p : ℕ) (k : String) (m : Dict LeaseRecord) (r : LeaseRecord)
    → lookup k m ≡ some r
    → count p (targets (erase k m)) + (if p == r.target then 1 else 0) ≤ count p (targets m)
unfolding lookup erase
count-erase p k [] r h = cc
count-erase p k ((j, x) ∷ m) r h = ground (arith, count-erase p k m r, count-erase-le p k m)

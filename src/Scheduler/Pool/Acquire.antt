-- ===== src/Scheduler/Pool/Acquire.antt =====
-- `Acquire`: an idle instance is reused before a new one is started.
use serverless.Base.{
  ℕ, suc, ◌≡◌, refl, ap, ◌≢◌, ◌⊎◌, inl, inr, String, true, false, List, [], ◌∷◌, ◌++◌, Option, none,
  some, get_elem?, All, lookup, lookup-insert, insert, str_eq_refl, arith, Bool-cases, Option-cases,
}
use serverless.Scheduler.Types.{FunctionConfig, Container, busy, RuntimeInstance, Scheduler}
use serverless.Scheduler.Pool.{
  is_idle, pool_of, set_cell, mark, first_idle, reserve, add_instance, Started, ready, failed,
  Acquired, got, refused, finish_start, after_reserve, acquire,
}

abbrev pub IsInUse : (ℕ → Container) → ℕ → Type 0
IsInUse h p = is_idle (h p).state ≡ false

-- The first idle instance of the list, at index `i`.
abbrev pub Found : (ℕ → Container) → List ℕ → Option ℕ → Type 0
Found h ps none = All (IsInUse h) ps
Found h ps (some p) = (i : ℕ) × (get_elem? ps i ≡ some p) × (is_idle (h p).state ≡ true)

Found-later :
    (h : ℕ → Container) (p : ℕ) (ps : List ℕ) (r : Option ℕ)
    → IsInUse h p
    → Found h ps r
    → Found h (p ∷ ps) r
Found-later h p ps none e v = (e, v)
Found-later h p ps (some q) e (i, at, y) = (suc i, at, y)

pub first_idle-Found : (h : ℕ → Container) (ps : List ℕ) → Found h ps (first_idle h ps)
unfolding first_idle
first_idle-Found h [] = tt
first_idle-Found h (p ∷ ps) = elim (Bool-cases (is_idle (h p).state)) [
  | inl e ↦ rw e (0, refl, e)
  | inr e ↦ rw e (Found-later h p ps (first_idle h ps) e (first_idle-Found h ps))
]

-- An idle instance of the function's pool is taken: nothing is started, no port is used, and no
-- other object changes.
pub record Reuses (name : String) (now p : ℕ) (s t : Scheduler) : Type 0 where
  pub index : ℕ
  pub in_pool : get_elem? (pool_of name s) index ≡ some p
  pub was_idle : is_idle (s.heap p).state ≡ true
  pub used : (t.heap p).last_used ≡ now
  pub others : (q : ℕ) → q ≢ p → t.heap q ≡ s.heap q
  pub pool : t.pool ≡ s.pool
  pub port : t.next_port ≡ s.next_port

-- No instance of the pool was idle: the backend has started one on the next port, and it is a new
-- object at the end of the pool.
pub record Starts (start : FunctionConfig → Started) (name : String) (p : ℕ) (s t : Scheduler)
    : Type 0 where
  pub config : FunctionConfig
  pub registered : lookup name s.functions ≡ some config
  pub instance_of : RuntimeInstance
  pub answer : start (record config { port = s.next_port }) ≡ ready instance_of
  pub none_idle : All (IsInUse s.heap) (pool_of name s)
  pub new : p ≡ s.next_ptr
  pub id : (t.heap p).id ≡ instance_of.id
  pub pool : pool_of name t ≡ pool_of name s ++ (p ∷ [])
  pub port : t.next_port ≡ suc s.next_port
  pub others : (q : ℕ) → q ≢ p → t.heap q ≡ s.heap q

abbrev pub AcquireResult :
    (FunctionConfig → Started) → String → ℕ → Scheduler → Acquired × Scheduler → Type 0
AcquireResult start name now s (got p, t) =
    ((t.heap p).state ≡ busy) × (Reuses name now p s t ⊎ Starts start name p s t)
AcquireResult start name now s (refused e, t) =
    (t.pool ≡ s.pool)
    × (t.heap ≡ s.heap)
    × (t.leases ≡ s.leases)
    × ((lookup name s.functions ≡ none) ⊎ All (IsInUse s.heap) (pool_of name s))

pub set_cell_self : (p : ℕ) (c : Container) (h : ℕ → Container) → set_cell p c h p ≡ c
set_cell_self p c h = ground arith

pub set_cell_ne : (p q : ℕ) (c : Container) (h : ℕ → Container) → q ≢ p → set_cell p c h q ≡ h q
set_cell_ne p q c h ne = ground arith

pub pool_of-insert :
    (name : String) (ps : List ℕ) (s : Scheduler)
    → pool_of name (record s { pool = insert name ps s.pool }) ≡ ps
pool_of-insert name ps s = ground (arith, lookup-insert name name ps s.pool, str_eq_refl name)

module _ (start : FunctionConfig → Started) (name : String) (now later : ℕ) (s : Scheduler) where
  acquire_missing :
      lookup name s.functions ≡ none
      → AcquireResult start name now s (acquire start name now later s)
  unfolding acquire reserve after_reserve
  acquire_missing e = rw (e, reserve) (refl, refl, refl, inl e)

  module _ (cfg : FunctionConfig) (registered : lookup name s.functions ≡ some cfg) where
    acquire_idle :
        (p : ℕ)
        → first_idle s.heap (pool_of name s) ≡ some p
        → acquire start name now later s ≡ (got p, mark busy now p s)
    unfolding acquire reserve after_reserve
    acquire_idle p e = ground arith

    acquire_reuses :
        (p : ℕ)
        → Found s.heap (pool_of name s) (some p)
        → AcquireResult start name now s (got p, mark busy now p s)
    unfolding mark
    acquire_reuses p (i, at, y) = (
      ap (λ c. c.state) (set_cell_self p _ s.heap),
      inl (record {
        index = i;
        in_pool = at;
        was_idle = y;
        used = ap (λ c. c.last_used) (set_cell_self p _ s.heap);
        others = λ q ne. set_cell_ne p q _ s.heap ne;
        pool = refl;
        port = refl;
      }),
    )

    acquire_starting :
        first_idle s.heap (pool_of name s) ≡ none
        → acquire start name now later s
          ≡ finish_start name
              (start (record cfg { port = s.next_port }))
              later
              (record s { next_port = suc s.next_port })
    unfolding acquire reserve after_reserve
    acquire_starting e = ground arith

    acquire_starts :
        (r : Started)
        → start (record cfg { port = s.next_port }) ≡ r
        → Found s.heap (pool_of name s) none
        → AcquireResult start name now s
            (finish_start name r later (record s { next_port = suc s.next_port }))
    unfolding finish_start add_instance
    acquire_starts (failed e) answer in_use = (refl, refl, refl, inr in_use)
    acquire_starts (ready inst) answer in_use = (
      ap (λ c. c.state) (set_cell_self s.next_ptr _ s.heap),
      inr (record {
        config = cfg;
        registered = registered;
        instance_of = inst;
        answer = answer;
        none_idle = in_use;
        new = refl;
        id = ap (λ c. c.id) (set_cell_self s.next_ptr _ s.heap);
        pool = pool_of-insert name _ s;
        port = refl;
        others = λ q ne. set_cell_ne s.next_ptr q _ s.heap ne;
      }),
    )

    acquire_registered : AcquireResult start name now s (acquire start name now later s)
    acquire_registered =
        let found = first_idle-Found s.heap (pool_of name s) in
        elim (Option-cases (first_idle s.heap (pool_of name s))) [
          | inl e ↦ rw (acquire_starting e) (acquire_starts _ refl (rw e at found))
          | inr (p, e) ↦ rw (acquire_idle p e) (acquire_reuses p (rw e at found))
        ]

  -- `Acquire` hands out an instance that is busy from then on. It is an idle one of the function's
  -- pool if there is one, and then nothing is started and the pool, the next port and the other
  -- instances stay; if there is none it is a new object for what the backend started on the next
  -- port, added to the pool's end. An
  -- error leaves pool, instances and leases as they are, and comes only if the function is not
  -- registered or no instance was idle.
  pub acquire-AcquireResult : AcquireResult start name now s (acquire start name now later s)
  acquire-AcquireResult = elim (Option-cases (lookup name s.functions)) [
    | inl e ↦ acquire_missing e
    | inr (cfg, e) ↦ acquire_registered cfg e
  ]

-- ===== src/Scheduler/Register/Laws.antt =====
-- What `Register` accepts, and what it leaves behind.
use serverless.Base.{
  ℕ, ◌≡◌, refl, ◌↔◌, inl, inr, String, true, [], Option, none, some, if◌then◌else◌, lookup, insert,
  erase, lookup-insert, lookup-erase, str_eq, eq_iff, codes, arith, Option-cases,
}
use serverless.Label.Chars.{is_label_char}
use serverless.Label.Gateway.{IsLabel, is_valid_function_name, is_valid_function_name_iff}
use serverless.Scheduler.Types.{FunctionConfig, Scheduler, Error, already_registered}
use serverless.Scheduler.Register.{
  is_supported_runtime, with_defaults, validate_triggers, config_error, add_function,
  finish_register, register_checked, register,
}
pub use serverless.Scheduler.Register.Triggers.{AreTriggers}
use serverless.Scheduler.Register.Triggers.{validate_triggers_iff}

-- The registry holds the same entries, and nothing else of the scheduler has changed.
pub record SameRegistry (s t : Scheduler) : Type 0 where
  pub functions : (k : String) → lookup k t.functions ≡ lookup k s.functions
  pub pool : t.pool ≡ s.pool
  pub leases : t.leases ≡ s.leases
  pub heap : t.heap ≡ s.heap
  pub ports : t.next_port ≡ s.next_port

SameRegistry-refl : (s : Scheduler) → SameRegistry s s
SameRegistry-refl s = record {
  functions = λ k. refl;
  pool = refl;
  leases = refl;
  heap = refl;
  ports = refl;
}

-- What `Register` has done, by its answer.
abbrev pub Registered : FunctionConfig → Scheduler → Option Error × Scheduler → Type 0
Registered cfg s (some e, t) = SameRegistry s t
Registered cfg s (none, t) =
    (lookup cfg.name s.functions ≡ none)
    × ((k : String)
        → lookup k t.functions ≡ (if str_eq cfg.name k then some cfg else lookup k s.functions))
    × (t.pool ≡ s.pool)
    × (t.leases ≡ s.leases)

erase-insert-lookup :
    (cfg : FunctionConfig) (s : Scheduler) (k : String)
    → lookup cfg.name s.functions ≡ none
    → lookup k (erase cfg.name (insert cfg.name cfg s.functions)) ≡ lookup k s.functions
erase-insert-lookup cfg s k h = ground (
  arith,
  lookup-erase cfg.name k (insert cfg.name cfg s.functions),
  lookup-insert cfg.name k cfg s.functions,
  eq_iff cfg.name k,
)

register_new :
    (saved : Option String) (cfg : FunctionConfig) (s : Scheduler)
    → lookup cfg.name s.functions ≡ none
    → Registered cfg s
        (finish_register saved cfg.name (record s { functions = insert cfg.name cfg s.functions }))
unfolding finish_register
register_new none cfg s h = (h, λ k. lookup-insert cfg.name k cfg s.functions, refl, refl)
register_new (some e) cfg s h = record {
  functions = λ k. erase-insert-lookup cfg s k h;
  pool = refl;
  leases = refl;
  heap = refl;
  ports = refl;
}

add_function_new :
    (cfg : FunctionConfig) (s : Scheduler)
    → lookup cfg.name s.functions ≡ none
    → add_function cfg s ≡ (none, record s { functions = insert cfg.name cfg s.functions })
unfolding add_function
add_function_new cfg s e = ground arith

add_function_taken :
    (cfg : FunctionConfig) (s : Scheduler) {old : FunctionConfig}
    → lookup cfg.name s.functions ≡ some old
    → add_function cfg s ≡ (some already_registered, s)
unfolding add_function
add_function_taken cfg s e = ground arith

register_checked-Registered :
    (r : Option Error) (saved : Option String) (cfg : FunctionConfig) (s : Scheduler)
    → Registered cfg s (register_checked r saved cfg s)
register_checked-Registered (some e) saved cfg s = SameRegistry-refl s
register_checked-Registered none saved cfg s = elim (Option-cases (lookup cfg.name s.functions)) [
  | inl e ↦ rw (add_function_new cfg s e) (register_new saved cfg s e)
  | inr (old, e) ↦ rw (add_function_taken cfg s e) (SameRegistry-refl s)
]

-- `Register` is atomic: with an error, a refused store included, the registry holds what it held;
-- without one the name was free and is now bound to the configuration with its defaults, every
-- other entry stands, and pool and leases are untouched.
pub register-Registered :
    (lower : ℕ → ℕ) (saved : Option String) (cfg : FunctionConfig) (s : Scheduler)
    → Registered (with_defaults cfg) s (register lower saved cfg s)
unfolding register
register-Registered lower saved cfg s =
    register_checked-Registered (config_error lower cfg) saved (with_defaults cfg) s

config_error_iff :
    (lower : ℕ → ℕ) (cfg : FunctionConfig)
    → (config_error lower cfg ≡ none) ↔ (
        (is_valid_function_name lower (codes cfg.name) ≡ true)
        × (is_supported_runtime (with_defaults cfg).runtime ≡ true)
        × (validate_triggers lower cfg.triggers ≡ none))
unfolding config_error is_valid_function_name is_supported_runtime validate_triggers
config_error_iff lower cfg = (λ h. ground arith, λ h. ground arith)

register_checked_iff :
    (r : Option Error) (saved : Option String) (cfg : FunctionConfig) (s : Scheduler)
    → ((register_checked r saved cfg s).0 ≡ none)
      ↔ ((r ≡ none) × (lookup cfg.name s.functions ≡ none) × (saved ≡ none))
unfolding finish_register add_function
register_checked_iff (some e) saved cfg s = (λ h. cc, λ h. cc)
register_checked_iff none saved cfg s = (λ h. ground arith, λ h. ground arith)

module _ (lower : ℕ → ℕ) (lower_fixes : (c : ℕ) → is_label_char c ≡ true → lower c ≡ c) where
  -- `Register` succeeds exactly if the name is a label, the runtime (by default python3) is
  -- supported, the triggers are well formed with distinct ids, the name is free and the store
  -- accepts the entry, if lower-casing leaves the characters of a label alone.
  pub register-eq-none_iff :
      (saved : Option String) (cfg : FunctionConfig) (s : Scheduler)
      → ((register lower saved cfg s).0 ≡ none) ↔ (
          IsLabel (codes cfg.name)
          × (is_supported_runtime (with_defaults cfg).runtime ≡ true)
          × AreTriggers [] cfg.triggers
          × (lookup cfg.name s.functions ≡ none)
          × (saved ≡ none))
  unfolding register
  register-eq-none_iff saved cfg s =
      let checked = register_checked_iff (config_error lower cfg) saved (with_defaults cfg) s in
      let config = config_error_iff lower cfg in
      let name = is_valid_function_name_iff lower lower_fixes (codes cfg.name) in
      let triggers = validate_triggers_iff lower lower_fixes cfg.triggers in
      (
        λ h.
            let (r, free, ok) = checked.0 h in
            let (n, runtime, t) = config.0 r in (name.0 n, runtime, triggers.0 t, free, ok),
        λ (n, runtime, t, free, ok).
            checked.1 (config.1 (name.1 n, runtime, triggers.1 t), free, ok),
      )

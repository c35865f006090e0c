-- ===== src/Scheduler/Register.antt =====
-- `Register` and the checks that it makes. `lower` is `unicode.ToLower`, `saved` the error that
-- `store.SaveFunction` answers with, if any.
pub mod Triggers
pub mod Laws
use serverless.Base.{
  ℕ, pos, ℤ, String, Bool, true, false, not, ◌&&◌, ◌||◌, List, [], ◌∷◌, Option, none, some, Dict,
  lookup, insert, erase, has_key, str_eq, codes, ltb_ℤ, eq_ℤ, any, if◌then◌else◌,
}
use serverless.Label.Gateway.{dns_label, text_eq, is_valid_function_name}
use serverless.Scheduler.Types.{
  TriggerConfig, FunctionConfig, Scheduler, Error, invalid_function_name, unsupported_runtime,
  trigger_id_required, invalid_trigger_id, duplicate_trigger_id, unsupported_trigger_type,
  negative_field, missing_field, already_registered, save_failed,
}

unfoldable pub is_supported_runtime : String → Bool
is_supported_runtime r = str_eq r "python3" || str_eq r "go" || str_eq r "nodejs" || str_eq r "java"

-- The zero values that `Register` replaces, in its order; the runtime is tested in between.
unfoldable pub with_defaults : FunctionConfig → FunctionConfig
with_defaults cfg = record cfg {
  image = if str_eq cfg.image "" then "faas-runtime:latest" else cfg.image;
  timeout = if eq_ℤ cfg.timeout (pos 0) then pos 30 else cfg.timeout;
  runtime = if str_eq cfg.runtime "" then "python3" else cfg.runtime;
  memory = if eq_ℤ cfg.memory (pos 0) then pos 128 else cfg.memory;
  handler = if str_eq cfg.handler "" then "handler.handler" else cfg.handler;
}

-- The body of the loop in `validateTriggers`, `seen` being the ids before.
unfoldable pub trigger_error : (ℕ → ℕ) → List String → TriggerConfig → Option Error
trigger_error lower seen t =
    if str_eq t.id ""
    then some trigger_id_required
    else if not (text_eq (codes t.id) (dns_label lower (codes t.id)))
    then some (invalid_trigger_id t.id)
    else if any (str_eq t.id) seen
    then some (duplicate_trigger_id t.id)
    else if not (str_eq t.kind "mq")
    then some (unsupported_trigger_type t.kind)
    else if ltb_ℤ t.max_concurrency (pos 0)
    then some (negative_field t.id "max_concurrency")
    else if ltb_ℤ t.prefetch (pos 0)
    then some (negative_field t.id "prefetch")
    else if ltb_ℤ t.max_attempts (pos 0)
    then some (negative_field t.id "max_attempts")
    else if ltb_ℤ t.retry_backoff_ms (pos 0)
    then some (negative_field t.id "retry_backoff_ms")
    else if not t.enabled
    then none
    else if str_eq t.mq_id ""
    then some (missing_field t.id "mq_id")
    else if str_eq t.queue ""
    then some (missing_field t.id "queue")
    else none

unfoldable pub validate_from : (ℕ → ℕ) → List String → List TriggerConfig → Option Error
validate_from lower seen [] = none
validate_from lower seen (t ∷ ts) = elim (trigger_error lower seen t) [
  | some e ↦ some e
  | none ↦ validate_from lower (t.id ∷ seen) ts
]

unfoldable pub validate_triggers : (ℕ → ℕ) → List TriggerConfig → Option Error
unfolding validate_from
validate_triggers lower ts = validate_from lower [] ts

-- What `Register` tests before it takes the lock.
unfoldable pub config_error : (ℕ → ℕ) → FunctionConfig → Option Error
unfolding is_supported_runtime validate_triggers with_defaults
config_error lower cfg =
    if not (is_valid_function_name lower (codes cfg.name))
    then some (invalid_function_name cfg.name)
    else if not (is_supported_runtime (with_defaults cfg).runtime)
    then some (unsupported_runtime (with_defaults cfg).runtime)
    else validate_triggers lower cfg.triggers

-- Under the lock: the name is taken, or the entry is made.
unfoldable pub add_function : FunctionConfig → Scheduler → Option Error × Scheduler
add_function cfg s =
    if has_key cfg.name s.functions
    then (some already_registered, s)
    else (none, record s { functions = insert cfg.name cfg s.functions })

-- Under the lock again, when the store has refused the entry.
unfoldable pub remove_function : String → Scheduler → Scheduler
remove_function name s = record s { functions = erase name s.functions }

unfoldable pub finish_register : Option String → String → Scheduler → Option Error × Scheduler
unfolding remove_function
finish_register none name s = (none, s)
finish_register (some e) name s = (some (save_failed e), remove_function name s)

abbrev pub after_add : Option String → String → Option Error × Scheduler → Option Error × Scheduler
after_add saved name (some e, s) = (some e, s)
after_add saved name (none, s) = finish_register saved name s

abbrev pub register_checked :
    Option Error → Option String → FunctionConfig → Scheduler → Option Error × Scheduler
register_checked (some e) saved cfg s = (some e, s)
register_checked none saved cfg s = after_add saved cfg.name (add_function cfg s)

unfoldable pub register :
    (ℕ → ℕ) → Option String → FunctionConfig → Scheduler → Option Error × Scheduler
unfolding config_error with_defaults add_function finish_register
register lower saved cfg s = register_checked (config_error lower cfg) saved (with_defaults cfg) s

-- ===== src/Scheduler/Upload/Uploaded.antt =====
-- What `UploadCode` leaves of the code directory, the registry and the pool.
use serverless.Base.{
  ◌≡◌, ◌≢◌, refl, sym, subst, ◌⊎◌, inl, inr, String, true, false, List, [], Option, none, some,
  lookup, lookup-insert, str_eq, if◌then◌else◌, arith, Option-cases,
}
use serverless.Scheduler.Types.{FunctionConfig, Scheduler}
use serverless.Scheduler.Pool.{replace_code, pool_of, ids_of}
use serverless.Scheduler.Upload.{
  Dirs, Disk, CodeObject, UploadError, not_registered, remove_backup_failed, save_code_failed,
  save_function_failed, put_in_place, swap_dirs, replace_dir, save_code, finish_upload, store_code,
  upload_code,
}

module _ {C : Type 0} where
  -- The old code is where it was, or in the backup because it could not be renamed back.
  abbrev pub Keeps : Disk C → Dirs C → Dirs C → Type 0
  Keeps disk dirs dirs' =
      (dirs'.current ≡ dirs.current)
      ⊎ ((dirs'.current ≡ none) × (dirs'.backup ≡ dirs.current) × (disk.restores ≡ false))

  -- Every step of the replacement works: also the move of an old directory, if there is one.
  abbrev pub Works : Disk C → Dirs C → Type 0
  Works disk dirs =
      (disk.makes_temp ≡ true)
      × (disk.extracted ≢ none)
      × (disk.removes_old ≡ true)
      × (disk.stats ≡ true)
      × ((dirs.current ≡ none) ⊎ (disk.backs_up ≡ true))
      × (disk.replaces ≡ true)
      × (disk.removes_backup ≡ true)

  abbrev pub Swapped : Disk C → Dirs C → Option UploadError × Dirs C → Type 0
  Swapped disk dirs (none, dirs') =
      Works disk dirs × (dirs'.current ≡ disk.extracted) × (dirs'.backup ≡ none)
  Swapped disk dirs (some e, dirs') =
      ¬ Works disk dirs
      × (Keeps disk dirs dirs' ⊎ ((dirs'.current ≡ disk.extracted) × (e ≡ remove_backup_failed)))

  replace_dir-Swapped : (disk : Disk C) (dirs : Dirs C) → Swapped disk dirs (replace_dir disk dirs)
  unfolding replace_dir swap_dirs put_in_place
  replace_dir-Swapped disk dirs = ground arith

-- The scheduler with the function under the configuration and its pool empty, all else as in `t`.
abbrev pub Replaced : String → FunctionConfig → Scheduler → Scheduler → Type 0
Replaced name cfg t t' =
    ((k : String)
      → lookup k t'.functions ≡ (if str_eq name k then some cfg else lookup k t.functions))
    × ((k : String) → pool_of k t' ≡ (if str_eq name k then [] else pool_of k t))
    × (t'.leases ≡ t.leases)
    × (t'.heap ≡ t.heap)

replace_code-Replaced :
    (name : String) (cfg : FunctionConfig) (t : Scheduler)
    → Replaced name cfg t (replace_code name cfg t).1
unfolding replace_code
replace_code-Replaced name cfg t = (
  λ k. lookup-insert name k cfg t.functions,
  λ k. ground (arith, lookup-insert name k [] t.pool),
  refl,
  refl,
)

-- What the part after the swap has done: it stops the instances of the pool, or it fails and stops
-- none, and then the scheduler is unchanged unless the function's store has failed.
abbrev pub Stored :
    Option (Option CodeObject)
    → Option String
    → String
    → String
    → FunctionConfig
    → Scheduler
    → Option UploadError × List String × Scheduler
    → Type 0
Stored object saved name dir cfg t (none, stopped, t') =
    (saved ≡ none)
    × ((cfg' : FunctionConfig) × (save_code object cfg ≡ some cfg')
        × Replaced name (record cfg' { code_dir = dir }) t t'
        × (stopped ≡ ids_of t (pool_of name t)))
Stored object saved name dir cfg t (some e, stopped, t') =
    (stopped ≡ [])
    × (((e ≡ save_code_failed) × (save_code object cfg ≡ none) × (t' ≡ t))
        ⊎ ((e ≡ save_function_failed)
            × (saved ≢ none)
            × ((cfg' : FunctionConfig) × (save_code object cfg ≡ some cfg')
                × Replaced name (record cfg' { code_dir = dir }) t t')))

stopped_of :
    (name : String) (cfg : FunctionConfig) (t : Scheduler)
    → (replace_code name cfg t).0 ≡ ids_of t (pool_of name t)
unfolding replace_code
stopped_of name cfg t = refl

finish_upload-Stored :
    (object : Option (Option CodeObject)) (saved : Option String) (name dir : String)
    (cfg cfg' : FunctionConfig) (t : Scheduler)
    → save_code object cfg ≡ some cfg'
    → Stored object saved name dir cfg t
        (finish_upload saved name (record cfg' { code_dir = dir }) t)
unfolding finish_upload
finish_upload-Stored object none name dir cfg cfg' t e = (
  refl,
  (
    cfg',
    e,
    replace_code-Replaced name (record cfg' { code_dir = dir }) t,
    stopped_of name (record cfg' { code_dir = dir }) t,
  ),
)
finish_upload-Stored object (some x) name dir cfg cfg' t e = (
  refl,
  inr (refl, (λ h. cc), (cfg', e, replace_code-Replaced name (record cfg' { code_dir = dir }) t)),
)

store_code-Stored :
    (object : Option (Option CodeObject)) (saved : Option String) (name dir : String)
    (cfg : FunctionConfig) (t : Scheduler)
    → Stored object saved name dir cfg t (store_code object saved name dir cfg t)
unfolding store_code
store_code-Stored object saved name dir cfg t = elim (Option-cases (save_code object cfg)) [
  | inl e ↦
      let step : store_code object saved name dir cfg t ≡ (some save_code_failed, [], t) =
        rw (store_code, e) refl in
      subst (Stored object saved name dir cfg t) (sym step) (refl, inl (refl, e, refl))
  | inr (cfg', e) ↦
      let step : store_code object saved name dir cfg t
          ≡ finish_upload saved name (record cfg' { code_dir = dir }) t =
        rw (store_code, e) refl in
      subst (Stored object saved name dir cfg t) (sym step)
        (finish_upload-Stored object saved name dir cfg cfg' t e)
]

abbrev pub Uploaded :
    {C : Type 0}
    → Disk C
    → Option (Option CodeObject)
    → Option String
    → String
    → String
    → Dirs C
    → Scheduler
    → Scheduler
    → Option UploadError × List String × Scheduler × Dirs C
    → Type 0
Uploaded disk object saved name dir dirs s t (error, stopped, t', dirs') =
    ((lookup name s.functions ≡ none)
      × (error ≡ some not_registered)
      × (stopped ≡ [])
      × (t' ≡ t)
      × (dirs' ≡ dirs))
    ⊎ ((cfg : FunctionConfig) × (lookup name s.functions ≡ some cfg)
        × (((e : UploadError) × (error ≡ some e)
              × (stopped ≡ [])
              × (t' ≡ t)
              × Swapped disk dirs (some e, dirs'))
            ⊎ (Swapped disk dirs (none, dirs')
                × Stored object saved name dir cfg t (error, stopped, t'))))

-- `UploadCode`, on every branch. For an unknown function it changes nothing. If the directory cannot
-- be replaced, which is so exactly if one of the steps of the replacement fails, it fails, stops nothing and leaves the scheduler alone, and the old code is where it
-- was, or in the backup if also the rename back has failed; only if the backup cannot be removed is
-- the new code in place. Otherwise the directory holds the extracted code with no backup left; then, with no error, which is so exactly if both stores work, the function has the new directory, key and URL, its pool is empty and exactly the
-- instances that were in it are stopped. If the code store fails, the scheduler is unchanged; if it works and the
-- function's store fails, the function is updated and its pool emptied, and no instance is stopped.
pub upload_code-Uploaded :
    {C : Type 0} (disk : Disk C) (object : Option (Option CodeObject)) (saved : Option String)
    (name dir : String) (dirs : Dirs C) (s t : Scheduler)
    → Uploaded disk object saved name dir dirs s t (upload_code disk object saved name dir dirs s t)
unfolding upload_code
upload_code-Uploaded disk object saved name dir dirs s t =
    elim (Option-cases (lookup name s.functions)) [
      | inl f ↦
          let step : upload_code disk object saved name dir dirs s t
              ≡ (some not_registered, [], t, dirs) =
            rw (upload_code, f) refl in
          subst (Uploaded disk object saved name dir dirs s t) (sym step)
            (inl (f, refl, refl, refl, refl))
      | inr (cfg, f) ↦
          let swapped = replace_dir-Swapped disk dirs in
          let dirs' = (replace_dir disk dirs).1 in
          elim (Option-cases (replace_dir disk dirs).0) [
            | inl e ↦
                let r = store_code object saved name dir cfg t in
                let step : upload_code disk object saved name dir dirs s t
                    ≡ (r.0, r.1, r.2, dirs') =
                  rw (upload_code, f, e) refl in
                subst (Uploaded disk object saved name dir dirs s t) (sym step) (
                  inr (
                    cfg,
                    f,
                    inr (
                      subst (λ x. Swapped disk dirs (x, dirs')) e swapped,
                      store_code-Stored object saved name dir cfg t,
                    ),
                  ))
            | inr (x, e) ↦
                let step : upload_code disk object saved name dir dirs s t
                    ≡ (some x, [], t, dirs') =
                  rw (upload_code, f, e) refl in
                subst (Uploaded disk object saved name dir dirs s t) (sym step) (
                  inr (
                    cfg,
                    f,
                    inl (x, refl, refl, refl, subst (λ y. Swapped disk dirs (y, dirs')) e swapped),
                  ))
          ]
    ]

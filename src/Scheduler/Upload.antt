-- ===== src/Scheduler/Upload.antt =====
-- `UploadCode`: the new code replaces the old directory and the function is updated. The answers of
-- the file system and of the stores are arguments, the zip archive is extracted to a code of type C.
-- `s` is the scheduler when the function is read, `t` that of the last critical section.
pub mod Uploaded
pub mod Archive
pub mod Inside
mod Tests
use serverless.Base.{
  ℕ, String, Bool, true, false, not, List, [], ◌∷◌, Option, none, some, lookup, if◌then◌else◌,
}
use serverless.Scheduler.Types.{FunctionConfig, Scheduler}
use serverless.Scheduler.Pool.{replace_code}

-- The code directory of the function and its backup, if they exist.
pub record Dirs (C : Type 0) : Type 0 where
  pub current : Option C
  pub backup : Option C

-- What the file system does. `left` is what a failed removal leaves of a directory.
pub record Disk (C : Type 0) : Type 0 where
  pub makes_temp : Bool
  pub extracted : Option C
  pub removes_old : Bool
  pub stats : Bool
  pub backs_up : Bool
  pub replaces : Bool
  pub restores : Bool
  pub removes_backup : Bool
  pub left : Option C

pub record CodeObject : Type 0 where
  pub bucket : String
  pub key : String
  pub url : String

pub data UploadError : Type 0 where
  not_registered temp_failed extract_failed remove_failed backup_failed stat_failed : UploadError
  replace_failed remove_backup_failed save_code_failed save_function_failed : UploadError

module _ {C : Type 0} where
  -- The rename of the new directory into place, and what follows.
  unfoldable pub put_in_place : Disk C → C → Dirs C → Option UploadError × Dirs C
  put_in_place disk code dirs =
      if not disk.replaces
      then (
        some replace_failed,
        elim dirs.backup [
          | none ↦ dirs
          | some old ↦ if disk.restores then record { current = some old; backup = none } else dirs
        ],
      )
      else if not disk.removes_backup
      then (some remove_backup_failed, record { current = some code; backup = disk.left })
      else (none, record { current = some code; backup = none })

  -- From the removal of an older backup on.
  unfoldable pub swap_dirs : Disk C → C → Dirs C → Option UploadError × Dirs C
  unfolding put_in_place
  swap_dirs disk code dirs =
      if not disk.removes_old
      then (some remove_failed, record dirs { backup = disk.left })
      else if not disk.stats
      then (some stat_failed, record dirs { backup = none })
      else elim dirs.current [
        | none ↦ put_in_place disk code (record { current = none; backup = none })
        | some old ↦
            if not disk.backs_up
            then (some backup_failed, record { current = some old; backup = none })
            else put_in_place disk code (record { current = none; backup = some old })
      ]

  unfoldable pub replace_dir : Disk C → Dirs C → Option UploadError × Dirs C
  unfolding swap_dirs
  replace_dir disk dirs =
      if not disk.makes_temp then (some temp_failed, dirs) else elim disk.extracted [
        | none ↦ (some extract_failed, dirs)
        | some code ↦ swap_dirs disk code dirs
      ]

-- The code store's answer: there may be none, it may fail, or give an object. The result is the
-- configuration with the object's key and URL.
unfoldable pub save_code : Option (Option CodeObject) → FunctionConfig → Option FunctionConfig
save_code none cfg = some cfg
save_code (some none) cfg = none
save_code (some (some obj)) cfg = some (record cfg { code_key = obj.key; code_url = obj.url })

-- The last critical section and what follows: the error, the instances to stop and the scheduler.
unfoldable pub finish_upload :
    Option String
    → String
    → FunctionConfig
    → Scheduler
    → Option UploadError × List String × Scheduler
unfolding replace_code
finish_upload (some e) name cfg t = (some save_function_failed, [], (replace_code name cfg t).1)
finish_upload none name cfg t = let (stopped, t') = replace_code name cfg t in (none, stopped, t')

unfoldable pub store_code :
    Option (Option CodeObject)
    → Option String
    → String
    → String
    → FunctionConfig
    → Scheduler
    → Option UploadError × List String × Scheduler
unfolding save_code finish_upload
store_code object saved name dir cfg t = elim (save_code object cfg) [
  | none ↦ (some save_code_failed, [], t)
  | some cfg' ↦ finish_upload saved name (record cfg' { code_dir = dir }) t
]

-- `UploadCode` for the function `name`, whose code directory is `dir`.
unfoldable pub upload_code :
    {C : Type 0}
    → Disk C
    → Option (Option CodeObject)
    → Option String
    → String
    → String
    → Dirs C
    → Scheduler
    → Scheduler
    → Option UploadError × List String × Scheduler × Dirs C
unfolding replace_dir store_code
upload_code disk object saved name dir dirs s t = elim (lookup name s.functions) [
  | none ↦ (some not_registered, [], t, dirs)
  | some cfg ↦
      let (error, dirs') = replace_dir disk dirs in
      elim error [
        | some e ↦ (some e, [], t, dirs')
        | none ↦
            let (outcome, stopped, t') = store_code object saved name dir cfg t in
            (outcome, stopped, t', dirs')
      ]
]

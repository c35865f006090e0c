-- ===== src/Scheduler/Upload/Tests.antt =====
-- An upload and an archive, concretely.
use serverless.Base.{
  ◌≡◌, refl, pos, String, true, false, List, [], ◌∷◌, Option, none, some, lookup, insert,
}
use serverless.Scheduler.Types.{FunctionConfig, Container, idle, Scheduler}
use serverless.Scheduler.Upload.{Dirs, Disk, CodeObject, save_function_failed, upload_code}
use serverless.Scheduler.Upload.Uploaded.{Uploaded, upload_code-Uploaded}
use serverless.Scheduler.Upload.Archive.{Entry, writes, makes, escapes, extract_zip}
use serverless.Scheduler.Upload.Inside.{Extracted, all_meant, extract_zip-Extracted}

abbrev resize : FunctionConfig
resize = record {
  name = "resize";
  image = "faas-runtime:latest";
  runtime = "python3";
  timeout = pos 30;
  memory = pos 128;
  handler = "handler.handler";
  triggers = [];
  code_dir = "";
  code_key = "";
  code_url = "";
  port = 9010;
}

abbrev first_container : Container
first_container = record {
  id = "c1";
  addr = "localhost:9010";
  state = idle;
  last_used = 5;
  func_name = "resize";
  node_name = "n1";
}

abbrev scheduler : Scheduler
scheduler = record {
  functions = ("resize", resize) ∷ [];
  pool = ("resize", 0 ∷ []) ∷ [];
  next_port = 9011;
  leases = [];
  heap = λ p. first_container;
  next_ptr = 1;
}

-- A disk on which nothing fails; the code is its name.
abbrev disk : Disk String
disk = record {
  makes_temp = true;
  extracted = some "new";
  removes_old = true;
  stats = true;
  backs_up = true;
  replaces = true;
  restores = true;
  removes_backup = true;
  left = none;
}

abbrev old_dirs : Dirs String
old_dirs = record { current = some "old"; backup = none }

abbrev object : Option (Option CodeObject)
object =
    some
      (some (record { bucket = "faas-code"; key = "resize.zip"; url = "http://minio/resize.zip" }))

upload_code-Uploaded_example :
    Uploaded disk object none "resize" "/tmp/faas/resize" old_dirs scheduler scheduler
      (upload_code disk object none "resize" "/tmp/faas/resize" old_dirs scheduler scheduler)
upload_code-Uploaded_example =
    upload_code-Uploaded disk object none "resize" "/tmp/faas/resize" old_dirs scheduler scheduler

stopped_test :
    (upload_code disk object none "resize" "/tmp/faas/resize" old_dirs scheduler scheduler).1
    ≡ "c1" ∷ []
unfolding upload_code lookup
stopped_test = refl

-- If the function's store fails, the pool is emptied and nothing is stopped.
leaked_test :
    let (error, stopped, t, dirs) =
      upload_code disk object
        (some "down")
        "resize"
        "/tmp/faas/resize"
        old_dirs
        scheduler
        scheduler in
    (error ≡ some save_function_failed) × (stopped ≡ []) × (t.pool ≡ ("resize", []) ∷ [])
unfolding upload_code lookup insert
leaked_test = (refl, refl, refl)

abbrev file : List String → Entry
file name = record {
  name = name;
  is_dir = false;
  makes_dir = true;
  opens = true;
  creates = true;
  copies = true;
  closes = true;
}

abbrev archive : List Entry
archive = file ("lib" ∷ ".." ∷ "handler.py" ∷ []) ∷ file (".." ∷ "passwd" ∷ []) ∷ []

extract_zip-Extracted_example :
    Extracted
      ("new" ∷ "tmp" ∷ [])
      (all_meant ("new" ∷ "tmp" ∷ []) archive)
      (extract_zip ("new" ∷ "tmp" ∷ []) (some archive))
extract_zip-Extracted_example = extract_zip-Extracted ("new" ∷ "tmp" ∷ []) archive

escape_test :
    extract_zip ("new" ∷ "tmp" ∷ []) (some archive)
    ≡ (some escapes, makes ("new" ∷ "tmp" ∷ []) ∷ writes ("handler.py" ∷ "new" ∷ "tmp" ∷ []) ∷ [])
unfolding extract_zip
escape_test = refl

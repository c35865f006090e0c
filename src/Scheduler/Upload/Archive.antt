-- ===== src/Scheduler/Upload/Archive.antt =====
-- `extractZip`: what it makes and writes, and where. A path is the list of its segments, the last
-- first; the name of a zip entry is the list of its segments, split at '/'.
use serverless.Base.{
  String, Bool, true, false, not, ◌&&◌, ◌||◌, List, [], ◌∷◌, ◌++◌, Option, none, some, str_eq,
  if◌then◌else◌,
}

abbrev pub parent : List String → List String
parent [] = []
parent (s ∷ path) = path

-- `filepath.Join`, which cleans: an empty segment or "." is dropped, and ".." takes one back.
unfoldable pub join_clean : List String → List String → List String
join_clean path [] = path
join_clean path (s ∷ name) =
    let same = join_clean path name in
    let up = join_clean (parent path) name in
    let down = join_clean (s ∷ path) name in
    if str_eq s "" || str_eq s "." then same else if str_eq s ".." then up else down

abbrev pub same_path : List String → List String → Bool
same_path [] [] = true
same_path [] (t ∷ q) = false
same_path (s ∷ p) [] = false
same_path (s ∷ p) (t ∷ q) = str_eq s t && same_path p q

-- The path is the root or begins with it and a separator.
unfoldable pub is_inside : List String → List String → Bool
is_inside root [] = same_path [] root
is_inside root (s ∷ path) = let up = is_inside root path in same_path (s ∷ path) root || up

-- An entry of the archive, with what the file system and the archive answer.
pub record Entry : Type 0 where
  pub name : List String
  pub is_dir : Bool
  pub makes_dir : Bool
  pub opens : Bool
  pub creates : Bool
  pub copies : Bool
  pub closes : Bool

-- A directory that is made with its parents, or a file that is created.
pub data Change : Type 0 where
  makes : List String → Change
  writes : List String → Change

pub data ZipError : Type 0 where
  unreadable escapes make_failed open_failed create_failed copy_failed close_failed : ZipError

unfoldable pub extract_file : Entry → List String → Option ZipError × List Change
extract_file f target =
    if not f.makes_dir
    then (some make_failed, [])
    else if not f.opens
    then (some open_failed, makes (parent target) ∷ [])
    else if not f.creates
    then (some create_failed, makes (parent target) ∷ [])
    else (
      if not f.copies then some copy_failed else if not f.closes then some close_failed else none,
      makes (parent target) ∷ writes target ∷ [],
    )

-- The body of the loop.
unfoldable pub extract_entry : List String → Entry → Option ZipError × List Change
unfolding join_clean is_inside extract_file
extract_entry root f =
    let target = join_clean root f.name in
    if not (is_inside root target)
    then (some escapes, [])
    else if f.is_dir
    then (if f.makes_dir then (none, makes target ∷ []) else (some make_failed, []))
    else extract_file f target

unfoldable pub extract_from : List String → List Entry → Option ZipError × List Change
unfolding extract_entry
extract_from root [] = (none, [])
extract_from root (f ∷ files) =
    let now = extract_entry root f in
    let later = extract_from root files in
    elim now.0 [ some e ↦ (some e, now.1) | none ↦ (later.0, now.1 ++ later.1) ]

unfoldable pub extract_zip : List String → Option (List Entry) → Option ZipError × List Change
unfolding extract_from
extract_zip root none = (some unreadable, [])
extract_zip root (some files) = extract_from root files

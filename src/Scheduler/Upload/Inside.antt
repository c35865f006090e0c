-- ===== src/Scheduler/Upload/Inside.antt =====
-- `extractZip` stays inside the directory, and does what the archive means.
use serverless.Base.{
  ◌≡◌, refl, sym, ap, subst, ◌⊎◌, inl, inr, String, true, List, [], ◌∷◌, ◌++◌, Option, none, some,
  eq_iff, All, All-append, if◌then◌else◌, arith, Bool-cases,
}
use serverless.Scheduler.Upload.Archive.{
  parent, join_clean, same_path, is_inside, Entry, Change, makes, writes, ZipError, escapes,
  make_failed, open_failed, create_failed, extract_file, extract_entry, extract_from, extract_zip,
}

-- A file is created below the root, and a directory made there; or the root's parent is, which is
-- there already.
abbrev pub Safe : List String → Change → Type 0
Safe root (writes path) = (front : List String) × (path ≡ front ++ root)
Safe root (makes path) = ((front : List String) × (path ≡ front ++ root)) ⊎ (path ≡ parent root)

same_path_sound : (p q : List String) → same_path p q ≡ true → p ≡ q
same_path_sound [] [] h = refl
same_path_sound [] (t ∷ q) h = cc
same_path_sound (s ∷ p) [] h = cc
same_path_sound (s ∷ p) (t ∷ q) h = ground (arith, h, eq_iff s t, same_path_sound p q)

is_inside_sound :
    (root path : List String)
    → is_inside root path ≡ true
    → (front : List String) × (path ≡ front ++ root)
unfolding is_inside
is_inside_sound root [] h = ([], same_path_sound [] root h)
is_inside_sound root (s ∷ path) h = elim (Bool-cases (same_path (s ∷ path) root)) [
  | inl e ↦ ([], same_path_sound (s ∷ path) root e)
  | inr e ↦
      let (front, k) = is_inside_sound root path (ground (arith, h, e)) in
      (s ∷ front, ap (λ p. s ∷ p) k)
]

parent-Safe :
    (root path : List String)
    → (front : List String) × (path ≡ front ++ root)
    → Safe root (makes (parent path))
parent-Safe root path ([], e) = inr (ap parent e)
parent-Safe root path (s ∷ front, e) = inl (front, ap parent e)

-- What an entry stands for.
unfoldable pub meant : List String → Entry → List Change
unfolding join_clean
meant root f =
    let target = join_clean root f.name in
    if f.is_dir then makes target ∷ [] else makes (parent target) ∷ writes target ∷ []

abbrev pub all_meant : List String → List Entry → List Change
all_meant root [] = []
all_meant root (f ∷ files) = meant root f ++ all_meant root files

abbrev pub Extracted : List String → List Change → Option ZipError × List Change → Type 0
Extracted root whole (error, changes) = All (Safe root) changes × (error ≡ none → changes ≡ whole)

extract_file-Extracted :
    (root : List String) (f : Entry) (target : List String)
    → (front : List String) × (target ≡ front ++ root)
    → Extracted root (makes (parent target) ∷ writes target ∷ []) (extract_file f target)
unfolding extract_file
extract_file-Extracted root f target inside =
    let up = parent-Safe root target inside in
    elim (Bool-cases f.makes_dir) [
      | inr e ↦
          let step : extract_file f target ≡ (some make_failed, []) = rw (extract_file, e) refl in
          subst (Extracted root _) (sym step) (tt, λ h. cc)
      | inl e ↦ elim (Bool-cases f.opens) [
        | inr o ↦
            let step : extract_file f target ≡ (some open_failed, makes (parent target) ∷ []) =
              rw (extract_file, e, o) refl in
            subst (Extracted root _) (sym step) ((up, tt), λ h. cc)
        | inl o ↦ elim (Bool-cases f.creates) [
          | inr c ↦
              let step : extract_file f target ≡ (some create_failed, makes (parent target) ∷ []) =
                rw (extract_file, e, o, c) refl in
              subst (Extracted root _) (sym step) ((up, tt), λ h. cc)
          | inl c ↦
              let step : (extract_file f target).1 ≡ makes (parent target) ∷ writes target ∷ [] =
                rw (extract_file, e, o, c) refl in
              (subst (All (Safe root)) (sym step) (up, (inside, tt)), λ h. step)
        ]
      ]
    ]

extract_entry-Extracted :
    (root : List String) (f : Entry) → Extracted root (meant root f) (extract_entry root f)
unfolding extract_entry meant
extract_entry-Extracted root f =
    let target = join_clean root f.name in
    elim (Bool-cases (is_inside root target)) [
      | inr e ↦
          let step : extract_entry root f ≡ (some escapes, []) = rw (extract_entry, e) refl in
          subst (Extracted root _) (sym step) (tt, λ h. cc)
      | inl e ↦
          let inside = is_inside_sound root target e in
          elim (Bool-cases f.is_dir) [
            | inl d ↦
                let same : meant root f ≡ makes target ∷ [] = rw (meant, d) refl in
                elim (Bool-cases f.makes_dir) [
                  | inl m ↦
                      let step : extract_entry root f ≡ (none, makes target ∷ []) =
                        rw (extract_entry, e, d, m) refl in
                      subst (Extracted root _) (sym step) ((inl inside, tt), λ h. sym same)
                  | inr m ↦
                      let step : extract_entry root f ≡ (some make_failed, []) =
                        rw (extract_entry, e, d, m) refl in
                      subst (Extracted root _) (sym step) (tt, λ h. cc)
                ]
            | inr d ↦
                let step : extract_entry root f ≡ extract_file f target =
                  rw (extract_entry, e, d) refl in
                let same : meant root f ≡ makes (parent target) ∷ writes target ∷ [] =
                  rw (meant, d) refl in
                subst (Extracted root (meant root f)) (sym step) (
                  subst (λ w. Extracted root w (extract_file f target)) (sym same)
                    (extract_file-Extracted root f target inside))
          ]
    ]

Extracted-then :
    (root : List String) (f : Entry) (files : List Entry) (error : Option ZipError)
    (changes : List Change)
    → Extracted root (meant root f) (error, changes)
    → Extracted root (all_meant root files) (extract_from root files)
    → Extracted root (all_meant root (f ∷ files)) (elim error [
      | some e ↦ (some e, changes)
      | none ↦ ((extract_from root files).0, changes ++ (extract_from root files).1)
    ])
Extracted-then root f files (some e) changes (safe, k) (safe', k') = (safe, λ h. cc)
Extracted-then root f files none changes (safe, k) (safe', k') =
    (All-append (Safe root) changes _ safe safe', λ h. rw (k refl, k' h) refl)

extract_from-Extracted :
    (root : List String) (files : List Entry)
    → Extracted root (all_meant root files) (extract_from root files)
unfolding extract_from
extract_from-Extracted root [] = (tt, λ h. refl)
extract_from-Extracted root (f ∷ files) =
    let now = extract_entry root f in
    Extracted-then root f files now.0 now.1 (extract_entry-Extracted root f)
      (extract_from-Extracted root files)

-- Whatever the names in an archive are, and whatever fails, every file that `extractZip` creates and
-- every directory that it makes lies in the given directory, except for the parent of the directory
-- itself, which exists; and without an error it has made the directory or written the file of every
-- entry, in their order.
pub extract_zip-Extracted :
    (root : List String) (files : List Entry)
    → Extracted root (all_meant root files) (extract_zip root (some files))
unfolding extract_zip
extract_zip-Extracted root files = extract_from-Extracted root files

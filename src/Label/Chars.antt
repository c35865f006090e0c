-- ===== src/Label/Chars.antt =====
-- Character classes, and `strings.Trim`, `TrimLeft` and `TrimRight` at the cutset "-".
use serverless.Base.{
  ℕ, ◌≡◌, refl, Bool, true, false, not, ◌&&◌, ◌||◌, List, [], ◌∷◌, zero, suc, ◌≤◌, arith, leb, ◌==◌,
  if◌then◌else◌, length, take, All, ◌≢◌,
}

abbrev pub dash : ℕ
dash = b'-'

-- 'a'..'z' and '0'..'9'
abbrev pub is_alnum : ℕ → Bool
is_alnum c = (leb b'a' c && leb c b'z') || (leb b'0' c && leb c b'9')

abbrev pub is_label_char : ℕ → Bool
is_label_char c = is_alnum c || c == dash

abbrev pub LabelChars : List ℕ → Type 0
LabelChars = All (λ c. is_label_char c ≡ true)

-- The text is not empty and does not begin with a dash.
abbrev pub starts_plain : List ℕ → Bool
starts_plain [] = false
starts_plain (c ∷ s) = not (c == dash)

-- The text does not end with a dash.
abbrev pub ends_plain : List ℕ → Bool
ends_plain [] = true
ends_plain (c ∷ []) = not (c == dash)
ends_plain (c ∷ d ∷ s) = ends_plain (d ∷ s)

unfoldable pub trim_left : List ℕ → List ℕ
trim_left [] = []
trim_left (c ∷ s) = let rest = trim_left s in if c == dash then rest else c ∷ s

abbrev pub cons_trimmed : ℕ → List ℕ → List ℕ
cons_trimmed c [] = if c == dash then [] else c ∷ []
cons_trimmed c (d ∷ s) = c ∷ d ∷ s

unfoldable pub trim_right : List ℕ → List ℕ
trim_right [] = []
trim_right (c ∷ s) = cons_trimmed c (trim_right s)

unfoldable pub trim : List ℕ → List ℕ
unfolding trim_left trim_right
trim s = trim_right (trim_left s)

pub trim_left-LabelChars : (s : List ℕ) → LabelChars s → LabelChars (trim_left s)
unfolding trim_left
trim_left-LabelChars [] h = tt
trim_left-LabelChars (c ∷ s) h = ground (arith, trim_left-LabelChars s h.1)

pub trim_left_starts : (s : List ℕ) → (trim_left s ≢ []) → starts_plain (trim_left s) ≡ true
unfolding trim_left
trim_left_starts [] h = absurd (h refl)
trim_left_starts (c ∷ s) h = ground (arith, trim_left_starts s)

pub trim_left_id : (s : List ℕ) → starts_plain s ≡ true → trim_left s ≡ s
unfolding trim_left
trim_left_id [] h = refl
trim_left_id (c ∷ s) h = ground arith

cons_trimmed-LabelChars :
    (c : ℕ) (s : List ℕ) → is_label_char c ≡ true → LabelChars s → LabelChars (cons_trimmed c s)
cons_trimmed-LabelChars c [] h k = ground arith
cons_trimmed-LabelChars c (d ∷ s) h k = (h, k)

pub trim_right-LabelChars : (s : List ℕ) → LabelChars s → LabelChars (trim_right s)
unfolding trim_right
trim_right-LabelChars [] h = tt
trim_right-LabelChars (c ∷ s) h =
    cons_trimmed-LabelChars c (trim_right s) h.0 (trim_right-LabelChars s h.1)

cons_trimmed_ends :
    (c : ℕ) (s : List ℕ) → ends_plain s ≡ true → ends_plain (cons_trimmed c s) ≡ true
cons_trimmed_ends c [] h = ground arith
cons_trimmed_ends c (d ∷ s) h = h

pub trim_right_ends : (s : List ℕ) → ends_plain (trim_right s) ≡ true
unfolding trim_right
trim_right_ends [] = refl
trim_right_ends (c ∷ s) = cons_trimmed_ends c (trim_right s) (trim_right_ends s)

cons_trimmed_starts :
    (c : ℕ) (s : List ℕ) → (c == dash) ≡ false → starts_plain (cons_trimmed c s) ≡ true
cons_trimmed_starts c [] h = ground arith
cons_trimmed_starts c (d ∷ s) h = ground arith

pub trim_right_starts : (s : List ℕ) → starts_plain s ≡ true → starts_plain (trim_right s) ≡ true
unfolding trim_right
trim_right_starts [] h = h
trim_right_starts (c ∷ s) h = cons_trimmed_starts c (trim_right s) (ground arith)

pub trim_right_id : (s : List ℕ) → ends_plain s ≡ true → trim_right s ≡ s
unfolding trim_right
trim_right_id [] h = refl
trim_right_id (c ∷ []) h = ground arith
trim_right_id (c ∷ d ∷ s) h = rw (trim_right_id (d ∷ s) h)

cons_trimmed-length : (c : ℕ) (s : List ℕ) → length (cons_trimmed c s) ≤ suc (length s)
cons_trimmed-length c [] = ground arith
cons_trimmed-length c (d ∷ s) = omega arith

pub length-trim_right : (s : List ℕ) → length (trim_right s) ≤ length s
unfolding trim_right
length-trim_right [] = omega arith
length-trim_right (c ∷ s) = omega (arith, length-trim_right s, cons_trimmed-length c (trim_right s))

pub take-LabelChars : (n : ℕ) (s : List ℕ) → LabelChars s → LabelChars (take n s)
take-LabelChars zero s h = tt
take-LabelChars (suc n) [] h = tt
take-LabelChars (suc n) (c ∷ s) h = (h.0, take-LabelChars n s h.1)

pub take_starts :
    (n : ℕ) (s : List ℕ) → starts_plain s ≡ true → starts_plain (take (suc n) s) ≡ true
take_starts n [] h = h
take_starts n (c ∷ s) h = h

-- ===== src/Label/Gateway.antt =====
-- gateway/scheduler/k8s_backend.go: `dnsLabelRE` and `dnsLabel`; scheduler.go:
-- `isValidFunctionName`. `lower` is `unicode.ToLower`, of which only its documented fixed points
-- are used: lower-case ASCII letters, digits and the dash.
use serverless.Base.{
  ℕ, ◌≡◌, refl, ◌↔◌, ◌≢◌, Bool, true, false, not, ◌&&◌, List, [], ◌∷◌, map, ◌≤◌, arith, ltb, ◌==◌,
  if◌then◌else◌, length, take, length-take, Bool-cases, inl, inr, sym, subst,
}
use serverless.Label.Chars.{
  dash, is_label_char, LabelChars, starts_plain, ends_plain, trim_left, trim_right, trim,
  trim_left-LabelChars, trim_left_starts, trim_left_id, trim_right-LabelChars, trim_right_ends,
  trim_right_starts, trim_right_id, length-trim_right, take-LabelChars, take_starts,
}

-- `ReplaceAllString` of `[^a-z0-9-]+` by "-": each maximal run becomes one dash. The flag says
-- that the run began before this character.
unfoldable pub replace_runs : Bool → List ℕ → List ℕ
replace_runs in_run [] = []
replace_runs in_run (c ∷ s) =
    let rest = replace_runs (not (is_label_char c)) s in
    if is_label_char c then c ∷ rest else if in_run then rest else dash ∷ rest

abbrev pub or_fn : List ℕ → List ℕ
or_fn [] = b'f' ∷ b'n' ∷ []
or_fn (c ∷ s) = c ∷ s

unfoldable pub truncate : List ℕ → List ℕ
unfolding trim
truncate s = if ltb 40 (length s) then trim (take 40 s) else s

unfoldable pub dns_label : (ℕ → ℕ) → List ℕ → List ℕ
unfolding replace_runs trim truncate
dns_label lower s = truncate (or_fn (trim (replace_runs false (map lower s))))

abbrev pub text_eq : List ℕ → List ℕ → Bool
text_eq [] [] = true
text_eq [] (d ∷ t) = false
text_eq (c ∷ s) [] = false
text_eq (c ∷ s) (d ∷ t) = c == d && text_eq s t

unfoldable pub is_valid_function_name : (ℕ → ℕ) → List ℕ → Bool
is_valid_function_name lower name = text_eq name (dns_label lower name)

-- A label: only label characters, from one to forty of them, no dash at either end.
pub record IsLabel (s : List ℕ) : Type 0 where
  pub chars : LabelChars s
  pub starts : starts_plain s ≡ true
  pub ends : ends_plain s ≡ true
  pub short : length s ≤ 40

pub text_eq_sound : (s t : List ℕ) → text_eq s t ≡ true → s ≡ t
text_eq_sound [] [] h = refl
text_eq_sound [] (d ∷ t) h = cc
text_eq_sound (c ∷ s) [] h = cc
text_eq_sound (c ∷ s) (d ∷ t) h = ground (arith, text_eq_sound s t)

pub text_eq_refl : (s : List ℕ) → text_eq s s ≡ true
text_eq_refl [] = refl
text_eq_refl (c ∷ s) = ground (arith, text_eq_refl s)

replace_runs-LabelChars : (r : Bool) (s : List ℕ) → LabelChars (replace_runs r s)
unfolding replace_runs
replace_runs-LabelChars r [] = tt
replace_runs-LabelChars r (c ∷ s) = elim (Bool-cases (is_label_char c)) [
  | inl e ↦ rw e (e, replace_runs-LabelChars false s)
  | inr e ↦ rw e (ground (arith, replace_runs-LabelChars true s))
]

replace_runs_id : (r : Bool) (s : List ℕ) → LabelChars s → replace_runs r s ≡ s
unfolding replace_runs
replace_runs_id r [] h = refl
replace_runs_id r (c ∷ s) h = rw (h.0, replace_runs_id false s h.1)

-- A label of any length.
abbrev Plain : List ℕ → Type 0
Plain s = LabelChars s × (starts_plain s ≡ true) × (ends_plain s ≡ true)

or_fn_id : (s : List ℕ) → starts_plain s ≡ true → or_fn s ≡ s
or_fn_id [] h = cc
or_fn_id (c ∷ s) h = refl

or_fn-trim_right :
    (s : List ℕ) → LabelChars s → (s ≢ [] → starts_plain s ≡ true) → Plain (or_fn (trim_right s))
unfolding trim_right
or_fn-trim_right [] h k = ((refl, (refl, tt)), refl, refl)
or_fn-trim_right (c ∷ s) h k =
    let starts = trim_right_starts (c ∷ s) (k (λ e. cc)) in
    rw (or_fn_id (trim_right (c ∷ s)) starts)
      (trim_right-LabelChars (c ∷ s) h, starts, trim_right_ends (c ∷ s))

or_fn-trim-Plain : (s : List ℕ) → LabelChars s → Plain (or_fn (trim s))
unfolding trim
or_fn-trim-Plain s h =
    or_fn-trim_right (trim_left s) (trim_left-LabelChars s h) (trim_left_starts s)

trim-take-IsLabel : (s : List ℕ) → Plain s → IsLabel (trim (take 40 s))
unfolding trim
trim-take-IsLabel s (chars, starts, ends) =
    let t = take 40 s in
    let e = trim_left_id t (take_starts 39 s starts) in
    rw e (record {
      chars = trim_right-LabelChars t (take-LabelChars 40 s chars);
      starts = trim_right_starts t (take_starts 39 s starts);
      ends = trim_right_ends t;
      short = omega (arith, length-trim_right t, length-take 40 s);
    })

truncate-IsLabel : (s : List ℕ) → Plain s → IsLabel (truncate s)
unfolding truncate
truncate-IsLabel s h = elim (Bool-cases (ltb 40 (length s))) [
  | inl e ↦ rw e (trim-take-IsLabel s h)
  | inr e ↦ rw e (record { chars = h.0; starts = h.1; ends = h.2; short = ground arith })
]

-- Whatever the text, `dnsLabel` returns a label: from one to forty characters from a-z, 0-9 and
-- the dash, with no dash at either end.
pub dns_label-IsLabel : (lower : ℕ → ℕ) (s : List ℕ) → IsLabel (dns_label lower s)
unfolding dns_label
dns_label-IsLabel lower s =
    truncate-IsLabel _ (or_fn-trim-Plain _ (replace_runs-LabelChars false (map lower s)))

module _ (lower : ℕ → ℕ) (lower_fixes : (c : ℕ) → is_label_char c ≡ true → lower c ≡ c) where
  pub map-lower_id : (s : List ℕ) → LabelChars s → map lower s ≡ s
  map-lower_id [] h = refl
  map-lower_id (c ∷ s) h = rw (lower_fixes c h.0, map-lower_id s h.1)

  pub dns_label_id : (s : List ℕ) → IsLabel s → dns_label lower s ≡ s
  unfolding dns_label
  dns_label_id s v =
      rw
        (
          map-lower_id s v.chars,
          replace_runs_id false s v.chars,
          trim_left_id s v.starts,
          trim_right_id s v.ends,
          or_fn_id s v.starts,
        )
        (ground arith)

  pub text_eq-dns_label_iff : (s : List ℕ) → (text_eq s (dns_label lower s) ≡ true) ↔ IsLabel s
  text_eq-dns_label_iff s = (
    λ h. subst IsLabel (sym (text_eq_sound s _ h)) (dns_label-IsLabel lower s),
    λ v. rw (dns_label_id s v) (text_eq_refl s),
  )

  -- `isValidFunctionName` accepts exactly the labels, if lower-casing leaves the characters of a
  -- label alone.
  pub is_valid_function_name_iff :
      (name : List ℕ) → (is_valid_function_name lower name ≡ true) ↔ IsLabel name
  unfolding is_valid_function_name
  is_valid_function_name_iff name = text_eq-dns_label_iff name

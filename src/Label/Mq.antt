-- ===== src/Label/Mq.antt =====
-- mqsvc/config.go: `dnsLabel` and `isDNSLabel`.
use serverless.Base.{
  ℕ, ◌≡◌, refl, Bool, true, false, not, ◌&&◌, ◌||◌, List, [], ◌∷◌, map, zero, suc, ◌≤◌, arith, ltb,
  ◌==◌, if◌then◌else◌, length, take, length-take, Bool-cases, inl, inr, ◌⊎◌, ◌≢◌, all, ◌↔◌, sym,
  subst,
}
use serverless.Label.Chars.{
  dash, is_alnum, is_label_char, LabelChars, starts_plain, ends_plain, trim_left, trim_right, trim,
  cons_trimmed, trim_left-LabelChars, trim_left_starts, trim_left_id, trim_right-LabelChars,
  trim_right_ends, trim_right_starts, trim_right_id, length-trim_right, take-LabelChars,
}
use serverless.Label.Gateway.{
  text_eq, text_eq_sound, text_eq_refl, map-lower_id, is_valid_function_name,
  is_valid_function_name_iff,
}

-- The loop over the runes: `started` is `b.Len() > 0`, `last` is `lastDash`.
unfoldable pub write_runes : Bool → Bool → List ℕ → List ℕ
write_runes started last [] = []
write_runes started last (c ∷ s) =
    let ok = is_alnum c in
    let joins = c == dash && started && not last in
    let rest = write_runes (started || ok || joins) (not ok && (joins || last)) s in
    if ok || joins then c ∷ rest else rest

unfoldable pub cut : List ℕ → List ℕ
unfolding trim_right
cut s = if ltb 63 (length s) then trim_right (take 63 s) else s

unfoldable pub dns_label : (ℕ → ℕ) → List ℕ → List ℕ
unfolding write_runes trim cut
dns_label lower s = cut (trim (write_runes false false (map lower s)))

unfoldable pub is_dns_label : List ℕ → Bool
is_dns_label s =
    if not (starts_plain s) || ltb 63 (length s) || not (ends_plain s)
    then false
    else all is_label_char s

-- The test on a trigger's id in `validateConfig`: not empty, and its own label.
unfoldable pub is_trigger_id : (ℕ → ℕ) → List ℕ → Bool
unfolding dns_label
is_trigger_id lower s = not (text_eq s []) && text_eq s (dns_label lower s)

write_runes-LabelChars : (b l : Bool) (s : List ℕ) → LabelChars (write_runes b l s)
unfolding write_runes
write_runes-LabelChars b l [] = tt
write_runes-LabelChars b l (c ∷ s) = ground (
  arith,
  write_runes-LabelChars (b || is_alnum c || (c == dash && b && not l))
      (not (is_alnum c) && ((c == dash && b && not l) || l)) s,
)

-- No dash follows a dash; the flag says that the character before was one.
abbrev pub spaced : Bool → List ℕ → Bool
spaced after_dash [] = true
spaced after_dash (c ∷ s) = if c == dash then not after_dash && spaced true s else spaced false s

spaced_weaken : (l : Bool) (s : List ℕ) → spaced l s ≡ true → spaced false s ≡ true
spaced_weaken l [] h = refl
spaced_weaken l (c ∷ s) h = ground arith

write_runes-spaced : (b l : Bool) (s : List ℕ) → spaced l (write_runes b l s) ≡ true
unfolding write_runes
write_runes-spaced b l [] = refl
write_runes-spaced b l (c ∷ s) = ground (
  arith,
  write_runes-spaced (b || is_alnum c || (c == dash && b && not l))
      (not (is_alnum c) && ((c == dash && b && not l) || l)) s,
)

trim_left-spaced : (l : Bool) (s : List ℕ) → spaced l s ≡ true → spaced false (trim_left s) ≡ true
unfolding trim_left
trim_left-spaced l [] h = refl
trim_left-spaced l (c ∷ s) h =
    ground (arith, trim_left-spaced true s, trim_left-spaced false s, spaced_weaken l (c ∷ s) h)

cons_trimmed-spaced :
    (l : Bool) (c : ℕ) (s : List ℕ) → spaced l (c ∷ s) ≡ true → spaced l (cons_trimmed c s) ≡ true
cons_trimmed-spaced l c [] h = ground arith
cons_trimmed-spaced l c (d ∷ s) h = h

trim_right-spaced : (l : Bool) (s : List ℕ) → spaced l s ≡ true → spaced l (trim_right s) ≡ true
unfolding trim_right
trim_right-spaced l [] h = refl
trim_right-spaced l (c ∷ s) h =
    cons_trimmed-spaced l c (trim_right s)
      (ground (arith, trim_right-spaced true s, trim_right-spaced false s))

take-spaced : (n : ℕ) (l : Bool) (s : List ℕ) → spaced l s ≡ true → spaced l (take n s) ≡ true
take-spaced zero l s h = refl
take-spaced (suc n) l [] h = refl
take-spaced (suc n) l (c ∷ s) h = ground (arith, take-spaced n true s, take-spaced n false s)

write_runes_on :
    (l : Bool) (s : List ℕ) → LabelChars s → spaced l s ≡ true → write_runes true l s ≡ s
unfolding write_runes
write_runes_on l [] h k = refl
write_runes_on l (c ∷ s) h k = ground (arith, write_runes_on true s h.1, write_runes_on false s h.1)

write_runes_id :
    (s : List ℕ)
    → LabelChars s
    → starts_plain s ≡ true
    → spaced false s ≡ true
    → write_runes false false s ≡ s
unfolding write_runes
write_runes_id [] h p k = refl
write_runes_id (c ∷ s) h p k = ground (arith, write_runes_on false s h.1)

-- What the mqsvc side takes for an id.
pub record IsTriggerId (s : List ℕ) : Type 0 where
  pub chars : LabelChars s
  pub starts : starts_plain s ≡ true
  pub ends : ends_plain s ≡ true
  pub single : spaced false s ≡ true
  pub short : length s ≤ 63

-- The result is empty or an id.
abbrev Result : List ℕ → Type 0
Result s = (s ≡ []) ⊎ IsTriggerId s

trim_right-Result :
    (s : List ℕ)
    → LabelChars s
    → (s ≢ [] → starts_plain s ≡ true)
    → spaced false s ≡ true
    → length s ≤ 63
    → Result (trim_right s)
unfolding trim_right
trim_right-Result [] chars starts single short = inl refl
trim_right-Result (c ∷ s) chars starts single short = inr (record {
  chars = trim_right-LabelChars (c ∷ s) chars;
  starts = trim_right_starts (c ∷ s) (starts (λ e. cc));
  ends = trim_right_ends (c ∷ s);
  single = trim_right-spaced false (c ∷ s) single;
  short = omega (arith, length-trim_right (c ∷ s));
})

take_cons_starts :
    (n : ℕ) (s : List ℕ)
    → (s ≢ [] → starts_plain s ≡ true)
    → take (suc n) s ≢ []
    → starts_plain (take (suc n) s) ≡ true
take_cons_starts n [] h k = absurd (k refl)
take_cons_starts n (c ∷ s) h k = h (λ e. cc)

trim_right_starts_of :
    (s : List ℕ)
    → (s ≢ [] → starts_plain s ≡ true)
    → trim_right s ≢ []
    → starts_plain (trim_right s) ≡ true
unfolding trim_right
trim_right_starts_of [] h k = absurd (k refl)
trim_right_starts_of (c ∷ s) h k = trim_right_starts (c ∷ s) (h (λ e. cc))

-- `cut` after a trim.
cut-Result :
    (s : List ℕ)
    → LabelChars s
    → (s ≢ [] → starts_plain s ≡ true)
    → spaced false s ≡ true
    → Result (cut (trim_right s))
unfolding cut
cut-Result s chars starts single =
    let t = trim_right s in
    let t-chars = trim_right-LabelChars s chars in
    let t-starts = trim_right_starts_of s starts in
    let t-single = trim_right-spaced false s single in
    elim (Bool-cases (ltb 63 (length t))) [
      | inl e ↦ rw e (
          trim_right-Result (take 63 t) (take-LabelChars 63 t t-chars)
            (take_cons_starts 62 t t-starts) (take-spaced 63 false t t-single)
            (omega (arith, length-take 63 t)))
      | inr e ↦
          rw (e, ← trim_right_id t (trim_right_ends s))
            (trim_right-Result t t-chars t-starts t-single (ground arith))
    ]

pub dns_label-Result : (lower : ℕ → ℕ) (s : List ℕ) → Result (dns_label lower s)
unfolding dns_label
dns_label-Result lower s =
    let w = write_runes false false (map lower s) in
    let chars = write_runes-LabelChars false false (map lower s) in
    let single = write_runes-spaced false false (map lower s) in
    cut-Result (trim_left w) (trim_left-LabelChars w chars) (trim_left_starts w)
      (trim_left-spaced false w single)

cut_id : (s : List ℕ) → length s ≤ 63 → cut s ≡ s
unfolding cut
cut_id s h = ground arith

all-LabelChars : (s : List ℕ) → LabelChars s → all is_label_char s ≡ true
all-LabelChars [] h = refl
all-LabelChars (c ∷ s) h = rw (h.0, all-LabelChars s h.1)

IsTriggerId-is_dns_label : (s : List ℕ) → IsTriggerId s → is_dns_label s ≡ true
unfolding is_dns_label
IsTriggerId-is_dns_label s v = rw (v.starts, v.ends, all-LabelChars s v.chars) (ground arith)

module _ (lower : ℕ → ℕ) (lower_fixes : (c : ℕ) → is_label_char c ≡ true → lower c ≡ c) where
  dns_label_id : (s : List ℕ) → IsTriggerId s → dns_label lower s ≡ s
  unfolding dns_label
  dns_label_id s v =
      rw
        (
          map-lower_id lower lower_fixes s v.chars,
          write_runes_id s v.chars v.starts v.single,
          trim_left_id s v.starts,
          trim_right_id s v.ends,
        )
        (cut_id s v.short)

  not_empty : (s : List ℕ) → starts_plain s ≡ true → text_eq s [] ≡ false
  not_empty [] h = cc
  not_empty (c ∷ s) h = refl

  -- `validateConfig` accepts as a trigger's id exactly the texts of one to 63 characters from a-z,
  -- 0-9 and the dash with no dash at either end and no two dashes in a row, if lower-casing leaves
  -- those characters alone.
  pub is_trigger_id_iff : (s : List ℕ) → (is_trigger_id lower s ≡ true) ↔ IsTriggerId s
  unfolding is_trigger_id
  is_trigger_id_iff s = (
    λ h. elim (dns_label-Result lower s) [
      | inl e ↦ ground (arith, text_eq_sound s (dns_label lower s))
      | inr v ↦ subst IsTriggerId (sym (text_eq_sound s _ (ground arith))) v
    ],
    λ v. rw (dns_label_id s v, not_empty s v.starts, text_eq_refl s),
  )

  -- A function name that the gateway accepts is a trigger id for mqsvc exactly if no two of its
  -- dashes stand side by side.
  pub is_trigger_id_of_valid :
      (s : List ℕ)
      → is_valid_function_name lower s ≡ true
      → (is_trigger_id lower s ≡ true) ↔ (spaced false s ≡ true)
  is_trigger_id_of_valid s h =
      let v = (is_valid_function_name_iff lower lower_fixes s).0 h in
      (
        λ k. ((is_trigger_id_iff s).0 k).single,
        λ k. (is_trigger_id_iff s).1 (record {
          chars = v.chars;
          starts = v.starts;
          ends = v.ends;
          single = k;
          short = omega (arith, v.short);
        }),
      )

  -- What passes as a trigger's id passes `isDNSLabel`, which a trigger's function must.
  pub is_dns_label_of_id : (s : List ℕ) → is_trigger_id lower s ≡ true → is_dns_label s ≡ true
  is_dns_label_of_id s h = IsTriggerId-is_dns_label s ((is_trigger_id_iff s).0 h)

-- ===== src/Logs/Recent.antt =====
-- A ring is the end of its history: the most recent lines, in their order.
use serverless.Base.{
  ℕ, zero, suc, ◌+◌, ◌-◌, ◌%◌, ◌≤◌, ◌<◌, ◌≡◌, refl, sym, ℤ, pos, leb_ℤ, ltb_ℤ, pos_part, true,
  false, ◌||◌, if◌then◌else◌, List, [], ◌∷◌, ◌++◌, min, some, get_elem?, get_elem?-append,
  get_elem?-length, length, length-append, last, drop, ◌==◌, arith, Bool-cases, Option-cases,
  eq_iff, append-nil, inl, inr, append_assoc, String, Dict, lookup, lookup-insert, str_eq, keep,
}
use serverless.Logs.Ring.{
  LogEntry, ring_size, Ring, new_ring, push, copy_from, tail, ring_for, write, local_entries,
}

-- The ring holds the last entries of the history: entry number `j` stands at `j % 1000`.
abbrev pub Holds : List LogEntry → Ring → Type 0
Holds history r =
    (r.head ≡ length history % ring_size)
    × (r.count ≡ min ring_size (length history))
    × ((j : ℕ)
        → j < length history
        → length history ≤ j + ring_size
        → get_elem? history j ≡ some (r.entries (j % ring_size)))

new_ring-Holds : Holds [] new_ring
new_ring-Holds = (refl, refl, λ j h k. absurd (omega (arith, h)))

push-Holds :
    (e : LogEntry) (history : List LogEntry) (r : Ring)
    → Holds history r
    → Holds (history ++ (e ∷ [])) (push e r)
unfolding push
push-Holds e history r (head, count, at) =
    let longer = length-append history (e ∷ []) in
    (
      omega (arith, longer, head),
      ground (arith, longer, count),
      λ j h k. elim (Bool-cases (j == length history)) [
        | inl same ↦
            let newest : j ≡ length history = ground arith in
            let slot : (j % ring_size) == r.head ≡ true = ground arith in
            rw (slot, newest) (get_elem?-length history [] e)
        | inr earlier ↦
            let slot : (j % ring_size) == r.head ≡ false = ground (arith, longer, head) in
            rw slot (
              get_elem?-append history (e ∷ []) j
                (at j (ground (arith, longer)) (omega (arith, longer, k))))
      ],
    )

drop_end {ℓ} : {A : Type ℓ} (xs : List A) (k : ℕ) → k ≡ length xs → drop k xs ≡ []
drop_end [] zero h = refl
drop_end [] (suc k) h = refl
drop_end (x ∷ xs) zero h = absurd (omega (arith, h))
drop_end (x ∷ xs) (suc k) h = drop_end xs k (omega (arith, h))

drop_step {ℓ} :
    {A : Type ℓ} (xs : List A) (k : ℕ) (a : A)
    → get_elem? xs k ≡ some a
    → drop k xs ≡ a ∷ drop (suc k) xs
drop_step [] k a h = cc
drop_step (x ∷ xs) zero a h = cc
drop_step (x ∷ xs) (suc k) a h = drop_step xs k a h

copy_from-drop :
    (history : List LogEntry) (entries : ℕ → LogEntry) (start i k left : ℕ)
    → k + left ≡ length history
    → ((j : ℕ)
        → j < left
        → get_elem? history (k + j) ≡ some (entries ((start + (i + j)) % ring_size)))
    → copy_from entries start i left ≡ drop k history
unfolding copy_from
copy_from-drop history entries start i k zero h f = sym (drop_end history k (omega (arith, h)))
copy_from-drop history entries start i k (suc left) h f =
    let here : k + 0 ≡ k = omega arith in
    let slot : i + 0 ≡ i = omega arith in
    let first = rw (here, slot) at (f 0 (omega arith)) in
    let rest = copy_from-drop history entries start (suc i) (suc k) left (omega (arith, h)) (λ j b.
      let shift : k + suc j ≡ suc k + j = omega arith in
      let turn : i + suc j ≡ suc i + j = omega arith in
      rw (shift, turn) at (f (suc j) (omega (arith, b)))) in
    rw (drop_step history k (entries ((start + i) % ring_size)) first, rest) refl

-- How many entries `tail` gives: those asked for, or all that are kept if the number is not positive
-- or too large.
abbrev pub wanted : ℤ → ℕ → ℕ
wanted n kept = if leb_ℤ n (pos 0) || ltb_ℤ (pos kept) n then kept else pos_part n

wanted_le : (n : ℤ) (kept : ℕ) → wanted n kept ≤ kept
wanted_le n kept = ground arith

copy_from-last :
    (m : ℕ) (history : List LogEntry) (r : Ring)
    → Holds history r
    → m ≤ min ring_size (length history)
    → copy_from r.entries ((r.head + ring_size - m) % ring_size) 0 m ≡ last m history
copy_from-last m history r (head, count, at) h =
    copy_from-drop history r.entries ((r.head + ring_size - m) % ring_size) 0 (length history - m) m
      (omega (arith, h))
      (λ j b.
        let slot : ((r.head + ring_size - m) % ring_size + (0 + j)) % ring_size
            ≡ (length history - m + j) % ring_size =
          omega (arith, head, h, b) in
        rw slot (at (length history - m + j) (omega (arith, h, b)) (omega (arith, h))))

tail-last :
    (n : ℤ) (history : List LogEntry) (r : Ring)
    → Holds history r
    → tail n r ≡ last (wanted n (min ring_size (length history))) history
unfolding tail
tail-last n history r (head, count, at) =
    let few = wanted_le n (min ring_size (length history)) in
    elim (Bool-cases (r.count == 0)) [
      | inl e ↦ rw (tail, e) (sym (drop_end history _ (ground (arith, count, few))))
      | inr e ↦ rw (tail, e, count) (copy_from-last _ history r (head, count, at) few)
    ]

-- The entries of one function, in the order of their writing.
abbrev pub history_of : String → List LogEntry → List LogEntry
history_of name es = keep (λ e. str_eq e.function name) es

unfoldable pub write_all : List LogEntry → Dict Ring → Dict Ring
unfolding write
write_all [] rings = rings
write_all (e ∷ es) rings = write_all es (write e rings)

write-lookup :
    (e : LogEntry) (name : String) (rings : Dict Ring)
    → ring_for name (write e rings)
      ≡ (if str_eq e.function name then push e (ring_for e.function rings) else ring_for name rings)
unfolding write
write-lookup e name rings =
    rw (ring_for, lookup-insert e.function name (push e (ring_for e.function rings)) rings)
      (elim (Bool-cases (str_eq e.function name)) [ inl h ↦ rw h refl | inr h ↦ rw h refl ])

write_all-Holds :
    (es : List LogEntry) (name : String) (rings : Dict Ring) (history : List LogEntry)
    → Holds history (ring_for name rings)
    → Holds (history ++ history_of name es) (ring_for name (write_all es rings))
unfolding write_all
write_all-Holds [] name rings history h = rw (append-nil history) h
write_all-Holds (e ∷ es) name rings history h = elim (Bool-cases (str_eq e.function name)) [
  | inl k ↦
      let same : e.function ≡ name = (eq_iff e.function name).0 k in
      let pushed : Holds (history ++ (e ∷ [])) (ring_for name (write e rings)) =
        rw (write-lookup e name rings, k)
          (push-Holds e history (ring_for e.function rings) (rw same h)) in
      rw (k, ← append_assoc history (e ∷ []) (history_of name es))
        (write_all-Holds es name (write e rings) (history ++ (e ∷ [])) pushed)
  | inr k ↦
      rw k (write_all-Holds es name (write e rings) history (rw (write-lookup e name rings, k) h))
]

local_entries-tail :
    (name : String) (n : ℤ) (filter_stream : String) (rings : Dict Ring)
    → let entries = tail n (ring_for name rings) in
      local_entries name n filter_stream rings ≡ (
        if str_eq filter_stream ""
        then entries
        else keep (λ e. str_eq e.stream filter_stream) entries)
unfolding local_entries tail
local_entries-tail name n filter_stream rings = elim (Option-cases (lookup name rings)) [
  | inl e ↦
      rw (local_entries, ring_for, e)
        (elim (Bool-cases (str_eq filter_stream "")) [ inl f ↦ rw f refl | inr f ↦ rw f refl ])
  | inr (r, e) ↦ rw (local_entries, ring_for, e) refl
]

-- After any sequence of writes, of this and of other functions, to a new daemon, the local entries
-- of a function, asked for `n` of them with a filter on the stream, are those of the stream (all of
-- them if the filter is empty) among the last entries written for that function, in their order: the
-- last `n`, or the last 1000, or as many as there are, if `n` is not positive or is more than these.
pub local_entries-last :
    (es : List LogEntry) (name : String) (n : ℤ) (filter_stream : String)
    → let history = history_of name es in
      let recent = last (wanted n (min ring_size (length history))) history in
      local_entries name n filter_stream (write_all es []) ≡ (
        if str_eq filter_stream ""
        then recent
        else keep (λ e. str_eq e.stream filter_stream) recent)
unfolding lookup
local_entries-last es name n filter_stream =
    let holds = write_all-Holds es name [] [] new_ring-Holds in
    rw
      (
        local_entries-tail name n filter_stream (write_all es []),
        tail-last n (history_of name es) (ring_for name (write_all es [])) holds,
      )
      refl

-- ===== src/Base/Sorting.antt =====
-- Sorting by a test for "less", as `sort.Float64s` and `sort.Slice` do; where they leave the order of
-- equal elements open, this sort keeps it.
use Prim.Native.Nat.{ℕ, zero, suc, ◌+◌, ◌≤◌, ◌<◌}
use mathlib.Core.Path.{◌≡◌, refl, subst}
use mathlib.Core.Logic.{inl, inr}
use mathlib.Core.Bool.{Bool, true, false, not}
use mathlib.Core.Option.{some}
use mathlib.Core.List.{List, [], ◌∷◌}
use native.Mathlib.Omega.{arith}
use serverless.Base.Tests.{if◌then◌else◌, Bool-cases}
use serverless.Base.Lists.{length, keep, get_elem?}

module _ {F : Type 0} (less : F → F → Bool) where
  unfoldable pub insert_by : F → List F → List F
  insert_by x [] = x ∷ []
  insert_by x (y ∷ ys) = let rest = insert_by x ys in if less y x then y ∷ rest else x ∷ y ∷ ys

  unfoldable pub sort_by : List F → List F
  unfolding insert_by
  sort_by [] = []
  sort_by (x ∷ xs) = insert_by x (sort_by xs)

-- `less` is a strict order, and its negation is transitive: as `<` is without NaN.
pub record IsLess {F : Type 0} (less : F → F → Bool) : Type 0 where
  pub asymmetric : (x y : F) → less x y ≡ true → less y x ≡ false
  pub transitive : (x y z : F) → less y x ≡ false → less z y ≡ false → less z x ≡ false

module _ {F : Type 0} (less : F → F → Bool) where
  -- x is at most every element.
  abbrev pub Below : F → List F → Type 0
  Below x [] = Unit {0}
  Below x (y ∷ ys) = (less y x ≡ false) × Below x ys

  abbrev pub Sorted : List F → Type 0
  Sorted [] = Unit {0}
  Sorted (x ∷ xs) = Below x xs × Sorted xs

  -- How many of the elements are at most x, and how many at least x.
  abbrev pub at_most : F → List F → ℕ
  at_most x xs = length (keep (λ y. not (less x y)) xs)

  abbrev pub at_least : F → List F → ℕ
  at_least x xs = length (keep (λ y. not (less y x)) xs)

  length-keep-insert_by :
      (p : F → Bool) (x : F) (xs : List F)
      → length (keep p (insert_by less x xs)) ≡ length (keep p (x ∷ xs))
  unfolding insert_by
  length-keep-insert_by p x [] = refl
  length-keep-insert_by p x (y ∷ xs) = ground (arith, length-keep-insert_by p x xs)

  pub length-keep-sort_by :
      (p : F → Bool) (xs : List F) → length (keep p (sort_by less xs)) ≡ length (keep p xs)
  unfolding sort_by
  length-keep-sort_by p [] = refl
  length-keep-sort_by p (x ∷ xs) =
      ground (arith, length-keep-insert_by p x (sort_by less xs), length-keep-sort_by p xs)

  length-insert_by : (x : F) (xs : List F) → length (insert_by less x xs) ≡ suc (length xs)
  unfolding insert_by
  length-insert_by x [] = refl
  length-insert_by x (y ∷ xs) = ground (arith, length-insert_by x xs)

  pub length-sort_by : (xs : List F) → length (sort_by less xs) ≡ length xs
  unfolding sort_by
  length-sort_by [] = refl
  length-sort_by (x ∷ xs) = omega (arith, length-insert_by x (sort_by less xs), length-sort_by xs)

  module _ (is_less : IsLess less) where
    Below-weaken : (x y : F) (xs : List F) → less y x ≡ false → Below y xs → Below x xs
    Below-weaken x y [] h b = tt
    Below-weaken x y (z ∷ xs) h b = (is_less.transitive x y z h b.0, Below-weaken x y xs h b.1)

    Below-insert_by :
        (x y : F) (ys : List F) → less y x ≡ false → Below x ys → Below x (insert_by less y ys)
    unfolding insert_by
    Below-insert_by x y [] h b = (h, tt)
    Below-insert_by x y (z ∷ ys) h b = ground (arith, h, b, Below-insert_by x y ys h b.1)

    Sorted-insert_by : (x : F) (xs : List F) → Sorted xs → Sorted (insert_by less x xs)
    unfolding insert_by
    Sorted-insert_by x [] s = (tt, tt)
    Sorted-insert_by x (y ∷ ys) s = elim (Bool-cases (less y x)) [
      | inl e ↦
          rw e (Below-insert_by y x ys (is_less.asymmetric y x e) s.0, Sorted-insert_by x ys s.1)
      | inr e ↦ rw e ((e, Below-weaken x y ys e s.0), s)
    ]

    pub Sorted-sort_by : (xs : List F) → Sorted (sort_by less xs)
    unfolding sort_by
    Sorted-sort_by [] = tt
    Sorted-sort_by (x ∷ xs) = Sorted-insert_by x (sort_by less xs) (Sorted-sort_by xs)

    Below-get_elem? :
        (x v : F) (xs : List F) (i : ℕ) → Below x xs → get_elem? xs i ≡ some v → less v x ≡ false
    Below-get_elem? x v [] i b e = ground (arith, e)
    Below-get_elem? x v (y ∷ xs) zero b e =
        let same : y ≡ v = ground (arith, e) in subst (λ z. less z x ≡ false) same b.0
    Below-get_elem? x v (y ∷ xs) (suc i) b e = Below-get_elem? x v xs i b.1 e

    irreflexive : (x : F) → less x x ≡ false
    irreflexive x = elim (Bool-cases (less x x)) [ inl e ↦ is_less.asymmetric x x e | inr e ↦ e ]

    Below-at_least : (x : F) (xs : List F) → Below x xs → at_least x xs ≡ length xs
    Below-at_least x [] b = refl
    Below-at_least x (y ∷ xs) b = rw (b.0, Below-at_least x xs b.1) refl

    -- In a sorted list, the element at an index has so many others below and above.
    pub Sorted-get_elem? :
        (xs : List F) (i : ℕ) (v : F)
        → Sorted xs
        → get_elem? xs i ≡ some v
        → (i < at_most v xs) × (length xs ≤ at_least v xs + i)
    Sorted-get_elem? [] i v s e = ground (arith, e)
    Sorted-get_elem? (x ∷ xs) zero v s e =
        let same : x ≡ v = ground (arith, e) in
        subst (λ z. (0 < at_most z (x ∷ xs)) × (length (x ∷ xs) ≤ at_least z (x ∷ xs) + 0)) same
          (ground (arith, irreflexive x, Below-at_least x xs s.0))
    Sorted-get_elem? (x ∷ xs) (suc i) v s e =
        ground (arith, Sorted-get_elem? xs i v s.1 e, Below-get_elem? x v xs i s.0 e)

    pub Sorted-monotone :
        (xs : List F) (i j : ℕ) (v w : F)
        → Sorted xs
        → i ≤ j
        → get_elem? xs i ≡ some v
        → get_elem? xs j ≡ some w
        → less w v ≡ false
    Sorted-monotone [] i j v w s h e f = ground (arith, e)
    Sorted-monotone (x ∷ xs) zero zero v w s h e f =
        let same : v ≡ w = ground (arith, e, f) in rw same (irreflexive w)
    Sorted-monotone (x ∷ xs) zero (suc j) v w s h e f =
        let same : x ≡ v = ground (arith, e) in
        subst (λ z. less w z ≡ false) same (Below-get_elem? x w xs j s.0 f)
    Sorted-monotone (x ∷ xs) (suc i) zero v w s h e f = absurd (omega (arith, h))
    Sorted-monotone (x ∷ xs) (suc i) (suc j) v w s h e f =
        Sorted-monotone xs i j v w s.1 (omega (arith, h)) e f

pub get_elem?-some {ℓ} :
    {A : Type ℓ} (xs : List A) (i : ℕ) → i < length xs → (a : A) × (get_elem? xs i ≡ some a)
get_elem?-some [] i h = absurd (omega (arith, h))
get_elem?-some (x ∷ xs) zero h = (x, refl)
get_elem?-some (x ∷ xs) (suc i) h = get_elem?-some xs i (omega (arith, h))

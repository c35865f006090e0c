-- ===== src/Base/Maps.antt =====
-- A Go map with string keys, as an association list. A key stands at most once, since `insert`
-- replaces; the order of iteration, which Go leaves open, is that of the list.
use Prim.Native.String.{String}
use mathlib.Core.Path.{◌≡◌, refl, subst}
use mathlib.Core.Logic.{◌≢◌}
use mathlib.Core.Bool.{Bool, true, false}
use mathlib.Core.Option.{Option, none, some}
use mathlib.Core.List.{List, [], ◌∷◌, map}
use native.Mathlib.Omega.{arith}
use text.Mathlib.Text.{◌==◌ as str_eq}
use text.Mathlib.TextEquality.{eq_iff}
use mathlib.Core.Logic.{inl, inr}
use serverless.Base.Tests.{if◌then◌else◌, Bool-cases}
use serverless.Base.Lists.{keep}

abbrev pub Dict {ℓ} : Type ℓ → Type ℓ
Dict V = List (String × V)

module _ {ℓ} {V : Type ℓ} where
  unfoldable pub lookup : String → Dict V → Option V
  lookup wanted [] = none
  lookup wanted (entry ∷ rest) = if str_eq entry.0 wanted then some entry.1 else lookup wanted rest

  -- Assignment to `m[name]`: it overwrites in place, or adds the entry.
  unfoldable pub insert : String → V → Dict V → Dict V
  insert name value [] = (name, value) ∷ []
  insert name value (entry ∷ rest) =
      if str_eq entry.0 name then (name, value) ∷ rest else entry ∷ insert name value rest

  -- Every entry of the key goes.
  unfoldable pub erase : String → Dict V → Dict V
  erase name [] = []
  erase name (entry ∷ rest) =
      if str_eq entry.0 name then erase name rest else entry ∷ erase name rest

  -- Reading a missing key gives the zero value.
  abbrev pub lookup_or : V → String → Dict V → V
  lookup_or d k m = elim (lookup k m) [ none ↦ d | some v ↦ v ]

  abbrev pub has_key : String → Dict V → Bool
  has_key k m = elim (lookup k m) [ none ↦ false | some v ↦ true ]

  abbrev pub values : Dict V → List V
  values = map (λ e. e.1)

  pub lookup-erase :
      (gone other : String) (m : Dict V)
      → lookup other (erase gone m) ≡ (if str_eq gone other then none else lookup other m)
  unfolding erase lookup
  lookup-erase gone other [] = ground arith
  lookup-erase gone other (entry ∷ rest) = ground (
    arith,
    lookup-erase gone other rest,
    eq_iff gone other,
    eq_iff entry.0 other,
    eq_iff entry.0 gone,
  )

  pub lookup-insert :
      (name other : String) (value : V) (m : Dict V)
      → lookup other (insert name value m)
        ≡ (if str_eq name other then some value else lookup other m)
  unfolding insert lookup
  lookup-insert name other value [] = refl
  lookup-insert name other value (entry ∷ rest) = ground (
    arith,
    lookup-insert name other value rest,
    eq_iff name other,
    eq_iff entry.0 other,
    eq_iff entry.0 name,
  )

pub ruleset dict_laws = (lookup-insert, lookup-erase)

pub str_eq_refl : (k : String) → str_eq k k ≡ true
str_eq_refl k = (eq_iff k k).1 refl

pub str_eq-ne : (j k : String) → j ≢ k → str_eq j k ≡ false
str_eq-ne j k h = ground (arith, eq_iff j k)

module _ {ℓ} {V : Type ℓ} where
  -- No key stands twice.
  abbrev pub UniqueKeys : Dict V → Type ℓ
  UniqueKeys [] = Unit
  UniqueKeys ((k, v) ∷ m) = (lookup k m ≡ none) × UniqueKeys m

  pub UniqueKeys-insert :
      (k : String) (v : V) (m : Dict V) → UniqueKeys m → UniqueKeys (insert k v m)
  unfolding insert lookup
  UniqueKeys-insert k v [] h = (refl, tt)
  UniqueKeys-insert k v ((j, w) ∷ m) h =
      ground (arith, eq_iff j k, eq_iff k j, lookup-insert k j v m, UniqueKeys-insert k v m h.1)

  pub UniqueKeys-erase : (k : String) (m : Dict V) → UniqueKeys m → UniqueKeys (erase k m)
  unfolding erase
  UniqueKeys-erase k [] h = tt
  UniqueKeys-erase k ((j, w) ∷ m) h = ground (arith, lookup-erase k j m, UniqueKeys-erase k m h.1)

  -- What is left of a map when the entries that fail a test are deleted.
  pub lookup-keep :
      (p : String × V → Bool) (k : String) (m : Dict V)
      → UniqueKeys m
      → lookup k (keep p m)
        ≡ elim (lookup k m) [ none ↦ none | some v ↦ if p (k, v) then some v else none ]
  unfolding lookup
  lookup-keep p k [] h = refl
  lookup-keep p k ((j, w) ∷ m) h = elim (Bool-cases (str_eq j k)) [
    | inl e ↦
        let same : j ≡ k = (eq_iff j k).0 e in
        subst
          (λ i. lookup i (keep p ((j, w) ∷ m)) ≡ elim (lookup i ((j, w) ∷ m)) [
            | none ↦ none
            | some v ↦ if p (i, v) then some v else none
          ])
          same (ground (arith, str_eq_refl j, lookup-keep p j m h.1))
    | inr e ↦ ground (arith, lookup-keep p k m h.1)
  ]

  pub UniqueKeys-keep : (p : String × V → Bool) (m : Dict V) → UniqueKeys m → UniqueKeys (keep p m)
  UniqueKeys-keep p [] h = tt
  UniqueKeys-keep p ((j, w) ∷ m) h = ground (arith, lookup-keep p j m h.1, UniqueKeys-keep p m h.1)

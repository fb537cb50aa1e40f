-- ===== src/Common/Maps.antt =====
-- Go maps as association lists. `insert` keeps a key's place, and a new key goes to the end; the
-- order of the list stands for the order in which one `range` loop meets the keys.
use mathlib.Core.Path.{◌≡◌, refl}
use mathlib.Core.Bool.{Bool, true, false}
use mathlib.Core.List.{List, [], ◌∷◌}
use mathlib.Core.Option.{Option, none, some}
use native.Mathlib.Omega.{arith}
use mathlib.Core.Logic.{inl, inr}
use landau.Common.Tests.{Eq, ◌==◌, if◌then◌else◌, Bool-cases}

abbrev pub is_some {ℓ} : {A : Type ℓ} → Option A → Bool
is_some none = false
is_some (some a) = true

abbrev pub or_else {ℓ} : {A : Type ℓ} → Option A → A → A
or_else none d = d
or_else (some a) d = a

module _ {ℓ κ} {K : Type ℓ} {V : Type κ} ⦃e : Eq K⦄ where
  abbrev pub lookup : K → List (K × V) → Option V
  lookup k [] = none
  lookup k ((j, v) ∷ m) = if j == k then some v else lookup k m

  abbrev pub insert : K → V → List (K × V) → List (K × V)
  insert k v [] = (k, v) ∷ []
  insert k v ((j, w) ∷ m) = if j == k then (j, v) ∷ m else (j, w) ∷ insert k v m

  abbrev pub delete : K → List (K × V) → List (K × V)
  delete k [] = []
  delete k ((j, v) ∷ m) = if j == k then delete k m else (j, v) ∷ delete k m

  abbrev pub has : K → List (K × V) → Bool
  has k [] = false
  has k ((j, v) ∷ m) = if j == k then true else has k m

  -- A missing key reads as the zero value.
  abbrev pub lookup_or : K → V → List (K × V) → V
  lookup_or k d [] = d
  lookup_or k d ((j, v) ∷ m) = if j == k then v else lookup_or k d m

module _ {ℓ κ} {K : Type ℓ} {V : Type κ} ⦃e : Eq K⦄ where
  pub lookup-insert :
      (j k : K) (v : V) (m : List (K × V))
      → lookup j (insert k v m) ≡ (if k == j then some v else lookup j m)
  lookup-insert j k v [] = refl
  lookup-insert j k v ((i, w) ∷ m) =
      ground (arith, lookup-insert j k v m, e.beq_iff i k, e.beq_iff k j, e.beq_iff i j)

  pub lookup-insert_same : (k : K) (v : V) (m : List (K × V)) → lookup k (insert k v m) ≡ some v
  lookup-insert_same k v m = ground (arith, lookup-insert k k v m, e.beq_iff k k)

  pub lookup-delete :
      (j k : K) (m : List (K × V)) → lookup j (delete k m) ≡ (if k == j then none else lookup j m)
  lookup-delete j k [] = ground arith
  lookup-delete j k ((i, w) ∷ m) =
      ground (arith, lookup-delete j k m, e.beq_iff i k, e.beq_iff k j, e.beq_iff i j)

  pub has-lookup : (k : K) (m : List (K × V)) → has k m ≡ is_some (lookup k m)
  has-lookup k [] = refl
  has-lookup k ((i, w) ∷ m) = ground (arith, has-lookup k m)

  pub lookup_or-lookup :
      (k : K) (d : V) (m : List (K × V)) → lookup_or k d m ≡ or_else (lookup k m) d
  lookup_or-lookup k d [] = refl
  lookup_or-lookup k d ((i, w) ∷ m) = ground (arith, lookup_or-lookup k d m)

module _ {ℓ κ} {K : Type ℓ} {V : Type κ} ⦃e : Eq K⦄ where
  -- A Go map has a key once.
  abbrev pub Distinct : List (K × V) → Type 0
  Distinct [] = Unit
  Distinct ((k, v) ∷ m) = (has k m ≡ false) × Distinct m

module _ {ℓ κ} {K : Type ℓ} {V : Type κ} ⦃e : Eq K⦄ where
  pub has-insert :
      (j k : K) (v : V) (m : List (K × V))
      → has j (insert k v m) ≡ (if k == j then true else has j m)
  has-insert j k v [] = refl
  has-insert j k v ((i, w) ∷ m) =
      ground (arith, has-insert j k v m, e.beq_iff i k, e.beq_iff k j, e.beq_iff i j)

  pub Distinct-insert : (k : K) (v : V) (m : List (K × V)) → Distinct m → Distinct (insert k v m)
  Distinct-insert k v [] d = (refl, tt)
  Distinct-insert k v ((j, w) ∷ m) (h, d) = elim (Bool-cases (j == k)) [
    | inl t ↦ rw t (h, d)
    | inr f ↦
        rw f (
          ground (arith, has-insert j k v m, e.beq_iff j k, e.beq_iff k j),
          Distinct-insert k v m d,
        )
  ]

  pub lookup-has : (k : K) (m : List (K × V)) → has k m ≡ true → (v : V) × (lookup k m ≡ some v)
  lookup-has k m h = ground (arith, has-lookup k m, h)

-- ===== src/Common/Sorting.antt =====
-- What the package sort promises, and a sort that keeps the promise.
use mathlib.Core.Path.{◌≡◌, refl, sym, subst, ap₂}
use mathlib.Core.Logic.{inl, inr}
use mathlib.Core.Bool.{Bool, true, false, Bool-set}
use mathlib.Core.List.{
  List, [], ◌∷◌, Mem, Perm, Pairwise, Pairwise-singleton, mem-cons_self, forall_mem-cons,
}
use mathlib.Core.List.Perm
use mathlib.Core.List.Pairwise
use landau.Common.Tests.{if◌then◌else◌, Bool-cases}
use landau.Common.Strings.{Bytes, bytes_ltb}
use native.Mathlib.Omega.{arith}

module _ {ℓ} {A : Type ℓ} (less : A → A → Bool) where
  -- No element may stand before a lesser one.
  abbrev pub IsOrdered : List A → Type ℓ
  IsOrdered = Pairwise (λ a b. less b a ≡ false)

  -- `sort.Sort` and `sort.Strings`: the elements, in an order that has no lesser one behind.
  pub record Sorts (sort : List A → List A) : Type ℓ where
    pub perm : (l : List A) → Perm (sort l) l
    pub ordered : (l : List A) → IsOrdered (sort l)

  -- A strict order in which incomparable elements are alike.
  pub record IsStrictOrder : Type ℓ where
    pub asym : (a b : A) → less a b ≡ true → less b a ≡ false
    pub trans : (a b c : A) → less b a ≡ false → less c b ≡ false → less c a ≡ false

  abbrev pub insert_ordered : A → List A → List A
  insert_ordered x [] = x ∷ []
  insert_ordered x (y ∷ ys) = if less x y then x ∷ y ∷ ys else y ∷ insert_ordered x ys

  abbrev pub insertion_sort : List A → List A
  insertion_sort [] = []
  insertion_sort (x ∷ xs) = insert_ordered x (insertion_sort xs)

  insert_ordered_perm : (x : A) (l : List A) → Perm (insert_ordered x l) (x ∷ l)
  insert_ordered_perm x [] = Perm.rfl
  insert_ordered_perm x (y ∷ ys) = elim (Bool-cases (less x y)) [
    | inl t ↦ rw t Perm.rfl
    | inr f ↦ rw f (Perm.trans (Perm.cons y (insert_ordered_perm x ys)) (Perm.swap x y ys))
  ]

  insertion_sort_perm : (l : List A) → Perm (insertion_sort l) l
  insertion_sort_perm [] = Perm.rfl
  insertion_sort_perm (x ∷ xs) =
      Perm.trans (insert_ordered_perm x (insertion_sort xs)) (Perm.cons x (insertion_sort_perm xs))

  -- `a` may stand before all of `l`.
  abbrev pub IsBefore : A → List A → Type ℓ
  IsBefore a l = (x : A) → Mem x l → less x a ≡ false

  pub IsBefore-cons : (a b : A) (l : List A) → less b a ≡ false → IsBefore a l → IsBefore a (b ∷ l)
  IsBefore-cons a b l p h = (forall_mem-cons λ x. Bool-set (less x a) false).1 (p, h)

  module _ (o : IsStrictOrder) where
    insert_ordered-IsOrdered : (x : A) (l : List A) → IsOrdered l → IsOrdered (insert_ordered x l)
    insert_ordered-IsOrdered x [] s = Pairwise-singleton _ x
    insert_ordered-IsOrdered x (y ∷ ys) (Pairwise.cons below s) = elim (Bool-cases (less x y)) [
      | inl t ↦
          let first : less y x ≡ false = o.asym x y t in
          rw t (
            Pairwise.cons (IsBefore-cons x y ys first λ z m. o.trans x y z first (below z m))
              (Pairwise.cons below s))
      | inr f ↦ rw f (
          Pairwise.cons
            (λ z m. IsBefore-cons y x ys f below z ((Perm.mem_iff (insert_ordered_perm x ys)).0 m))
            (insert_ordered-IsOrdered x ys s))
    ]

    insertion_sort-IsOrdered : (l : List A) → IsOrdered (insertion_sort l)
    insertion_sort-IsOrdered [] = Pairwise.nil
    insertion_sort-IsOrdered (x ∷ xs) =
        insert_ordered-IsOrdered x (insertion_sort xs) (insertion_sort-IsOrdered xs)

    pub insertion_sort-Sorts : Sorts insertion_sort
    insertion_sort-Sorts = record { perm = insertion_sort_perm; ordered = insertion_sort-IsOrdered }

-- Two ordered lists of the same elements are one, where incomparable elements are equal.
module _ {ℓ} {A : Type ℓ} (less : A → A → Bool) where
  IsBefore-perm : (a : A) (l r : List A) → Perm l r → IsBefore less a r → IsBefore less a l
  IsBefore-perm a l r p h x m = h x ((Perm.mem_iff p).0 m)

  head_first :
      (irrefl : (a : A) → less a a ≡ false) (a : A) (l : List A)
      → IsOrdered less (a ∷ l)
      → IsBefore less a (a ∷ l)
  head_first irrefl a l (Pairwise.cons below s) = IsBefore-cons less a a l (irrefl a) below

  module _ (irrefl : (a : A) → less a a ≡ false)
      (same : (a b : A) → less a b ≡ false → less b a ≡ false → a ≡ b) where
    pub ordered_unique : (l r : List A) → IsOrdered less l → IsOrdered less r → Perm l r → l ≡ r
    ordered_unique [] r sl sr p = sym (Perm.eq-nil (Perm.symm p))
    ordered_unique (a ∷ l) [] sl sr p = Perm.eq-nil p
    ordered_unique (a ∷ l) (b ∷ r) sl sr p =
        let a_first = IsBefore-perm a (b ∷ r) (a ∷ l) (Perm.symm p) (head_first irrefl a l sl) in
        let b_first = IsBefore-perm b (a ∷ l) (b ∷ r) p (head_first irrefl b r sr) in
        let heads : a ≡ b = same a b (b_first a mem-cons_self) (a_first b mem-cons_self) in
        let tails : Perm l r = Perm.cons_inv (subst (λ x. Perm (a ∷ l) (x ∷ r)) (sym heads) p) in
        ap₂ ◌∷◌ heads (ordered_unique l r (Pairwise.of_cons sl) (Pairwise.of_cons sr) tails)

pub bytes_ltb_irrefl : (s : Bytes) → bytes_ltb s s ≡ false
bytes_ltb_irrefl [] = refl
bytes_ltb_irrefl (a ∷ s) = ground (arith, bytes_ltb_irrefl s)

pub bytes_ltb_same : (s t : Bytes) → bytes_ltb s t ≡ false → bytes_ltb t s ≡ false → s ≡ t
bytes_ltb_same [] [] h k = refl
bytes_ltb_same [] (b ∷ t) h k = ground arith
bytes_ltb_same (a ∷ s) [] h k = ground arith
bytes_ltb_same (a ∷ s) (b ∷ t) h k = ground (arith, bytes_ltb_same s t)

bytes_ltb_asym : (s t : Bytes) → bytes_ltb s t ≡ true → bytes_ltb t s ≡ false
bytes_ltb_asym [] [] h = refl
bytes_ltb_asym [] (b ∷ t) h = refl
bytes_ltb_asym (a ∷ s) [] h = ground arith
bytes_ltb_asym (a ∷ s) (b ∷ t) h = ground (arith, bytes_ltb_asym s t)

bytes_ltb_trans :
    (s t u : Bytes) → bytes_ltb t s ≡ false → bytes_ltb u t ≡ false → bytes_ltb u s ≡ false
bytes_ltb_trans [] t [] h k = refl
bytes_ltb_trans [] [] (c ∷ u) h k = refl
bytes_ltb_trans [] (b ∷ t) (c ∷ u) h k = refl
bytes_ltb_trans (a ∷ s) [] u h k = ground arith
bytes_ltb_trans (a ∷ s) (b ∷ t) [] h k = ground arith
bytes_ltb_trans (a ∷ s) (b ∷ t) (c ∷ u) h k = ground (arith, bytes_ltb_trans s t u)

pub bytes_ltb-IsStrictOrder : IsStrictOrder bytes_ltb
bytes_ltb-IsStrictOrder = record { asym = bytes_ltb_asym; trans = bytes_ltb_trans }

-- ===== src/Prelude/Sort/Laws.antt =====
-- `sorted` returns its elements in order.
use mathlib.Core.List.Perm
use mathlib.Core.List.{Perm}
use infly.Prelude.{
  ◌+◌, Bool, true, false, ◌≡◌, refl, inl, inr, List, [], ◌∷◌, All, AllPairs, length, arith,
  Bool-cases,
}
use infly.Prelude.Sort.{insert_sorted, sorted, IsSorted}

module _ {ℓ} {A : Type ℓ} (le : A → A → Bool) where
  pub insert_sorted-perm : (x : A) (xs : List A) → Perm (insert_sorted le x xs) (x ∷ xs)
  unfolding insert_sorted
  insert_sorted-perm x [] = Perm.rfl
  insert_sorted-perm x (y ∷ ys) = elim (Bool-cases (le x y)) [
    | inl first ↦ rw first Perm.rfl
    | inr later ↦ rw later (Perm.trans (Perm.cons y (insert_sorted-perm x ys)) (Perm.swap x y ys))
  ]

  pub sorted-perm : (xs : List A) → Perm (sorted le xs) xs
  unfolding sorted
  sorted-perm [] = Perm.rfl
  sorted-perm (x ∷ xs) =
      Perm.trans (insert_sorted-perm x (sorted le xs)) (Perm.cons x (sorted-perm xs))

  All-insert_sorted {κ} :
      (P : A → Type κ) (x : A) (ys : List A) → P x → All P ys → All P (insert_sorted le x ys)
  unfolding insert_sorted
  All-insert_sorted P x [] p a = (p, tt)
  All-insert_sorted P x (y ∷ ys) p a = elim (Bool-cases (le x y)) [
    | inl first ↦ rw first (p, a)
    | inr later ↦ rw later (a.0, All-insert_sorted P x ys p a.1)
  ]

  pub All-sorted {κ} : (P : A → Type κ) (xs : List A) → All P xs → All P (sorted le xs)
  unfolding sorted
  All-sorted P [] a = tt
  All-sorted P (x ∷ xs) a = All-insert_sorted P x (sorted le xs) a.0 (All-sorted P xs a.1)

  pub length-insert_sorted : (x : A) (xs : List A) → length (insert_sorted le x xs) ≡ length xs + 1
  unfolding insert_sorted
  length-insert_sorted x [] = omega arith
  length-insert_sorted x (y ∷ ys) = ground (arith, length-insert_sorted x ys)

  pub length-sorted : (xs : List A) → length (sorted le xs) ≡ length xs
  unfolding sorted
  length-sorted [] = refl
  length-sorted (x ∷ xs) = omega (arith, length-sorted xs, length-insert_sorted x (sorted le xs))

  module _ {κ} (R : A → A → Type κ) (symmetric : (x y : A) → R x y → R y x) where
    AllPairs-insert_sorted :
        (x : A) (xs : List A) → All (R x) xs → AllPairs R xs → AllPairs R (insert_sorted le x xs)
    unfolding insert_sorted
    AllPairs-insert_sorted x [] a p = (tt, tt)
    AllPairs-insert_sorted x (y ∷ ys) a p = elim (Bool-cases (le x y)) [
      | inl first ↦ rw first (a, p)
      | inr later ↦ rw later (
        All-insert_sorted (R y) x ys (symmetric x y a.0) p.0,
        AllPairs-insert_sorted x ys a.1 p.1,
      )
    ]

    -- A symmetric relation between all elements outlives the sort.
    pub AllPairs-sorted : (xs : List A) → AllPairs R xs → AllPairs R (sorted le xs)
    unfolding sorted
    AllPairs-sorted [] p = tt
    AllPairs-sorted (x ∷ xs) p =
        AllPairs-insert_sorted x (sorted le xs) (All-sorted (R x) xs p.0) (AllPairs-sorted xs p.1)

  module _ (total : (x y : A) → le x y ≡ false → le y x ≡ true)
      (trans : (x y z : A) → le x y ≡ true → le y z ≡ true → le x z ≡ true) where
    All-trans :
        (x y : A) (ys : List A)
        → le x y ≡ true
        → All (λ z. le y z ≡ true) ys
        → All (λ z. le x z ≡ true) ys
    All-trans x y [] h a = tt
    All-trans x y (z ∷ zs) h a = (trans x y z h a.0, All-trans x y zs h a.1)

    insert_sorted-IsSorted :
        (x : A) (xs : List A) → IsSorted le xs → IsSorted le (insert_sorted le x xs)
    unfolding insert_sorted
    insert_sorted-IsSorted x [] s = (tt, tt)
    insert_sorted-IsSorted x (y ∷ ys) s = elim (Bool-cases (le x y)) [
      | inl first ↦ rw first ((first, All-trans x y ys first s.0), s)
      | inr later ↦ rw later (
        All-insert_sorted (λ z. le y z ≡ true) x ys (total x y later) s.0,
        insert_sorted-IsSorted x ys s.1,
      )
    ]

    -- Every element of the result is at most all behind it.
    pub sorted-IsSorted : (xs : List A) → IsSorted le (sorted le xs)
    unfolding sorted
    sorted-IsSorted [] = tt
    sorted-IsSorted (x ∷ xs) = insert_sorted-IsSorted x (sorted le xs) (sorted-IsSorted xs)

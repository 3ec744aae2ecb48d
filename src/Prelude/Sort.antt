-- ===== src/Prelude/Sort.antt =====
-- Python's `sorted`, a stable sort, by a Boolean order on the elements.
pub mod Laws
use mathlib.Core.List.Perm
use mathlib.Core.List.{Perm}
use infly.Prelude.Lists.{AllPairs}
use infly.Prelude.Tests.{if◌then◌else◌, Bool-cases}
use mathlib.Core.Bool.{Bool, true, false}
use mathlib.Core.Logic.{◌⊎◌, inl, inr}
use mathlib.Core.List.{List, [], ◌∷◌}
use mathlib.Core.Path.{◌≡◌, refl}
use native.Mathlib.Omega.{arith}

module _ {ℓ} {A : Type ℓ} (le : A → A → Bool) where
  -- `x` goes in front of the first element that it does not pass.
  unfoldable pub insert_sorted : A → List A → List A
  insert_sorted x [] = x ∷ []
  insert_sorted x (y ∷ ys) = if le x y then x ∷ y ∷ ys else y ∷ insert_sorted x ys

  unfoldable pub sorted : List A → List A
  unfolding insert_sorted
  sorted [] = []
  sorted (x ∷ xs) = insert_sorted x (sorted xs)

  -- Every element is at most all that stand behind it.
  abbrev pub IsSorted : List A → Type 0
  IsSorted = AllPairs (λ x y. le x y ≡ true)

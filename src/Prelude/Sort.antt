-- ===== src/Prelude/Sort.antt =====
-- `std::sort` by a strict order, and `erase(unique(...))`. Equal elements are alike here, so that
-- the sort of the library is not stable changes nothing.
use cycle_enumeration_gpu.Prelude.Tests.{if◌then◌else◌}
use mathlib.Core.Bool.{Bool}
use mathlib.Core.List.{List, [], ◌∷◌}

module _ {ℓ} {A : Type ℓ} where
  unfoldable pub insert : (A → A → Bool) → A → List A → List A
  insert lt x [] = x ∷ []
  insert lt x (y ∷ ys) = if lt y x then y ∷ insert lt x ys else x ∷ y ∷ ys

  unfoldable pub sort : (A → A → Bool) → List A → List A
  unfolding insert
  sort lt [] = []
  sort lt (x ∷ xs) = insert lt x (sort lt xs)

  -- The elements after `x` that differ from the one before them.
  unfoldable pub unique_after : (A → A → Bool) → A → List A → List A
  unique_after same x [] = []
  unique_after same x (y ∷ ys) =
      if same x y then unique_after same x ys else y ∷ unique_after same y ys

  unfoldable pub unique : (A → A → Bool) → List A → List A
  unfolding unique_after
  unique same [] = []
  unique same (x ∷ xs) = x ∷ unique_after same x xs

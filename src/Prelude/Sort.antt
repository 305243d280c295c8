-- ===== src/Prelude/Sort.antt =====
-- `sort_unstable`. Elements that compare equal are equal, so any sort returns the same list.
use Prim.Native.Nat.Ordering.{gt}
use mathlib.Core.List.{List, [], ◌∷◌}
use keep_afloat_d.Prelude.Order.{Ord}

module _ {ℓ} {A : Type ℓ} ⦃o : Ord A⦄ where
  unfoldable pub insert_sorted : A → List A → List A
  insert_sorted a [] = a ∷ []
  insert_sorted a (x ∷ xs) = elim (o.cmp a x) [ gt ↦ x ∷ insert_sorted a xs | _ ↦ a ∷ x ∷ xs ]

  unfoldable pub sort_unstable : List A → List A
  unfolding insert_sorted
  sort_unstable [] = []
  sort_unstable (x ∷ xs) = insert_sorted x (sort_unstable xs)
